-- ===== src/Agent/Loop/Answered.antt =====
-- Behind the loop every tool use of the conversation has its results.
use mathlib.Core.List.{append-nil, append_assoc}
use sqllens.Prelude.Act.{Act, ◌>>=◌, ◌>>◌, bind_cases}
use sqllens.Prelude.{
  Bool-cases, leb, inl, inr, ℕ, String, ◌≡◌, sym, Bool, Option, List, [], ◌∷◌, ◌++◌, map, zero, suc,
  ◌+◌, ◌≤◌, refl, false, none, length, drop,
}
use sqllens.Agent.Requests.{build_llm_request, LlmRequest, LlmResponse, Message, or_none, ask}
use sqllens.Agent.Calls.{emit, Event, Agent, CallDone, Screen, on_world, run_calls}
use sqllens.Agent.Loop.{
  say, max_consecutive_argument_failures, Talk, Ended, on_screen, add_messages, assistant_message,
  tool_messages, announce, rebuild, settle, run_round, final_reply, loop, respond, warn,
  after_messages, is_tool_call, take_response, final_message,
}
use sqllens.Prelude.Keeps.{Post}
use sqllens.Prelude.Result.{Result, ok, err}
use sqllens.Agent.Access.{User}
use sqllens.Agent.Calls.Ids.{run_calls-ids}
use sqllens.Prelude.Keeps.{Whatever}
use sqllens.Agent.Loop.Held.{
  Held, After, give-Held, bind-Held, then-Held, on_screen-Held, any_result, act_if-Held,
  add_messages-Held,
}
use mathlib.Core.Path.{subst}
use sqllens.Agent.Loop.History.{
  IsProvided, Grown, round-Clear, Grown-append, Grown-Torn_append, ids, final_message-Clear, view,
}
use sqllens.Conversation.ToolUse.Clear.{Clear, Clear-search_from, nothing}
use sqllens.Conversation.ToolUse.{first_unanswered_tool_use}

module _ {World Raw Args Ui : Type 0} (agent : Agent World Raw Args Ui) (schemas : List String)
    (user : User) (system_prompt : Option String) (prior : List (Message Raw))
    (provided : (request : LlmRequest Raw) (w : World)
      → Post IsProvided (ask agent.llm request w).1) where
  screen-Held :
      {A : Type 0} (run : Act (Screen World Raw Ui) String A) → Held prior Whatever (on_screen run)
  screen-Held run = on_screen-Held prior Whatever run (λ s. any_result (run s).1)

  say-Held :
      (event : Event Raw Ui) → Held {World = World} {Raw = Raw} {Ui = Ui} prior Whatever (say event)
  unfolding say
  say-Held event = screen-Held (emit event)

  rebuild-Held : Held prior Whatever (rebuild agent schemas user system_prompt)
  unfolding rebuild
  rebuild-Held = record {
    apply = λ t g.
        (screen-Held
            (on_world (build_llm_request agent.llm t.messages schemas user system_prompt))).apply
          t g;
  }

  settle-Held :
      (iterations failures : ℕ) (prose : Bool)
      (next : ℕ → Bool → LlmRequest Raw → Act (Talk World Raw Ui) String Ended)
      → ((n : ℕ) (b : Bool) (request : LlmRequest Raw) → Held prior Whatever (next n b request))
      → Held prior Whatever (settle agent schemas user system_prompt iterations failures prose next)
  unfolding settle
  settle-Held iterations failures prose next h =
      elim (Bool-cases (leb max_consecutive_argument_failures failures)) [
        | inl e ↦ rw e (
            then-Held prior Whatever (say-Held _)
              (then-Held prior Whatever (say-Held _) (give-Held prior tt)))
        | inr e ↦
            rw e (bind-Held prior Whatever rebuild-Held (λ request _. h failures prose request))
      ]

  run_round-Held :
      (response : LlmResponse Raw) (iterations failures : ℕ) (prose : Bool)
      (next : ℕ → Bool → LlmRequest Raw → Act (Talk World Raw Ui) String Ended)
      → IsProvided response
      → ((n : ℕ) (b : Bool) (request : LlmRequest Raw) → Held prior Whatever (next n b request))
      → Held prior Whatever
          (run_round agent schemas user system_prompt response iterations failures prose next)
  unfolding run_round ◌>>=◌ ◌>>◌ on_screen add_messages
  run_round-Held response iterations failures prose next p h = record {
    apply = λ t g.
        let P : Talk World Raw Ui × Result String Ended → Type 0 = After prior Whatever in
        let torn = λ (_ : String). Grown-Torn_append (assistant_message response) g in
        bind_cases P (on_screen (announce agent user response response.content)) _ _ torn (λ _ _.
          bind_cases P
            (on_screen (run_calls agent user response.content (or_none response.tool_calls))) _ _
            torn
            (λ done e.
              (settle-Held iterations _ _ next h).apply _
                (round_added response t.messages done g p (order response done _ e))));
  }
    where
      order :
          (response : LlmResponse Raw) (done : List CallDone) (s : Screen World Raw Ui)
          → (run_calls agent user response.content (or_none response.tool_calls) s).1 ≡ ok done
          → map (λ (d : CallDone). d.tool_call_id) done ≡ ids (or_none response.tool_calls)
      order response done s e =
          subst (Post _) e
            ((run_calls-ids agent user response.content (or_none response.tool_calls)).result s tt)

      round_added :
          (response : LlmResponse Raw) (messages : List (Message Raw)) (done : List CallDone)
          → Grown prior messages
          → IsProvided response
          → map (λ (d : CallDone). d.tool_call_id) done ≡ ids (or_none response.tool_calls)
          → Grown prior ((messages ++ assistant_message response ∷ []) ++ tool_messages done)
      round_added response messages done g p e =
          subst (Grown prior) (sym (append_assoc messages _ _))
            (Grown-append _ g (round-Clear response done p e))

  final_reply-Held :
      (response : LlmResponse Raw) (iterations : ℕ) (prose : Bool)
      → is_tool_call response ≡ false
      → IsProvided response
      → Held {World = World} {Raw = Raw} {Ui = Ui} prior Whatever
          (final_reply response iterations prose)
  unfolding final_reply
  final_reply-Held response iterations prose n p = then-Held prior Whatever (say-Held _) (
      then-Held prior Whatever (say-Held _) (
        then-Held prior Whatever
          (act_if-Held prior _ (λ _.
            add_messages-Held prior (final_message response ∷ [])
              (final_message-Clear response n p)))
          (then-Held prior Whatever (act_if-Held prior _ (λ _. say-Held _)) (give-Held prior tt))))

  loop-Held :
      (left iterations failures : ℕ) (prose : Bool) (request : LlmRequest Raw)
      → Held prior Whatever
          (loop agent schemas user system_prompt left iterations failures prose request)
  unfolding loop take_response
  loop-Held zero iterations failures prose request = give-Held prior tt
  loop-Held (suc left) iterations failures prose request =
      bind-Held prior IsProvided
        (on_screen-Held prior IsProvided (on_world (ask agent.llm request)) (λ s. asked s))
        (λ response p. elim (Bool-cases (is_tool_call response)) [
          | inl e ↦ rw e (
              run_round-Held response (iterations + 1) failures prose
                (loop agent schemas user system_prompt left (iterations + 1)) p
                (loop-Held left (iterations + 1)))
          | inr e ↦ rw e (final_reply-Held response iterations prose e p)
        ])
    where
      asked : (s : Screen World Raw Ui) → Post IsProvided (on_world (ask agent.llm request) s).1
      asked s = unfold on_world in provided request s.world

  warn-Held :
      (limit : ℕ) (ended : Ended)
      → Held {World = World} {Raw = Raw} {Ui = Ui} prior Whatever (warn limit ended)
  unfolding warn
  warn-Held limit ended = act_if-Held prior _ (λ _.
      then-Held prior Whatever (then-Held prior Whatever (say-Held _) (say-Held _)) (say-Held _))

  of_messages-Held :
      {A : Type 0} (run : List (Message Raw) → Act World String A)
      → Held prior Whatever (λ (t : Talk World Raw Ui). on_screen (on_world (run t.messages)) t)
  of_messages-Held run = record {
    apply = λ t g. (screen-Held (on_world (run t.messages))).apply t g;
  }

  pub respond-Held :
      (effective : Option ℕ)
      → Held prior Whatever (respond agent schemas user system_prompt effective)
  unfolding respond
  respond-Held effective = bind-Held prior Whatever rebuild-Held (λ request _.
      bind-Held prior Whatever (loop-Held _ 0 0 false request) (λ ended _.
        then-Held prior Whatever (warn-Held _ ended) (
          then-Held prior Whatever
            (act_if-Held prior _ (λ _. of_messages-Held agent.update_conversation))
            (then-Held prior Whatever (of_messages-Held (after_messages agent.lifecycle_hooks))
              (give-Held prior tt)))))

-- Where a run ends: the messages only grew. When it returned, none that it added uses a tool
-- without the result; when it raised, none but the last one does.
abbrev pub Settled :
    {World Raw Ui A : Type 0} → List (Message Raw) → Talk World Raw Ui × Result String A → Type 0
Settled {Raw = Raw} prior (t, ok a) =
    (new : List (Message Raw)) × (t.messages ≡ prior ++ new)
    × (first_unanswered_tool_use (map view t.messages) (length prior) ≡ none)
Settled {Raw = Raw} prior (t, err e) =
    (new : List (Message Raw)) × (last : List (Message Raw)) × (t.messages ≡ prior ++ (new ++ last))
    × (length last ≤ 1)
    × (first_unanswered_tool_use (map view (prior ++ new)) (length prior) ≡ none)

drop-view :
    {Raw : Type 0} (prior new : List (Message Raw))
    → drop (length prior) (map view (prior ++ new)) ≡ map view new
drop-view [] new = refl
drop-view (m ∷ ms) new = drop-view ms new

search-Clear :
    {Raw : Type 0} (prior new : List (Message Raw))
    → Clear (map view new)
    → first_unanswered_tool_use (map view (prior ++ new)) (length prior) ≡ none
unfolding first_unanswered_tool_use
search-Clear prior new c = rw (drop-view prior new) (Clear-search_from c (length prior))

-- If every tool use among a response's provider blocks is one of its tool calls, then however the
-- run of a message ends, its messages only grew. When it returned, no message that it added uses a
-- tool whose result is missing; when it raised, this holds of all but the last message.
pub respond-Settled :
    {World Raw Args Ui : Type 0} (agent : Agent World Raw Args Ui) (schemas : List String)
    (user : User) (system_prompt : Option String) (effective : Option ℕ) (t : Talk World Raw Ui)
    → ((request : LlmRequest Raw) (w : World) → Post IsProvided (ask agent.llm request w).1)
    → Settled t.messages (respond agent schemas user system_prompt effective t)
respond-Settled {World} {Raw} {Args} {Ui} agent schemas user system_prompt effective t provided =
    settled (respond agent schemas user system_prompt effective t) (
      (respond-Held agent schemas user system_prompt t.messages provided effective).apply t
        (record { new = []; extends = sym (append-nil t.messages); clear = nothing }))
  where
    settled :
        (out : Talk World Raw Ui × Result String Ended)
        → After t.messages Whatever out
        → Settled t.messages out
    settled (u, ok a) (g, _) =
        (g.new, g.extends, rw g.extends (search-Clear t.messages g.new g.clear))
    settled (u, err e) g =
        (g.new, g.last, g.extends, g.short, search-Clear t.messages g.new g.clear)
