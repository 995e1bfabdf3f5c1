-- ===== src/Agent/Loop/Stops.antt =====
-- The loop stops when the model keeps on giving arguments that fail.
use sqllens.Prelude.{◌||◌, any}
use sqllens.Prelude.Act.{◌>>◌}
use sqllens.Prelude.{Bool-cases, inl, inr}
use sqllens.Agent.Access.{
  can_user_access_feature, feature_name, show_tool_invocation_message_in_chat,
}
use sqllens.Prelude.Act.{Act}
use sqllens.Prelude.Triple.{Triple, Leaves, give-Triple, bind-Triple, then-Triple, if-Triple}
use sqllens.Prelude.Result.{Result, ok, err}
use sqllens.Agent.Access.{User}
use sqllens.Agent.Requests.{
  LlmRequest, LlmResponse, Message, or_none, ask, is_tool_call, build_llm_request,
}
use sqllens.Agent.Calls.{Agent, CallDone, Event, Screen, on_world, emit, run_calls}
use sqllens.Agent.Loop.{
  Talk, Ended, on_screen, say, add_messages, announce, rebuild, settle, run_round, take_response,
  loop, next_failures, all_failed, max_consecutive_argument_failures,
}
use sqllens.Prelude.{
  ℕ, zero, suc, ◌+◌, ◌-◌, ◌≤◌, ◌<◌, String, ◌≡◌, refl, ap, Bool, true, false, Option, none, some,
  List, arith, leb,
}

abbrev pub Never : {S : Type 0} → S → Type 0
Never s = ⊥

abbrev pub Always : {S : Type 0} → S → Type 0
Always s = Unit

module _ {World Raw Args Ui : Type 0} (agent : Agent World Raw Args Ui) (schemas : List String)
    (user : User) (system_prompt : Option String) where
  -- Running a response's tool calls gives results of which each failed on its arguments.
  abbrev pub IsFailing : LlmResponse Raw → Type 0
  IsFailing response =
      (s : Screen World Raw Ui)
      → Leaves (λ (done : List CallDone) (u : Screen World Raw Ui). all_failed done ≡ true) Never
          (run_calls agent user response.content (or_none response.tool_calls) s)

  -- The model answers, with calls that fail.
  abbrev pub AsksFail : Type 0
  AsksFail =
      (request : LlmRequest Raw) (w : World)
      → Leaves (λ (r : LlmResponse Raw) (u : World). (is_tool_call r ≡ true) × IsFailing r) Never
          (ask agent.llm request w)

  -- A request is built.
  abbrev pub Builds : Type 0
  Builds =
      (messages : List (Message Raw)) (w : World)
      → Leaves (λ (r : LlmRequest Raw) (u : World). Unit) Never
          (build_llm_request agent.llm messages schemas user system_prompt w)

  screen-Triple :
      {A : Type 0} (Q : A → Type 0) (run : Act (Screen World Raw Ui) String A)
      → ((s : Screen World Raw Ui)
          → Leaves (λ (a : A) (u : Screen World Raw Ui). Q a) Never (run s))
      → Triple {S = Talk World Raw Ui} Always
          (λ (a : A) (u : Talk World Raw Ui). Q a)
          Never
          (on_screen run)
  unfolding on_screen
  screen-Triple {A} Q run h = record {
    apply = λ t _. go (run t.screen).1 (run t.screen).0 t (h t.screen);
  }
    where
      go :
          (r : Result String A) (s : Screen World Raw Ui) (t : Talk World Raw Ui)
          → Leaves (λ (a : A) (u : Screen World Raw Ui). Q a) Never (s, r)
          → Leaves (λ (a : A) (u : Talk World Raw Ui). Q a) Never (record t { screen = s }, r)
      go (ok a) s t q = q
      go (err e) s t q = q

  world-Leaves :
      {A : Type 0} (Q : A → Type 0) (run : Act World String A)
      → ((w : World) → Leaves (λ (a : A) (u : World). Q a) Never (run w))
      → (s : Screen World Raw Ui)
      → Leaves (λ (a : A) (u : Screen World Raw Ui). Q a) Never (on_world run s)
  unfolding on_world
  world-Leaves {A} Q run h s = go (run s.world).1 (run s.world).0 (h s.world)
    where
      go :
          (r : Result String A) (w : World)
          → Leaves (λ (a : A) (u : World). Q a) Never (w, r)
          → Leaves (λ (a : A) (u : Screen World Raw Ui). Q a) Never (record s { world = w }, r)
      go (ok a) w q = q
      go (err e) w q = q

  say-Triple :
      (event : Event Raw Ui)
      → Triple {S = Talk World Raw Ui} Always (λ (a : Unit {0}). Always) Never (say event)
  unfolding say emit
  say-Triple event = screen-Triple Always (emit event) (λ s. tt)

  add-Triple :
      (more : List (Message Raw))
      → Triple {S = Talk World Raw Ui} Always (λ (a : Unit {0}). Always) Never (add_messages more)
  unfolding add_messages
  add-Triple more = record { apply = λ t _. tt }

  announce-Leaves :
      (response : LlmResponse Raw) (content : Option String) (s : Screen World Raw Ui)
      → Leaves
          (λ (a : Unit {0}) (u : Screen World Raw Ui). Always a)
          Never
          (announce agent user response content s)
  unfolding announce emit ◌>>◌
  announce-Leaves response none s = tt
  announce-Leaves response (some content) s =
      elim (Bool-cases (
        can_user_access_feature agent.feature_group_access
          (feature_name show_tool_invocation_message_in_chat) user)) [
            | inl e ↦ rw e tt
            | inr e ↦ rw e tt
          ]

  rebuild-Triple :
      Builds
      → Triple {S = Talk World Raw Ui} Always
          (λ (r : LlmRequest Raw). Always)
          Never
          (rebuild agent schemas user system_prompt)
  unfolding rebuild
  rebuild-Triple builds = record {
    apply = λ t _.
        (screen-Triple Always
            (on_world (build_llm_request agent.llm t.messages schemas user system_prompt))
            (world-Leaves Always _ (builds t.messages))).apply
          t tt;
  }

  abbrev Stopped : ℕ → Ended → Talk World Raw Ui → Type 0
  Stopped n ended t = ended ≡ record { tool_iterations = n; stopped_on_argument_failures = true }

  settle-Stopped :
      (iterations failures target : ℕ) (prose : Bool)
      (next : ℕ → Bool → LlmRequest Raw → Act (Talk World Raw Ui) String Ended)
      → Builds
      → (max_consecutive_argument_failures ≤ failures → iterations ≡ target)
      → (failures < max_consecutive_argument_failures
          → (b : Bool) (r : LlmRequest Raw)
          → Triple Always (Stopped target) Never (next failures b r))
      → Triple Always
          (Stopped target)
          Never
          (settle agent schemas user system_prompt iterations failures prose next)
  unfolding settle
  settle-Stopped iterations failures target prose next builds stop go =
      if-Triple (leb max_consecutive_argument_failures failures) _ _
        (λ e. then-Triple Always (say-Triple _) (
          then-Triple Always (say-Triple _) (
            give-Triple (λ t _.
              let same = stop (ground (arith, e)) in
              ap
                (λ (n : ℕ).
                  let end : Ended = record {
                    tool_iterations = n;
                    stopped_on_argument_failures = true;
                  } in
                  end)
                same))))
        (λ e.
          bind-Triple _ (rebuild-Triple builds) (λ request. go (ground (arith, e)) prose request))

  round-Stopped :
      (response : LlmResponse Raw) (iterations failures target : ℕ) (prose : Bool)
      (next : ℕ → Bool → LlmRequest Raw → Act (Talk World Raw Ui) String Ended)
      → Builds
      → IsFailing response
      → (max_consecutive_argument_failures ≤ failures + 1 → iterations ≡ target)
      → (failures + 1 < max_consecutive_argument_failures
          → (b : Bool) (r : LlmRequest Raw)
          → Triple Always (Stopped target) Never (next (failures + 1) b r))
      → Triple Always
          (Stopped target)
          Never
          (run_round agent schemas user system_prompt response iterations failures prose next)
  unfolding run_round next_failures
  round-Stopped response iterations failures target prose next builds fails stop go =
      then-Triple Always (add-Triple _) (
        then-Triple Always (screen-Triple Always _ (announce-Leaves response response.content)) (
          bind-Triple _ (screen-Triple (λ (done : List CallDone). all_failed done ≡ true) _ fails)
            (λ done. record {
              apply = λ t e. rw e (
                  (then-Triple Always (add-Triple _) (
                      settle-Stopped iterations (failures + 1) target
                        (prose || any (λ (c : CallDone). c.marked) done) next builds stop go)).apply
                    t tt);
            })))

  loop-Stopped :
      AsksFail
      → Builds
      → (left iterations failures : ℕ) (prose : Bool) (request : LlmRequest Raw) (target : ℕ)
      → failures < max_consecutive_argument_failures
      → max_consecutive_argument_failures ≤ failures + left
      → target ≡ iterations + (max_consecutive_argument_failures - failures)
      → Triple Always
          (Stopped target)
          Never
          (loop agent schemas user system_prompt left iterations failures prose request)
  unfolding loop take_response
  loop-Stopped asks builds zero iterations failures prose request target f h e =
      absurd (omega arith)
  loop-Stopped asks builds (suc left) iterations failures prose request target f h e =
      bind-Triple _
        (screen-Triple (λ (r : LlmResponse Raw). (is_tool_call r ≡ true) × IsFailing r)
          (on_world (ask agent.llm request)) (world-Leaves _ _ (asks request)))
        (λ response. record {
          apply = λ t (calls, fails). rw calls (
              (round-Stopped response (iterations + 1) failures target prose
                  (loop agent schemas user system_prompt left (iterations + 1)) builds fails
                  (λ m. omega arith)
                  (λ m b r.
                    loop-Stopped asks builds left (iterations + 1) (failures + 1) b r target m
                      (omega arith) (omega arith))).apply
                t tt);
        })

  -- If the model answers every request with tool calls that all fail on their arguments, and requests
  -- are built, then a loop that may run three rounds or more ends after exactly three, as stopped, and
  -- raises nothing.
  pub loop_stops :
      (limit : ℕ) (request : LlmRequest Raw) (t : Talk World Raw Ui)
      → AsksFail
      → Builds
      → max_consecutive_argument_failures ≤ limit
      → (loop agent schemas user system_prompt limit 0 0 false request t).1
        ≡ ok (record { tool_iterations = 3; stopped_on_argument_failures = true })
  loop_stops limit request t asks builds h =
      stopped (loop agent schemas user system_prompt limit 0 0 false request t) (
        (loop-Stopped asks builds limit 0 0 false request 3 (omega arith) (omega arith) refl).apply
          t tt)
    where
      stopped :
          (out : Talk World Raw Ui × Result String Ended)
          → Leaves (Stopped 3) Never out
          → out.1 ≡ ok (record { tool_iterations = 3; stopped_on_argument_failures = true })
      stopped (u, ok ended) e = ap ok e
      stopped (u, err m) e = absurd e
