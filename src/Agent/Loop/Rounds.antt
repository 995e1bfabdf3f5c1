-- ===== src/Agent/Loop/Rounds.antt =====
-- How many tool rounds a message gets.
use sqllens.Prelude.Act.{Act}
use sqllens.Prelude.Triple.{
  Triple, Leaves, give-Triple, bind-Triple, then-Triple, act_if-Triple, if-Triple, from-Triple,
}
use sqllens.Prelude.Result.{Result, ok, err}
use sqllens.Agent.Access.{User}
use sqllens.Agent.Requests.{LlmRequest, LlmResponse, Message, is_tool_call, build_llm_request}
use sqllens.Agent.Calls.{Agent, Event, Screen, on_world, emit}
use sqllens.Agent.Loop.{
  Talk, Ended, on_screen, say, rebuild, settle, run_round, final_reply, take_response, loop,
  max_consecutive_argument_failures, max_iterations, respond, warn, after_messages,
}
use sqllens.Prelude.{
  ℕ, zero, suc, ◌+◌, ◌≤◌, String, ◌≡◌, refl, Bool, true, Option, List, arith, leb, false,
}
use sqllens.Agent.Loop.Count.{
  rounds, rounds-assistant, rounds-final, rounds-tool, At, Within, screen-At, say-At, add-At,
}

module _ {World Raw Ui : Type 0} where
  -- Where the loop ended: the messages' rounds are those it counted.
  abbrev Counted : ℕ → ℕ → Ended → Talk World Raw Ui → Type 0
  Counted base bound ended t =
      (rounds t.messages ≡ base + ended.tool_iterations) × (base + ended.tool_iterations ≤ bound)

module _ {World Raw Args Ui : Type 0} (agent : Agent World Raw Args Ui) (schemas : List String)
    (user : User) (system_prompt : Option String) (base bound : ℕ) where
  rebuild-At :
      (k : ℕ)
      → k ≤ bound
      → Triple
          (At k)
          (λ (r : LlmRequest Raw). At k)
          (Within bound)
          (rebuild agent schemas user system_prompt)
  unfolding rebuild
  rebuild-At k h = record {
    apply = λ t p.
        (screen-At k bound h
            (on_world (build_llm_request agent.llm t.messages schemas user system_prompt))).apply
          t p;
  }

  abbrev Next : ℕ → (ℕ → Bool → LlmRequest Raw → Act (Talk World Raw Ui) String Ended) → Type 0
  Next k next =
      (n : ℕ) (b : Bool) (request : LlmRequest Raw)
      → Triple (At k) (Counted base bound) (Within bound) (next n b request)

  settle-Counted :
      (iterations failures : ℕ) (prose : Bool)
      (next : ℕ → Bool → LlmRequest Raw → Act (Talk World Raw Ui) String Ended)
      → base + iterations ≤ bound
      → Next (base + iterations) next
      → Triple
          (At (base + iterations))
          (Counted base bound)
          (Within bound)
          (settle agent schemas user system_prompt iterations failures prose next)
  unfolding settle
  settle-Counted iterations failures prose next h n =
      let k = base + iterations in
      if-Triple (leb max_consecutive_argument_failures failures) _ _
        (λ _.
          then-Triple (At k) (say-At k bound h _)
            (then-Triple (At k) (say-At k bound h _) (give-Triple (λ t p. (p, h)))))
        (λ _. bind-Triple _ (rebuild-At k h) (λ request. n failures prose request))

  run_round-Counted :
      (response : LlmResponse Raw) (iterations failures : ℕ) (prose : Bool)
      (next : ℕ → Bool → LlmRequest Raw → Act (Talk World Raw Ui) String Ended)
      → is_tool_call response ≡ true
      → base + iterations + 1 ≤ bound
      → Next (base + (iterations + 1)) next
      → Triple
          (At (base + iterations))
          (Counted base bound)
          (Within bound)
          (run_round agent schemas user system_prompt response (iterations + 1) failures prose next)
  unfolding run_round
  run_round-Counted response iterations failures prose next e h n =
      let k = base + iterations + 1 in
      let same : base + iterations + 1 ≡ base + (iterations + 1) = omega arith in
      then-Triple (At k) (add-At (base + iterations) 1 bound _ (rounds-assistant response e)) (
        then-Triple (At k) (screen-At k bound h _) (
          bind-Triple _ (screen-At k bound h _) (λ done.
            then-Triple (At (k + 0)) (add-At k 0 bound _ (rounds-tool Raw done)) (
              from-Triple (λ t p. omega (arith, p))
                (settle-Counted (iterations + 1) _ _ next (omega (arith, h)) n)))))

  final_reply-Counted :
      (response : LlmResponse Raw) (iterations : ℕ) (prose : Bool)
      → base + iterations ≤ bound
      → Triple {S = Talk World Raw Ui}
          (At (base + iterations))
          (Counted base bound)
          (Within bound)
          (final_reply response iterations prose)
  unfolding final_reply
  final_reply-Counted response iterations prose h =
      let k = base + iterations in
      then-Triple (At k) (say-At k bound h _) (
        then-Triple (At k) (say-At k bound h _) (
          then-Triple (At (k + 0))
            (act_if-Triple _ (λ _. add-At k 0 bound _ (rounds-final response))
              (λ t p. omega (arith, p)))
            (then-Triple (At (k + 0))
              (act_if-Triple _ (λ _. say-At (k + 0) bound (omega (arith, h)) _) (λ t p. p))
              (give-Triple (λ t p. (omega (arith, p), h))))))

  loop-Counted :
      (left iterations failures : ℕ) (prose : Bool) (request : LlmRequest Raw)
      → base + iterations + left ≤ bound
      → Triple
          (At (base + iterations))
          (Counted base bound)
          (Within bound)
          (loop agent schemas user system_prompt left iterations failures prose request)
  unfolding loop take_response
  loop-Counted zero iterations failures prose request h = give-Triple (λ t p. (p, omega (arith, h)))
  loop-Counted (suc left) iterations failures prose request h =
      bind-Triple _ (screen-At (base + iterations) bound (omega (arith, h)) _) (λ response.
        if-Triple (is_tool_call response) _ _
          (λ e.
            run_round-Counted response iterations failures prose _ e (omega (arith, h))
              (λ n b r. loop-Counted left (iterations + 1) n b r (omega (arith, h))))
          (λ _. final_reply-Counted response iterations prose (omega (arith, h))))

  -- What leaves the messages alone, where the loop has ended.
  kept :
      {A : Type 0} (ended : Ended) (run : List (Message Raw) → Act (Screen World Raw Ui) String A)
      → Triple
          (Counted base bound ended)
          (λ (a : A). Counted base bound ended)
          (Within bound)
          (λ (t : Talk World Raw Ui). on_screen (run t.messages) t)
  unfolding on_screen
  kept {A} ended run = record {
    apply = λ t p. go (run t.messages t.screen).1 (run t.messages t.screen).0 t p;
  }
    where
      go :
          (r : Result String A) (s : Screen World Raw Ui) (t : Talk World Raw Ui)
          → Counted base bound ended t
          → Leaves (λ (a : A). Counted base bound ended) (Within bound) (record t { screen = s }, r)
      go (ok a) s t p = p
      go (err e) s t (p, h) = omega (arith, p, h)

  say-Counted :
      (ended : Ended) (event : Event Raw Ui)
      → Triple {S = Talk World Raw Ui}
          (Counted base bound ended)
          (λ (a : Unit {0}). Counted base bound ended)
          (Within bound)
          (say event)
  unfolding say
  say-Counted ended event = kept ended (λ _. emit event)

  respond-Counted :
      (effective : Option ℕ)
      → bound ≡ base + max_iterations agent.max_tool_iterations effective
      → Triple
          (At base)
          (Counted base bound)
          (Within bound)
          (respond agent schemas user system_prompt effective)
  unfolding respond warn
  respond-Counted effective e = bind-Triple _ (rebuild-At base (omega (arith, e))) (λ request.
      bind-Triple (Counted base bound)
        (from-Triple (λ t p. omega (arith, p))
          (loop-Counted (max_iterations agent.max_tool_iterations effective) 0 0 false request
            (omega (arith, e))))
        (λ ended.
          then-Triple (Counted base bound ended)
            (act_if-Triple _
              (λ _.
                then-Triple (Counted base bound ended)
                  (then-Triple (Counted base bound ended) (say-Counted ended _)
                    (say-Counted ended _))
                  (say-Counted ended _))
              (λ t p. p))
            (then-Triple (Counted base bound ended)
              (act_if-Triple _ (λ _. kept ended (λ ms. on_world (agent.update_conversation ms)))
                (λ t p. p))
              (then-Triple (Counted base bound ended)
                (kept ended (λ ms. on_world (after_messages agent.lifecycle_hooks ms)))
                (give-Triple (λ t p. p))))))

-- A message gets at most as many tool rounds as the configuration allows, or the effective settings
-- where they allow fewer: also a run that raises adds no more messages that ask for tools than that,
-- and a run that returns added as many as it counted.
pub respond_bounds :
    {World Raw Args Ui : Type 0} (agent : Agent World Raw Args Ui) (schemas : List String)
    (user : User) (system_prompt : Option String) (effective : Option ℕ) (t : Talk World Raw Ui)
    → Leaves
        (λ (ended : Ended) (u : Talk World Raw Ui).
          (rounds u.messages ≡ rounds t.messages + ended.tool_iterations)
          × (ended.tool_iterations ≤ max_iterations agent.max_tool_iterations effective))
        (λ (u : Talk World Raw Ui).
          rounds u.messages
          ≤ rounds t.messages + max_iterations agent.max_tool_iterations effective)
        (respond agent schemas user system_prompt effective t)
respond_bounds {World} {Raw} {Args} {Ui} agent schemas user system_prompt effective t =
    bounds (respond agent schemas user system_prompt effective t) (
      (respond-Counted agent schemas user system_prompt (rounds t.messages)
          (rounds t.messages + limit) effective refl).apply
        t refl)
  where
    limit : ℕ
    limit = max_iterations agent.max_tool_iterations effective

    bounds :
        (out : Talk World Raw Ui × Result String Ended)
        → Leaves
            (Counted (rounds t.messages) (rounds t.messages + limit))
            (Within (rounds t.messages + limit))
            out
        → Leaves
            (λ (ended : Ended) (u : Talk World Raw Ui).
              (rounds u.messages ≡ rounds t.messages + ended.tool_iterations)
              × (ended.tool_iterations ≤ limit))
            (Within (rounds t.messages + limit))
            out
    bounds (u, ok ended) (p, h) = (p, omega (arith, h))
    bounds (u, err e) h = h
