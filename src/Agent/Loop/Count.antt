-- ===== src/Agent/Loop/Count.antt =====
-- The tool rounds of a conversation, counted in its messages.
use sqllens.Prelude.Act.{Act}
use sqllens.Prelude.Triple.{Triple, Leaves}
use sqllens.Prelude.Result.{Result, ok, err}
use sqllens.Agent.Requests.{LlmResponse, Message, holds_some, is_tool_call}
use sqllens.Agent.Calls.{CallDone, Event, Screen, emit}
use sqllens.Agent.Loop.{
  Talk, on_screen, say, add_messages, assistant_message, final_message, tool_messages,
}
use sqllens.Prelude.{
  ℕ, ◌+◌, ◌≤◌, String, ◌≡◌, refl, true, List, [], ◌∷◌, ◌++◌, arith, if◌then◌else◌,
}

module _ {Raw : Type 0} where
  -- The messages that ask for tools.
  unfoldable pub rounds : List (Message Raw) → ℕ
  rounds [] = 0
  rounds (m ∷ ms) = let rest = rounds ms in if holds_some m.tool_calls then rest + 1 else rest

  pub rounds-append : (ms ns : List (Message Raw)) → rounds (ms ++ ns) ≡ rounds ms + rounds ns
  unfolding rounds
  rounds-append [] ns = omega arith
  rounds-append (m ∷ ms) ns = ground (arith, rounds-append ms ns)

  pub rounds-assistant :
      (response : LlmResponse Raw)
      → is_tool_call response ≡ true
      → rounds (assistant_message response ∷ []) ≡ 1
  unfolding rounds assistant_message is_tool_call
  rounds-assistant response h = ground (arith, h)

  pub rounds-final : (response : LlmResponse Raw) → rounds (final_message response ∷ []) ≡ 0
  unfolding rounds final_message holds_some
  rounds-final response = refl

pub rounds-tool : (Raw : Type 0) (ds : List CallDone) → rounds (tool_messages {Raw = Raw} ds) ≡ 0
unfolding rounds tool_messages holds_some
rounds-tool Raw [] = refl
rounds-tool Raw (d ∷ ds) = rounds-tool Raw ds

module _ {World Raw Ui : Type 0} where
  abbrev pub At : ℕ → Talk World Raw Ui → Type 0
  At k t = rounds t.messages ≡ k

  abbrev pub Within : ℕ → Talk World Raw Ui → Type 0
  Within bound t = rounds t.messages ≤ bound

  pub screen-At :
      {A : Type 0} (k bound : ℕ)
      → k ≤ bound
      → (run : Act (Screen World Raw Ui) String A)
      → Triple (At k) (λ (a : A). At k) (Within bound) (on_screen run)
  unfolding on_screen
  screen-At {A} k bound h run = record { apply = λ t p. go (run t.screen).1 (run t.screen).0 t p }
    where
      go :
          (r : Result String A) (s : Screen World Raw Ui) (t : Talk World Raw Ui)
          → At k t
          → Leaves (λ (a : A). At k) (Within bound) (record t { screen = s }, r)
      go (ok a) s t p = p
      go (err e) s t p = omega (arith, p)

  pub say-At :
      (k bound : ℕ)
      → k ≤ bound
      → (event : Event Raw Ui)
      → Triple {S = Talk World Raw Ui} (At k) (λ (a : Unit {0}). At k) (Within bound) (say event)
  unfolding say
  say-At k bound h event = screen-At k bound h (emit event)

  pub add-At :
      (k n bound : ℕ) (more : List (Message Raw))
      → rounds more ≡ n
      → Triple {S = Talk World Raw Ui}
          (At k)
          (λ (a : Unit {0}). At (k + n))
          (Within bound)
          (add_messages more)
  unfolding add_messages
  add-At k n bound more e = record {
    apply = λ t p. omega (arith, rounds-append t.messages more, p, e);
  }
