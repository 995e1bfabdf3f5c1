-- ===== src/Tests/Calls.antt =====
-- Two calls on one conversation, of which one holds the turn.
use sqllens.Conversation.Queue.{
  Call, Queue, empty_queue, join, acquire, Reachable, start, then_step, joined, acquired, get_entry,
  set,
}
use sqllens.Conversation.Queue.Counts.{count}
use sqllens.Prelude.Members.{In}
use sqllens.Conversation.Queue.Live.{registry_iff}
use sqllens.Conversation.Queue.Exclusive.{one_turn_at_a_time}
use sqllens.Prelude.{◌≤◌, ◌≡◌, refl, false, ◌&&◌, none, [], ◌∷◌, str_eq, ℕ, ◌↔◌, some}
use sqllens.Prelude.Dict.{lookup, insert}

abbrev waiting : Call
waiting = record { id = "c"; entry = 0; holding = false }

abbrev two_calls : Queue
two_calls = acquire (join (join empty_queue "c") "c") (waiting ∷ []) waiting []

two_calls-Reachable : Reachable two_calls
unfolding join get_entry set lookup insert
two_calls-Reachable =
    then_step (then_step (then_step start (joined "c")) (joined "c"))
      (acquired (waiting ∷ []) waiting [] refl refl refl)

one_turn_at_a_time_example :
    (count (λ c. c.holding && str_eq c.id "c") two_calls.calls ≤ 1)
    × (lookup "c" two_calls.registry ≡ none → count (λ c. str_eq c.id "c") two_calls.calls ≡ 0)
one_turn_at_a_time_example = one_turn_at_a_time two_calls "c" two_calls-Reachable

registry_iff_example :
    ((e : ℕ) × (lookup "c" two_calls.registry ≡ some e))
    ↔ ((c : Call) × In c two_calls.calls × (c.id ≡ "c"))
registry_iff_example = registry_iff two_calls "c" two_calls-Reachable
