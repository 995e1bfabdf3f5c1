-- ===== src/Conversation/Queue.antt =====
-- `_ConversationQueueEntry`, `_release_queue_entry` and `_conversation_turn` of
-- src/sqllens/tools/query_database.py. An entry is its number in a heap; the event loop switches
-- tasks only where a call waits for its lock, so a run is a sequence of the steps between.
pub mod Counts
pub mod Kept
pub mod Join
pub mod Exclusive
pub mod Live
use sqllens.Prelude.{
  ℕ, ◌+◌, ◌-◌, String, ◌≡◌, Bool, true, false, ◌&&◌, Option, none, some, List, [], ◌∷◌, ◌++◌, ◌==◌,
  if◌then◌else◌,
}
use sqllens.Prelude.Dict.{Dict, lookup, insert, without}

-- A call inside `_conversation_turn`, waiting for its turn or holding the lock.
pub record Call : Type 0 where
  pub id : String
  pub entry : ℕ
  pub holding : Bool

-- The registry, the fields of each entry in the heap, the next fresh entry, and the calls.
pub record Queue : Type 0 where
  pub registry : Dict ℕ
  pub users : ℕ → ℕ
  pub locked : ℕ → Bool
  pub next : ℕ
  pub calls : List Call

abbrev pub empty_queue : Queue
empty_queue = record { registry = []; users = λ e. 0; locked = λ e. false; next = 0; calls = [] }

unfoldable pub set {ℓ} : {A : Type ℓ} → (ℕ → A) → ℕ → A → ℕ → A
set f e a x = if e == x then a else f x

unfoldable pub get_entry : Queue → String → Option ℕ → Queue × ℕ
get_entry q id (some e) = (q, e)
get_entry q id none = (
  record q {
    registry = insert id q.next q.registry;
    users = set q.users q.next 0;
    locked = set q.locked q.next false;
    next = q.next + 1;
  },
  q.next,
)

-- up to the wait for the lock
unfoldable pub join : Queue → String → Queue
unfolding get_entry set
join q id =
    let (q', e) = get_entry q id (lookup id q.registry) in
    record q' {
      users = set q'.users e (q'.users e + 1);
      calls = record { id = id; entry = e; holding = false } ∷ q'.calls;
    }

-- registry.get(id) is entry
unfoldable pub is_entry : Option ℕ → ℕ → Bool
is_entry none e = false
is_entry (some f) e = f == e

-- `_release_queue_entry`, on a count of at least 1
unfoldable pub release_queue_entry : Queue → String → ℕ → Queue
unfolding set is_entry
release_queue_entry q id e =
    let left = q.users e - 1 in
    record q {
      users = set q.users e left;
      registry =
          if left == 0 && is_entry (lookup id q.registry) e
          then without id q.registry
          else q.registry;
    }

-- the lock is granted to the call between `before` and `behind`
unfoldable pub acquire : Queue → List Call → Call → List Call → Queue
unfolding set
acquire q before c behind = record q {
  locked = set q.locked c.entry true;
  calls = before ++ record c { holding = true } ∷ behind;
}

-- a call still waiting is cancelled
unfoldable pub cancel : Queue → List Call → Call → List Call → Queue
unfolding release_queue_entry
cancel q before c behind = release_queue_entry (record q { calls = before ++ behind }) c.id c.entry

-- the turn ends: the `finally` block
unfoldable pub finish : Queue → List Call → Call → List Call → Queue
unfolding release_queue_entry set
finish q before c behind =
    release_queue_entry (record q { locked = set q.locked c.entry false; calls = before ++ behind })
      c.id c.entry

-- A lock is granted only while it is free, to any of the calls that wait for it.
pub data Step (q : Queue) : Queue → Type 0 where
  joined : (id : String) → Step q (join q id)
  acquired :
      (before : List Call) (c : Call) (behind : List Call)
      → q.calls ≡ before ++ c ∷ behind
      → c.holding ≡ false
      → q.locked c.entry ≡ false
      → Step q (acquire q before c behind)
  cancelled :
      (before : List Call) (c : Call) (behind : List Call)
      → q.calls ≡ before ++ c ∷ behind
      → c.holding ≡ false
      → Step q (cancel q before c behind)
  finished :
      (before : List Call) (c : Call) (behind : List Call)
      → q.calls ≡ before ++ c ∷ behind
      → c.holding ≡ true
      → Step q (finish q before c behind)

-- What calls can make of the empty registry.
pub data Reachable : Queue → Type 0 where
  start : Reachable empty_queue
  then_step : {q q' : Queue} → Reachable q → Step q q' → Reachable q'
