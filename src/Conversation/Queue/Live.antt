-- ===== src/Conversation/Queue/Live.antt =====
-- The registry keeps no entry without a call.
use sqllens.Prelude.Dict.{lookup-without, lookup-insert, lookup, insert, Dict}
use sqllens.Prelude.Members.{In, head, tail, In-append, In-append_left, In-append_right}
use sqllens.Conversation.Queue.{
  Call, Queue, join, acquire, cancel, finish, Step, Reachable, set, release_queue_entry, is_entry,
  get_entry, joined, then_step, acquired, start, cancelled, finished,
}
use sqllens.Conversation.Queue.Counts.{count-In}
use sqllens.Conversation.Queue.Kept.{IsKept, on, In-middle, counted_middle, home_middle}
use sqllens.Conversation.Queue.Exclusive.{Reachable-IsKept}
use sqllens.Prelude.{
  ℕ, ◌-◌, String, ◌≡◌, refl, sym, ap, ◌∙◌, ◌⊎◌, inl, inr, Bool, true, false, ◌&&◌, Option, none,
  some, List, ◌∷◌, ◌++◌, arith, str_eq, eq_iff, ◌==◌, if◌then◌else◌, ==_iff, Bool-cases, ◌↔◌,
  Option-cases,
}

-- Every entry of the registry has a call, and calls that share an entry share their conversation.
record IsLive (q : Queue) : Type 0 where
  used :
      (id : String) (e : ℕ)
      → lookup id q.registry ≡ some e
      → (c : Call) × In c q.calls × (c.id ≡ id) × (c.entry ≡ e)
  shared : (c d : Call) → In c q.calls → In d q.calls → c.entry ≡ d.entry → c.id ≡ d.id

none_ne : {i : ℕ} → ◌≡◌ {A = Option ℕ} none (some i) → ⊥
none_ne h = cc

module _ (q : Queue) (before : List Call) (c : Call) (behind : List Call) (k : IsKept q)
    (v : IsLive q) (e : q.calls ≡ before ++ c ∷ behind) where
  old : {d : Call} → In d (before ++ behind) → In d q.calls
  old m = rw e (In-middle c before behind m)

  old_c : In c q.calls
  old_c = rw e (In-append_right before head)

  -- a call found in the middle is the one taken away
  split_middle : {d : Call} → In d q.calls → (d ≡ c) ⊎ In d (before ++ behind)
  split_middle m = elim (In-append before (rw e at m)) [
    | inl l ↦ inr (In-append_left behind l)
    | inr r ↦ of_tail r
  ]
    where
      of_tail : {d : Call} → In d (c ∷ behind) → (d ≡ c) ⊎ In d (before ++ behind)
      of_tail head = inl refl
      of_tail (tail r) = inr (In-append_right before r)

  -- While the registry keeps the entry of the call taken away, another call uses it.
  another :
      (q.users c.entry - 1 == 0 && is_entry (lookup c.id q.registry) c.entry) ≡ false
      → (d : Call) × In d (before ++ behind) × (d.id ≡ c.id) × (d.entry ≡ c.entry)
  unfolding is_entry
  another b =
      let self : (c.entry == c.entry) ≡ true = (==_iff c.entry c.entry).1 refl in
      let b' = rw (home_middle q before c behind k e, self) at b in
      let total = rw self at (counted_middle q before c behind k e c.entry) in
      let (d, m, h) = count-In (on c.entry) (before ++ behind) (ground arith) in
      let same = (==_iff d.entry c.entry).0 h in (d, m, v.shared d c (old m) old_c same, same)

  release-IsLive :
      (locked : ℕ → Bool)
      → IsLive (
          release_queue_entry (record q { locked = locked; calls = before ++ behind }) c.id c.entry)
  unfolding release_queue_entry set
  release-IsLive locked = record {
    used = λ id i l.
        elim (Bool-cases (q.users c.entry - 1 == 0 && is_entry (lookup c.id q.registry) c.entry)) [
          | inl b ↦ still id i (sym (lookup-without c.id id q.registry) ∙ rw b at l)
          | inr b ↦
              let (d, m, x, y) = v.used id i (rw b at l) in
              elim (split_middle m) [
                | inr r ↦ (d, r, x, y)
                | inl s ↦
                    let (f, n, z, w) = another b in
                    (f, n, z ∙ ap (λ a. a.id) (sym s) ∙ x, w ∙ ap (λ a. a.entry) (sym s) ∙ y)
              ]
        ];
    shared = λ a b m n s. v.shared a b (old m) (old n) s;
  }
    where
      still :
          (id : String) (i : ℕ)
          → (if str_eq c.id id then none else lookup id q.registry) ≡ some i
          → (d : Call) × In d (before ++ behind) × (d.id ≡ id) × (d.entry ≡ i)
      still id i l = elim (Bool-cases (str_eq c.id id)) [
        | inl s ↦ absurd (none_ne (rw s at l))
        | inr s ↦
            let (d, m, x, y) = v.used id i (rw s at l) in
            elim (split_middle m) [
              | inr r ↦ (d, r, x, y)
              | inl t ↦ absurd (ground (arith, eq_iff c.id id, ap (λ a. a.id) t))
            ]
      ]

  -- Granting the lock changes no call's conversation or entry.
  abbrev granted : Call
  granted = record c { holding = true }

  origin :
      {d : Call}
      → In d (before ++ granted ∷ behind)
      → (f : Call) × In f q.calls × (f.id ≡ d.id) × (f.entry ≡ d.entry)
  origin {d} m = elim (In-append before m) [
    | inl l ↦ (d, old (In-append_left behind l), refl, refl)
    | inr r ↦ of_tail r
  ]
    where
      of_tail :
          {d : Call}
          → In d (granted ∷ behind)
          → (f : Call) × In f q.calls × (f.id ≡ d.id) × (f.entry ≡ d.entry)
      of_tail head = (c, old_c, refl, refl)
      of_tail {d} (tail r) = (d, old (In-append_right before r), refl, refl)

  acquire-IsLive : IsLive (acquire q before c behind)
  unfolding acquire
  acquire-IsLive = record {
    used = λ id i l.
        let (d, m, x, y) = v.used id i l in
        elim (split_middle m) [
          | inr r ↦ (d, In-middle granted before behind r, x, y)
          | inl s ↦ (
            granted,
            In-append_right before head,
            ap (λ a. a.id) (sym s) ∙ x,
            ap (λ a. a.entry) (sym s) ∙ y,
          )
        ];
    shared = λ a b m n s.
        let (f, fm, fi, fe) = origin m in
        let (g, gm, gi, ge) = origin n in sym fi ∙ v.shared f g fm gm (fe ∙ s ∙ sym ge) ∙ gi;
  }

module _ (q : Queue) (id : String) (k : IsKept q) (v : IsLive q) where
  -- the call that comes, on the entry `e`, which no call of another conversation uses
  with_call :
      (e : ℕ) {r : Dict ℕ}
      → ((j : String) (i : ℕ)
          → lookup j r ≡ some i
          → ((id ≡ j) × (e ≡ i)) ⊎ (lookup j q.registry ≡ some i))
      → ((d : Call) → In d q.calls → d.entry ≡ e → d.id ≡ id)
      → (users : ℕ → ℕ) (locked : ℕ → Bool) (next : ℕ)
      → IsLive (record {
        registry = r;
        users = users;
        locked = locked;
        next = next;
        calls = record { id = id; entry = e; holding = false } ∷ q.calls;
      })
  with_call e kept own users locked next = record {
    used = λ j i l. elim (kept j i l) [
      | inl (x, y) ↦ (record { id = id; entry = e; holding = false }, head, x, y)
      | inr h ↦ let (d, m, x, y) = v.used j i h in (d, tail m, x, y)
    ];
    shared = pairs;
  }
    where
      pairs :
          (a b : Call)
          → In a (record { id = id; entry = e; holding = false } ∷ q.calls)
          → In b (record { id = id; entry = e; holding = false } ∷ q.calls)
          → a.entry ≡ b.entry
          → a.id ≡ b.id
      pairs a b head head s = refl
      pairs a b head (tail n) s = sym (own b n (sym s))
      pairs a b (tail m) head s = own a m s
      pairs a b (tail m) (tail n) s = v.shared a b m n s

  join-IsLive : IsLive (join q id)
  unfolding join get_entry
  join-IsLive = elim (Option-cases (lookup id q.registry)) [
    | inr (e, n) ↦
        let (c, m, x, y) = v.used id e n in
        rw n (with_call e (λ j i l. inr l) (λ d o s. v.shared d c o m (s ∙ sym y) ∙ x) _ _ _)
    | inl n ↦ rw n (
        with_call q.next minted
          (λ d o s. absurd (let b = k.bound d.id d.entry (k.homes d o) in omega arith)) _ _ _)
  ]
    where
      minted :
          (j : String) (i : ℕ)
          → lookup j (insert id q.next q.registry) ≡ some i
          → ((id ≡ j) × (q.next ≡ i)) ⊎ (lookup j q.registry ≡ some i)
      minted j i l =
          let l' = sym (lookup-insert id j q.next q.registry) ∙ l in
          elim (Bool-cases (str_eq id j)) [
            | inl s ↦ let t = rw s at l' in inl ((eq_iff id j).0 s, cc)
            | inr s ↦ inr (rw s at l')
          ]

Step-IsLive : {q q' : Queue} → Step q q' → IsKept q → IsLive q → IsLive q'
unfolding cancel finish
Step-IsLive {q} (joined id) k v = join-IsLive q id k v
Step-IsLive {q} (acquired before c behind e w u) k v = acquire-IsLive q before c behind k v e
Step-IsLive {q} (cancelled before c behind e w) k v =
    release-IsLive q before c behind k v e q.locked
Step-IsLive {q} (finished before c behind e w) k v =
    release-IsLive q before c behind k v e (set q.locked c.entry false)

Reachable-IsLive : {q : Queue} → Reachable q → IsLive q
unfolding lookup
Reachable-IsLive start = record { used = λ id e h. cc; shared = λ c d m n s. elim m [ ] }
Reachable-IsLive (then_step r s) = Step-IsLive s (Reachable-IsKept r) (Reachable-IsLive r)

-- In every reachable registry a conversation has an entry exactly while a call waits for its turn or
-- holds it, so no entry is left behind and none is removed under a call.
pub registry_iff :
    (q : Queue) (id : String)
    → Reachable q
    → ((e : ℕ) × (lookup id q.registry ≡ some e)) ↔ ((c : Call) × In c q.calls × (c.id ≡ id))
registry_iff q id r = (
  (λ h. let (c, m, x, y) = (Reachable-IsLive r).used id h.0 h.1 in (c, m, x)),
  (λ h. (h.0.entry, rw h.2 at ((Reachable-IsKept r).homes h.0 h.1))),
)
