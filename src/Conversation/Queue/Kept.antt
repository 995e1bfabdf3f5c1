-- ===== src/Conversation/Queue/Kept.antt =====
-- The invariant of the registry, and the steps of a call that is in it.
use sqllens.Prelude.Dict.{lookup-without, lookup}
use sqllens.Prelude.Members.{In, head, tail, In-append, In-append_left, In-append_right}
use sqllens.Conversation.Queue.{
  Call, Queue, acquire, cancel, finish, set, release_queue_entry, is_entry,
}
use sqllens.Conversation.Queue.Counts.{count, one, count-middle, In-count}
use sqllens.Prelude.{
  ℕ, ◌+◌, ◌-◌, ◌≤◌, ◌<◌, String, ◌≡◌, refl, sym, ap, ◌∙◌, inl, inr, Bool, true, false, ◌&&◌, Option,
  none, some, List, ◌∷◌, ◌++◌, arith, str_eq, eq_iff, ◌==◌, ==_iff, Bool-cases, &&-eq-true,
}

abbrev pub on : ℕ → Call → Bool
on e c = c.entry == e

abbrev pub holds : ℕ → Call → Bool
holds e c = c.holding && c.entry == e

-- Every call's entry is the registry's for its id. An entry counts its calls, and its lock is taken
-- exactly while one of them holds it.
pub record IsKept (q : Queue) : Type 0 where
  pub homes : (c : Call) → In c q.calls → lookup c.id q.registry ≡ some c.entry
  pub counted : (e : ℕ) → q.users e ≡ count (on e) q.calls
  pub held : (e : ℕ) → count (holds e) q.calls ≡ one (q.locked e)
  pub fresh : (e : ℕ) → q.next ≤ e → (q.users e ≡ 0) × (q.locked e ≡ false)
  pub bound : (id : String) (e : ℕ) → lookup id q.registry ≡ some e → e < q.next

pub In-middle :
    {A : Type 0} {a : A} (x : A) (xs ys : List A) → In a (xs ++ ys) → In a (xs ++ x ∷ ys)
In-middle x xs ys m = elim (In-append xs m) [
  | inl l ↦ In-append_left (x ∷ ys) l
  | inr r ↦ In-append_right xs (tail r)
]

-- The counts without the call in the middle.
module _ (q : Queue) (before : List Call) (c : Call) (behind : List Call) (k : IsKept q)
    (e : q.calls ≡ before ++ c ∷ behind) where
  pub counted_middle : (i : ℕ) → q.users i ≡ one (on i c) + count (on i) (before ++ behind)
  counted_middle i = k.counted i ∙ ap (count (on i)) e ∙ count-middle (on i) before c behind

  held_middle : (i : ℕ) → one (holds i c) + count (holds i) (before ++ behind) ≡ one (q.locked i)
  held_middle i =
      sym (count-middle (holds i) before c behind) ∙ ap (count (holds i)) (sym e) ∙ k.held i

  home : (d : Call) → In d (before ++ behind) → lookup d.id q.registry ≡ some d.entry
  home d m = k.homes d (rw e (In-middle c before behind m))

  pub home_middle : lookup c.id q.registry ≡ some c.entry
  home_middle = k.homes c (rw e (In-append_right before head))

  too_new : (i : ℕ) → (c.entry == i) ≡ true → q.next ≤ i → ⊥
  too_new i s n =
      let b = k.bound c.id c.entry home_middle in let t = (==_iff c.entry i).0 s in omega arith

  -- An entry that loses its last call is no other call's.
  last_call :
      (d : Call) → In d (before ++ behind) → q.users c.entry - 1 ≡ 0 → str_eq c.id d.id ≡ false
  last_call d m z = elim (Bool-cases (str_eq c.id d.id)) [
    | inr s ↦ s
    | inl s ↦
        let other : lookup c.id q.registry ≡ some d.entry =
          rw ((eq_iff c.id d.id).0 s) (home d m) in
        let same : d.entry ≡ c.entry = cc (other, home_middle) in
        let one_on : on c.entry c ≡ true = (==_iff c.entry c.entry).1 refl in
        let some_on =
          In-count (on c.entry) (before ++ behind) d m ((==_iff d.entry c.entry).1 same) in
        let total = rw one_on at (counted_middle c.entry) in absurd (omega arith)
  ]

  -- Taking the call away, with its lock.
  release-IsKept :
      (locked : ℕ → Bool)
      → ((i : ℕ) → count (holds i) (before ++ behind) ≡ one (locked i))
      → ((i : ℕ) → q.next ≤ i → locked i ≡ false)
      → IsKept (
          release_queue_entry (record q { locked = locked; calls = before ++ behind }) c.id c.entry)
  unfolding release_queue_entry set
  release-IsKept locked h f = record {
    homes = λ d m.
        elim (Bool-cases (q.users c.entry - 1 == 0 && is_entry (lookup c.id q.registry) c.entry)) [
          | inl b ↦
              let z = (==_iff (q.users c.entry - 1) 0).0 (&&-eq-true _ _ b).0 in
              rw b (lookup-without c.id d.id q.registry ∙ rw (last_call d m z) (home d m))
          | inr b ↦ rw b (home d m)
        ];
    counted = λ i. elim (Bool-cases (c.entry == i)) [
      | inl s ↦
          let total = rw s at (counted_middle i) in rw s (rw ((==_iff c.entry i).0 s) (omega arith))
      | inr s ↦ let total = rw s at (counted_middle i) in rw s (omega arith)
    ];
    held = h;
    fresh = λ i n. elim (Bool-cases (c.entry == i)) [
      | inl s ↦ absurd (too_new i s n)
      | inr s ↦ rw s ((k.fresh i n).0, f i n)
    ];
    bound = λ id i l.
        elim (Bool-cases (q.users c.entry - 1 == 0 && is_entry (lookup c.id q.registry) c.entry)) [
          | inl b ↦
              let l' = sym (lookup-without c.id id q.registry) ∙ rw b at l in
              elim (Bool-cases (str_eq c.id id)) [
                | inl s ↦ absurd (none_ne (rw s at l'))
                | inr s ↦ k.bound id i (rw s at l')
              ]
          | inr b ↦ k.bound id i (rw b at l)
        ];
  }
    where
      none_ne : {i : ℕ} → ◌≡◌ {A = Option ℕ} none (some i) → ⊥
      none_ne h = cc

  pub cancel-IsKept : c.holding ≡ false → IsKept (cancel q before c behind)
  unfolding cancel
  cancel-IsKept w =
      release-IsKept q.locked (λ i. let total = rw w at (held_middle i) in omega arith)
        (λ i n. (k.fresh i n).1)

  pub finish-IsKept : c.holding ≡ true → IsKept (finish q before c behind)
  unfolding finish set
  finish-IsKept w =
      release-IsKept (set q.locked c.entry false)
        (λ i. elim (Bool-cases (c.entry == i)) [
          | inl s ↦ let total = rw (w, s) at (held_middle i) in rw s (most (q.locked i) total)
          | inr s ↦ let total = rw (w, s) at (held_middle i) in rw s (omega arith)
        ])
        (λ i n. elim (Bool-cases (c.entry == i)) [ inl s ↦ rw s | inr s ↦ rw s (k.fresh i n).1 ])
    where
      most : {n : ℕ} (b : Bool) → 1 + n ≡ one b → n ≡ 0
      most true h = omega arith
      most false h = absurd (omega arith)

  pub acquire-IsKept :
      c.holding ≡ false → q.locked c.entry ≡ false → IsKept (acquire q before c behind)
  unfolding acquire set
  acquire-IsKept w u = record {
    homes = λ d m. elim (In-append before m) [
      | inl l ↦ home d (In-append_left behind l)
      | inr r ↦ later d r
    ];
    counted = λ i.
        counted_middle i ∙ sym (count-middle (on i) before (record c { holding = true }) behind);
    held = λ i.
        let moved = count-middle (holds i) before (record c { holding = true }) behind in
        let total = rw w at (held_middle i) in
        elim (Bool-cases (c.entry == i)) [
          | inl s ↦
              let open_lock = rw ((==_iff c.entry i).0 s) at u in
              let m = rw s at moved in let t = rw open_lock at total in rw s (omega arith)
          | inr s ↦ let m = rw s at moved in rw s (omega arith)
        ];
    fresh = λ i n. elim (Bool-cases (c.entry == i)) [
      | inl s ↦ absurd (too_new i s n)
      | inr s ↦ rw s (k.fresh i n)
    ];
    bound = k.bound;
  }
    where
      later :
          (d : Call)
          → In d (record c { holding = true } ∷ behind)
          → lookup d.id q.registry ≡ some d.entry
      later d head = home_middle
      later d (tail m) = home d (In-append_right before m)
