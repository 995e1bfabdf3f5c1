-- ===== src/Conversation/Queue/Join.antt =====
-- A call that comes.
use sqllens.Prelude.Dict.{lookup-insert, lookup, insert}
use sqllens.Prelude.Members.{In, head, tail}
use sqllens.Conversation.Queue.{Call, Queue, join, set, get_entry}
use sqllens.Conversation.Queue.Counts.{count, count-cons}
use sqllens.Prelude.{
  ℕ, String, ◌≡◌, refl, sym, ◌∙◌, inl, inr, false, none, some, ◌∷◌, arith, str_eq, eq_iff, ◌==◌,
  ==_iff, Bool-cases, Option-cases, some-injective,
}
use sqllens.Conversation.Queue.Kept.{IsKept, on, holds}

module _ (q : Queue) (id : String) (k : IsKept q) where
  join_found-IsKept : (e : ℕ) → lookup id q.registry ≡ some e → IsKept (join q id)
  unfolding join get_entry set count
  join_found-IsKept e n = rw n (record {
    homes = there e n;
    counted = λ i.
        let more = count-cons (on i) (record { id = id; entry = e; holding = false }) q.calls in
        let old = k.counted i in
        elim (Bool-cases (e == i)) [
          | inl s ↦ let m = rw s at more in rw s (rw ((==_iff e i).0 s) (omega arith))
          | inr s ↦ let m = rw s at more in rw s (omega arith)
        ];
    held = λ i.
        let more = count-cons (holds i) (record { id = id; entry = e; holding = false }) q.calls in
        let old = k.held i in omega arith;
    fresh = λ i l. elim (Bool-cases (e == i)) [
      | inl s ↦ absurd (let b = k.bound id e n in let t = (==_iff e i).0 s in omega arith)
      | inr s ↦ rw s (k.fresh i l)
    ];
    bound = k.bound;
  })
    where
      there :
          (e : ℕ)
          → lookup id q.registry ≡ some e
          → (d : Call) → In d (record { id = id; entry = e; holding = false } ∷ q.calls)
          → lookup d.id q.registry ≡ some d.entry
      there e n d head = n
      there e n d (tail m) = k.homes d m

  join_minted-IsKept : lookup id q.registry ≡ none → IsKept (join q id)
  unfolding join get_entry set count
  join_minted-IsKept n = rw n (record {
    homes = minted n;
    counted = λ i.
        let more =
          count-cons (on i) (record { id = id; entry = q.next; holding = false }) q.calls in
        let old = k.counted i in
        elim (Bool-cases (q.next == i)) [
          | inl s ↦
              let m = rw s at more in
              let same = (==_iff q.next i).0 s in
              let none_yet = (k.fresh i (omega arith)).0 in
              let self = (==_iff q.next q.next).1 refl in rw s (rw self (omega arith))
          | inr s ↦ let m = rw s at more in rw s (omega arith)
        ];
    held = λ i.
        let more =
          count-cons (holds i) (record { id = id; entry = q.next; holding = false }) q.calls in
        let old = k.held i in
        elim (Bool-cases (q.next == i)) [
          | inl s ↦
              let same = (==_iff q.next i).0 s in
              let old' = rw ((k.fresh i (omega arith)).1) at old in rw s (omega arith)
          | inr s ↦ rw s (omega arith)
        ];
    fresh = λ i l. elim (Bool-cases (q.next == i)) [
      | inl s ↦ absurd (let t = (==_iff q.next i).0 s in omega arith)
      | inr s ↦ rw s (k.fresh i (omega arith))
    ];
    bound = λ j i l.
        let l' = sym (lookup-insert id j q.next q.registry) ∙ l in
        elim (Bool-cases (str_eq id j)) [
          | inl s ↦ let t = rw s at l' in let same = some-injective t in omega arith
          | inr s ↦ let t = k.bound j i (rw s at l') in omega arith
        ];
  })
    where
      minted :
          lookup id q.registry ≡ none
          → (d : Call) → In d (record { id = id; entry = q.next; holding = false } ∷ q.calls)
          → lookup d.id (insert id q.next q.registry) ≡ some d.entry
      minted n d head = lookup-insert id id q.next q.registry ∙ rw ((eq_iff id id).1 refl) refl
      minted n d (tail m) = elim (Bool-cases (str_eq id d.id)) [
        | inl s ↦
            let h : lookup id q.registry ≡ some d.entry = rw ((eq_iff id d.id).0 s) (k.homes d m) in
            cc
        | inr s ↦ lookup-insert id d.id q.next q.registry ∙ rw s (k.homes d m)
      ]

  pub join-IsKept : IsKept (join q id)
  join-IsKept = elim (Option-cases (lookup id q.registry)) [
    | inl n ↦ join_minted-IsKept n
    | inr (e, n) ↦ join_found-IsKept e n
  ]
