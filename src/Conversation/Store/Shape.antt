-- ===== src/Conversation/Store/Shape.antt =====
-- The order of the store: distinct keys, a new key at the end, the oldest dropped.
use sqllens.Prelude.{
  ◌+◌, String, ◌≡◌, refl, ap, ◌∙◌, inl, inr, none, some, [], ◌∷◌, ◌++◌, arith, str_eq, eq_iff,
  length, Bool-cases,
}
use sqllens.Prelude.Dict.{Dict, lookup, without, lookup-without}

module _ {V : Type 0} where
  -- No key occurs twice.
  abbrev pub Distinct : Dict V → Type 0
  Distinct [] = Unit
  Distinct ((k, v) ∷ d) = (lookup k d ≡ none) × Distinct d

  pub lookup-append_none :
      (j : String) (a b : Dict V) → lookup j a ≡ none → lookup j (a ++ b) ≡ lookup j b
  unfolding lookup
  lookup-append_none j [] b h = refl
  lookup-append_none j ((k, v) ∷ a) b h = elim (Bool-cases (str_eq k j)) [
    | inl e ↦ cc
    | inr e ↦ rw e (lookup-append_none j a b (rw e at h))
  ]

  pub lookup-append_some :
      (j : String) (a b : Dict V) {v : V} → lookup j a ≡ some v → lookup j (a ++ b) ≡ some v
  unfolding lookup
  lookup-append_some j [] b h = cc
  lookup-append_some j ((k, w) ∷ a) b h = elim (Bool-cases (str_eq k j)) [
    | inl e ↦ rw e (rw e at h)
    | inr e ↦ rw e (lookup-append_some j a b (rw e at h))
  ]

  pub lookup-without_self : (k : String) (d : Dict V) → lookup k (without k d) ≡ none
  lookup-without_self k d = rw (lookup-without k k d) (ground (arith, eq_iff k k))

  pub Distinct-concat :
      (k : String) (v : V) (d : Dict V)
      → Distinct d
      → lookup k d ≡ none
      → Distinct (d ++ (k, v) ∷ [])
  unfolding lookup
  Distinct-concat k v [] h e = (refl, tt)
  Distinct-concat k v ((j, w) ∷ d) h e = elim (Bool-cases (str_eq j k)) [
    | inl s ↦ cc
    | inr s ↦ (
      lookup-append_none j d _ h.0 ∙ ground (arith, eq_iff j k, eq_iff k j),
      Distinct-concat k v d h.1 (rw s at e),
    )
  ]

  pub Distinct-without : (k : String) (d : Dict V) → Distinct d → Distinct (without k d)
  unfolding without
  Distinct-without k [] h = tt
  Distinct-without k ((j, w) ∷ d) h = elim (Bool-cases (str_eq j k)) [
    | inl e ↦ rw e (Distinct-without k d h.1)
    | inr e ↦ rw e (rw (lookup-without k j d) (ground (arith, h.0)), Distinct-without k d h.1)
  ]

  -- A key that is there loses its place, one that is not costs nothing.
  pub length-without :
      (k : String) (d : Dict V)
      → Distinct d
      → (lookup k d ≡ none → without k d ≡ d)
        × ((v : V) → lookup k d ≡ some v → length (without k d) + 1 ≡ length d)
  unfolding without lookup
  length-without k [] h = ((λ e. refl), (λ v e. cc))
  length-without k ((j, w) ∷ d) h = elim (Bool-cases (str_eq j k)) [
    | inl e ↦
        let same : j ≡ k = (eq_iff j k).0 e in
        let gone : without k d ≡ d = (length-without k d h.1).0 (rw (← same) h.0) in
        ((λ n. cc), (λ v s. rw e (rw gone (omega arith))))
    | inr e ↦
        let later = length-without k d h.1 in
        (
          (λ n. rw e (ap (◌∷◌ (j, w)) (later.0 (rw e at n)))),
          (λ v s. rw e (omega (arith, later.1 v (rw e at s)))),
        )
  ]
