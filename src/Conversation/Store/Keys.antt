-- ===== src/Conversation/Store/Keys.antt =====
-- The dictionary of src/sqllens/conversation_store.py: each conversation under its own id.
use sqllens.Prelude.{
  ℕ, ◌≤◌, String, ◌≡◌, refl, inl, inr, some, [], ◌∷◌, ◌++◌, arith, str_eq, eq_iff, length,
  length-append, ltb, Bool-cases,
}
use sqllens.Prelude.Dict.{Dict, lookup, insert, without, lookup-insert}
use sqllens.Conversation.Store.{Conversation, evict, put_last}
use sqllens.Conversation.Store.Shape.{
  Distinct, lookup-without_self, Distinct-without, length-without, Distinct-concat,
}

module _ {M : Type 0} where
  -- Every conversation stands under its own id.
  abbrev pub OwnKeys : Dict (Conversation M) → Type 0
  OwnKeys [] = Unit
  OwnKeys ((k, c) ∷ d) = (c.id ≡ k) × OwnKeys d

  OwnKeys-concat :
      (k : String) (c : Conversation M) (d : Dict (Conversation M))
      → OwnKeys d
      → c.id ≡ k
      → OwnKeys (d ++ (k, c) ∷ [])
  OwnKeys-concat k c [] h e = (e, tt)
  OwnKeys-concat k c ((j, x) ∷ d) h e = (h.0, OwnKeys-concat k c d h.1 e)

  pub OwnKeys-without : (k : String) (d : Dict (Conversation M)) → OwnKeys d → OwnKeys (without k d)
  unfolding without
  OwnKeys-without k [] h = tt
  OwnKeys-without k ((j, x) ∷ d) h = elim (Bool-cases (str_eq j k)) [
    | inl e ↦ rw e (OwnKeys-without k d h.1)
    | inr e ↦ rw e (h.0, OwnKeys-without k d h.1)
  ]

  pub OwnKeys-lookup :
      (k : String) (d : Dict (Conversation M)) {c : Conversation M}
      → OwnKeys d
      → lookup k d ≡ some c
      → c.id ≡ k
  unfolding lookup
  OwnKeys-lookup k [] h e = cc
  OwnKeys-lookup k ((j, x) ∷ d) h e = elim (Bool-cases (str_eq j k)) [
    | inl s ↦ ground (arith, h.0, eq_iff j k)
    | inr s ↦ OwnKeys-lookup k d h.1 (rw s at e)
  ]

  -- the parts of the invariant that do not speak of the bound
  abbrev pub IsOrdered : Dict (Conversation M) → Type 0
  IsOrdered d = Distinct d × OwnKeys d

  pub put_last-IsOrdered :
      (k : String) (c : Conversation M) (d : Dict (Conversation M))
      → IsOrdered d
      → c.id ≡ k
      → IsOrdered (put_last k c d)
  unfolding put_last
  put_last-IsOrdered k c d h e = (
    Distinct-concat k c (without k d) (Distinct-without k d h.0) (lookup-without_self k d),
    OwnKeys-concat k c (without k d) (OwnKeys-without k d h.1) e,
  )

  pub evict-IsOrdered : (n : ℕ) (d : Dict (Conversation M)) → IsOrdered d → IsOrdered (evict n d)
  unfolding evict
  evict-IsOrdered n [] h = h
  evict-IsOrdered n ((k, c) ∷ d) h = elim (Bool-cases (ltb n (length ((k, c) ∷ d)))) [
    | inl e ↦ rw e (evict-IsOrdered n d (h.0.1, h.1.1))
    | inr e ↦ rw e h
  ]

  pub length-evict : (n : ℕ) (d : Dict (Conversation M)) → length (evict n d) ≤ n
  unfolding evict
  length-evict n [] = omega arith
  length-evict n (kc ∷ d) = ground (arith, length-evict n d)

  pub length-put_last_known :
      (k : String) (c x : Conversation M) (d : Dict (Conversation M))
      → Distinct d
      → lookup k d ≡ some x
      → length (put_last k c d) ≡ length d
  unfolding put_last
  length-put_last_known k c x d h e =
      omega (arith, (length-without k d h).1 x e, length-append (without k d) ((k, c) ∷ []))

  pub without-le : (k : String) (d : Dict (Conversation M)) → length (without k d) ≤ length d
  unfolding without
  without-le k [] = omega arith
  without-le k ((j, x) ∷ d) = ground (arith, without-le k d)

  pub insert_known :
      (k : String) (c x : Conversation M) (d : Dict (Conversation M))
      → IsOrdered d
      → lookup k d ≡ some x
      → c.id ≡ k
      → (length (insert k c d) ≡ length d) × IsOrdered (insert k c d)
  unfolding insert lookup
  insert_known k c x [] h e i = cc
  insert_known k c x ((j, y) ∷ d) h e i = elim (Bool-cases (str_eq j k)) [
    | inl s ↦
        let same : j ≡ k = (eq_iff j k).0 s in rw s (refl, ((rw (← same) h.0.0, h.0.1), (i, h.1.1)))
    | inr s ↦
        let kept = insert_known k c x d (h.0.1, h.1.1) (rw s at e) i in
        rw s (
          omega (arith, kept.0),
          (
            (rw lookup-insert (ground (arith, h.0.0, eq_iff k j, eq_iff j k)), kept.1.0),
            (h.1.0, kept.1.1),
          ),
        )
  ]
