-- ===== src/Profiles/Good.antt =====
-- Profiles that a file can hold, and read back from it.
use mathlib.Core.Path.{subst}
use sqllens.Prelude.{some-injective}
use sqllens.Prelude.{
  String, ◌≡◌, refl, ◌∙◌, inl, inr, Bool, true, Option, none, some, [], ◌∷◌, str_eq, eq_iff,
  Bool-cases,
}
use sqllens.Prelude.Dict.{Dict, lookup, insert, without, lookup-insert}
use sqllens.Profiles.Entries.{
  other_body, dict_body, Profile, Body, dict_body, Loaded, is_profile_name, is_bounded,
  model_validate, take_entry, read_entries, dump,
}

module _ {F : Type 0} (unit : F → Bool) where
  -- Every entry of the list may be read back.
  pub data AllGood : Dict (Profile F) → Type 0 where
    no_more : AllGood []
    and_more :
        {name : String} {p : Profile F} {rest : Dict (Profile F)}
        → is_profile_name name ≡ true
        → is_bounded unit p ≡ true
        → AllGood rest
        → AllGood ((name, p) ∷ rest)

  pub read_entries-dump :
      (d : Dict (Profile F))
      → AllGood d
      → ((name : String) → lookup name (read_entries unit (dump d)).good ≡ lookup name d)
        × ((read_entries unit (dump d)).invalid ≡ 0)
  unfolding read_entries dump model_validate take_entry lookup
  read_entries-dump [] g = (λ name. refl, refl)
  read_entries-dump ((key, p) ∷ rest) (and_more v b g) =
      let (same, valid) = read_entries-dump rest g in
      rw (v, b) (λ name. lookup-insert key name p _ ∙ rw (same name) refl, valid)

  pub insert-AllGood :
      (d : Dict (Profile F)) (name : String) (p : Profile F)
      → is_profile_name name ≡ true
      → is_bounded unit p ≡ true
      → AllGood d
      → AllGood (insert name p d)
  unfolding insert
  insert-AllGood [] name p v b g = and_more v b no_more
  insert-AllGood ((key, q) ∷ rest) name p v b (and_more v' b' g) =
      elim (Bool-cases (str_eq key name)) [
        | inl e ↦ rw e (and_more v b g)
        | inr e ↦ rw e (and_more v' b' (insert-AllGood rest name p v b g))
      ]

  pub without-AllGood :
      (d : Dict (Profile F)) (name : String) → AllGood d → AllGood (without name d)
  unfolding without
  without-AllGood [] name g = no_more
  without-AllGood ((key, q) ∷ rest) name (and_more v' b' g) = elim (Bool-cases (str_eq key name)) [
    | inl e ↦ rw e (without-AllGood rest name g)
    | inr e ↦ rw e (and_more v' b' (without-AllGood rest name g))
  ]

  pub lookup-AllGood :
      (d : Dict (Profile F)) (name : String) (p : Profile F)
      → AllGood d
      → lookup name d ≡ some p
      → (is_profile_name name ≡ true) × (is_bounded unit p ≡ true)
  unfolding lookup
  lookup-AllGood [] name p g e = cc
  lookup-AllGood ((key, q) ∷ rest) name p (and_more v b g) e = elim (Bool-cases (str_eq key name)) [
    | inl same ↦
        let found = rw same at e in
        (
          subst (λ n. is_profile_name n ≡ true) ((eq_iff key name).0 same) v,
          subst (λ r. is_bounded unit r ≡ true) (some-injective found) b,
        )
    | inr apart ↦ lookup-AllGood rest name p g (rw apart at e)
  ]

  model_validate-bounded :
      (body : Body F) (p : Profile F) → model_validate unit body ≡ some p → is_bounded unit p ≡ true
  unfolding model_validate
  model_validate-bounded other_body p e = cc
  model_validate-bounded (dict_body none) p e = cc
  model_validate-bounded (dict_body (some q)) p e = elim (Bool-cases (is_bounded unit q)) [
    | inl b ↦ subst (λ r. is_bounded unit r ≡ true) (some-injective (rw b at e)) b
    | inr b ↦ let no = rw b at e in cc
  ]

  take_entry-AllGood :
      (name : String) (o : Option (Profile F)) (l : Loaded F)
      → is_profile_name name ≡ true
      → ((p : Profile F) → o ≡ some p → is_bounded unit p ≡ true)
      → AllGood l.good
      → AllGood (take_entry name o l).good
  unfolding take_entry
  take_entry-AllGood name none l v b g = g
  take_entry-AllGood name (some p) l v b g = insert-AllGood l.good name p v (b p refl) g

  pub read_entries-AllGood : (d : Dict (Body F)) → AllGood (read_entries unit d).good
  unfolding read_entries
  read_entries-AllGood [] = no_more
  read_entries-AllGood ((name, body) ∷ rest) = elim (Bool-cases (is_profile_name name)) [
    | inl v ↦
        rw v
          (take_entry-AllGood name _ _ v (model_validate-bounded body) (read_entries-AllGood rest))
    | inr v ↦ rw v (read_entries-AllGood rest)
  ]
