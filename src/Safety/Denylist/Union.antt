-- ===== src/Safety/Denylist/Union.antt =====
-- How the denylists of the dialects and the union relate.
use sqllens.Safety.Denylist.{
  contains, denied_by_dialect, denied_union, denied_funcs, or_union, always_denied_funcs,
  side_effect_funcs,
}
use sqllens.Prelude.{
  String, ◌≡◌, refl, sym, ap, ◌∙◌, inl, inr, true, ◌||◌, Option, none, some, List, [], ◌∷◌, ◌++◌,
  arith, str_eq, Bool-cases, Option-cases, some-injective,
}
use sqllens.Prelude.Dict.{Dict, lookup}

contains-append :
    (xs ys : List String) (n : String) → contains (xs ++ ys) n ≡ (contains xs n || contains ys n)
unfolding contains
contains-append [] ys n = refl
contains-append (x ∷ xs) ys n = ground (arith, contains-append xs ys n)

always_denied-union :
    (t : Dict (List String)) (n : String)
    → contains always_denied_funcs n ≡ true
    → contains (denied_union t) n ≡ true
unfolding denied_union
always_denied-union [] n h = h
always_denied-union ((d, names) ∷ t) n h =
    ground (arith, contains-append names (denied_union t) n, always_denied-union t n h)

denied_by_dialect-union :
    (t : Dict (List String)) (dialect n : String) {l : List String}
    → lookup dialect (denied_by_dialect t) ≡ some l
    → contains l n ≡ true
    → contains (denied_union t) n ≡ true
unfolding denied_by_dialect denied_union lookup
denied_by_dialect-union [] dialect n h c = cc
denied_by_dialect-union ((d, names) ∷ t) dialect n {l} h c = elim (Bool-cases (str_eq d dialect)) [
  | inl s ↦
      let same : contains (names ++ always_denied_funcs) n ≡ true =
        ap (λ x. contains x n) (some-injective (rw s at h)) ∙ c in
      ground (
        arith,
        contains-append names (denied_union t) n,
        contains-append names always_denied_funcs n,
        always_denied-union t n,
      )
  | inr s ↦ ground (
    arith,
    contains-append names (denied_union t) n,
    denied_by_dialect-union t dialect n (rw s at h) c,
  )
]

denied_by_dialect-always :
    (t : Dict (List String)) (dialect n : String) {l : List String}
    → lookup dialect (denied_by_dialect t) ≡ some l
    → contains always_denied_funcs n ≡ true
    → contains l n ≡ true
unfolding denied_by_dialect lookup
denied_by_dialect-always [] dialect n h c = cc
denied_by_dialect-always ((d, names) ∷ t) dialect n {l} h c = elim (Bool-cases (str_eq d dialect)) [
  | inl s ↦
      let same : names ++ always_denied_funcs ≡ l = some-injective (rw s at h) in
      ap (λ x. contains x n) (sym same)
      ∙ ground (arith, contains-append names always_denied_funcs n)
  | inr s ↦ denied_by_dialect-always t dialect n (rw s at h) c
]

-- A function that any dialect's denylist names is denied where the dialect is none or unknown, and
-- the functions denied for every dialect are on every list.
pub denied_funcs-union :
    (dialect : Option String) (n : String)
    → (contains (denied_funcs dialect) n ≡ true → contains (denied_funcs none) n ≡ true)
      × (contains always_denied_funcs n ≡ true → contains (denied_funcs dialect) n ≡ true)
unfolding denied_funcs or_union
denied_funcs-union none n = ((λ h. h), always_denied-union side_effect_funcs n)
denied_funcs-union (some d) n =
    elim (Option-cases (lookup d (denied_by_dialect side_effect_funcs))) [
      | inl e ↦ rw e ((λ h. h), always_denied-union side_effect_funcs n)
      | inr (l, e) ↦ rw e (
        denied_by_dialect-union side_effect_funcs d n e,
        denied_by_dialect-always side_effect_funcs d n e,
      )
    ]
