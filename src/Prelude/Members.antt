-- ===== src/Prelude/Members.antt =====
-- Membership with its place kept, so that proofs can match on it.
use mathlib.Core.Path.{◌≡◌, refl}
use mathlib.Core.Logic.{◌⊎◌, inl, inr}
use mathlib.Core.List.{List, [], ◌∷◌, ◌++◌}

pub data In {ℓ} {A : Type ℓ} (a : A) : List A → Type ℓ where
  head : {xs : List A} → In a (a ∷ xs)
  tail : {x : A} {xs : List A} → In a xs → In a (x ∷ xs)

module _ {ℓ} {A : Type ℓ} {a : A} where
  pub In-append_left : {xs : List A} (ys : List A) → In a xs → In a (xs ++ ys)
  In-append_left ys head = head
  In-append_left ys (tail m) = tail (In-append_left ys m)

  pub In-append_right : (xs : List A) {ys : List A} → In a ys → In a (xs ++ ys)
  In-append_right [] m = m
  In-append_right (x ∷ xs) m = tail (In-append_right xs m)

  pub In-append : (xs : List A) {ys : List A} → In a (xs ++ ys) → In a xs ⊎ In a ys
  In-append [] m = inr m
  In-append (x ∷ xs) head = inl head
  In-append (x ∷ xs) (tail m) = elim (In-append xs m) [ inl l ↦ inl (tail l) | inr r ↦ inr r ]

  pub In-cons : {x : A} {xs : List A} → In a (x ∷ xs) → (x ≡ a) ⊎ In a xs
  In-cons head = inl refl
  In-cons (tail m) = inr m
