-- ===== src/Conversation/Queue/Counts.antt =====
-- Counting the calls that pass a test.
use sqllens.Prelude.Members.{In, head, tail}
use sqllens.Prelude.{
  ℕ, ◌+◌, ◌≤◌, ◌<◌, ◌≡◌, refl, Bool, true, false, List, [], ◌∷◌, ◌++◌, arith, inl, inr, Bool-cases,
}

abbrev pub one : Bool → ℕ
one true = 1
one false = 0

unfoldable pub count {ℓ} : {A : Type ℓ} → (A → Bool) → List A → ℕ
count p [] = 0
count p (x ∷ xs) = one (p x) + count p xs

module _ {ℓ} {A : Type ℓ} where
  pub count-cons : (p : A → Bool) (x : A) (xs : List A) → count p (x ∷ xs) ≡ one (p x) + count p xs
  unfolding count
  count-cons p x xs = refl

  pub count-append : (p : A → Bool) (xs ys : List A) → count p (xs ++ ys) ≡ count p xs + count p ys
  unfolding count
  count-append p [] ys = omega arith
  count-append p (x ∷ xs) ys = omega (arith, count-append p xs ys)

  pub count-middle :
      (p : A → Bool) (xs : List A) (x : A) (ys : List A)
      → count p (xs ++ x ∷ ys) ≡ one (p x) + count p (xs ++ ys)
  count-middle p xs x ys =
      omega (arith, count-append p xs (x ∷ ys), count-append p xs ys, count-cons p x ys)

  pub count_le :
      (p q : A → Bool) (xs : List A)
      → ((x : A) → In x xs → p x ≡ true → q x ≡ true)
      → count p xs ≤ count q xs
  unfolding count
  count_le p q [] h = omega arith
  count_le p q (x ∷ xs) h =
      omega (arith, least (p x) (q x) (h x head), count_le p q xs (λ y m. h y (tail m)))
    where
      least : (a b : Bool) → (a ≡ true → b ≡ true) → one a ≤ one b
      least true b h = rw (h refl) (omega arith)
      least false b h = omega arith

  pub count_none : (xs : List A) → count (λ x. false) xs ≡ 0
  unfolding count
  count_none [] = refl
  count_none (x ∷ xs) = omega (arith, count_none xs)

  pub In-count : (p : A → Bool) (xs : List A) (x : A) → In x xs → p x ≡ true → 0 < count p xs
  unfolding count
  In-count p [] x m h = elim m [ ]
  In-count p (y ∷ xs) x head h = rw h (omega arith)
  In-count p (y ∷ xs) x (tail m) h = omega (arith, In-count p xs x m h)

  pub count-In : (p : A → Bool) (xs : List A) → 0 < count p xs → (x : A) × In x xs × (p x ≡ true)
  unfolding count
  count-In p [] h = absurd (omega arith)
  count-In p (x ∷ xs) h = elim (Bool-cases (p x)) [
    | inl e ↦ (x, head, e)
    | inr e ↦ let (y, m, k) = count-In p xs (let h' = rw e at h in omega arith) in (y, tail m, k)
  ]
