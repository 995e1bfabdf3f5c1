-- ===== src/Format/Fitted.antt =====
-- What is left of a payload and of an answer's blocks.
use mathlib.Core.Path.{subst}
use sqllens.Prelude.{
  ltb, ℕ, zero, suc, ◌≤◌, ◌<◌, ◌≡◌, refl, sym, ◌⊎◌, inl, inr, Bool, true, false, ◌||◌, Option, none,
  some, List, [], ◌∷◌, arith, leb, length, if_cases, Bool-cases,
}
use sqllens.Format.{
  Payload, kept, untrimmed, rowless, largest_fitting, fit_table, is_empty, noticed, pop_blocks,
  trim_blocks_to_budget,
}
use sqllens.Format.Search.{largest_fitting-IsLargest}

leb-false : (a b : ℕ) → leb a b ≡ false → b < a
leb-false a b h = ground (arith, h)

leb-true : (a b : ℕ) → leb a b ≡ true → a ≤ b
leb-true a b h = ground (arith, h)

lt_suc_cases : (k n : ℕ) → k < suc n → (k < n) ⊎ (k ≡ n)
lt_suc_cases k n h = elim (Bool-cases (ltb k n)) [
  | inl less ↦ inl (ground (arith, less))
  | inr more ↦ inr (ground (arith, more, h))
]

or_cases : (a b : Bool) → (a || b) ≡ true → (a ≡ true) ⊎ (b ≡ true)
or_cases true b h = inl refl
or_cases false b h = inr h

or_right : (a b : Bool) → (a || b) ≡ false → b ≡ false
or_right true b h = cc
or_right false b h = h

is_empty-eq : {Block : Type 0} (bs : List Block) → is_empty bs ≡ true → bs ≡ []
unfolding is_empty
is_empty-eq [] h = refl
is_empty-eq (b ∷ bs) h = cc

module _ {Row : Type 0} (budget : ℕ) (serialized_len : Payload Row → ℕ) (rows : List Row) where
  -- The payload that is sent: as built if that fits, else the longest prefix of the rows that fits;
  -- or none, if not even the payload without rows fits.
  abbrev pub IsFitted : Option (Payload Row) → Type 0
  IsFitted none = budget < serialized_len (rowless rows)
  IsFitted (some p) =
      (serialized_len p ≤ budget)
      × ((p ≡ untrimmed rows)
          ⊎ ((n : ℕ) × (n ≤ length rows)
              × (p ≡ kept rows n)
              × ((k : ℕ) → n < k → k ≤ length rows → budget < serialized_len (kept rows k))))

  -- If a payload that keeps more rows is not shorter, and the one that keeps none is as long as the
  -- one without rows, then a table payload is sent as built, or with the longest prefix of its rows
  -- that fits the budget, and is not sent only if it does not fit without rows.
  pub fit_table-IsFitted :
      ((m n : ℕ) → m ≤ n → serialized_len (kept rows m) ≤ serialized_len (kept rows n))
      → serialized_len (kept rows 0) ≡ serialized_len (rowless rows)
      → IsFitted (fit_table budget serialized_len rows)
  unfolding fit_table
  fit_table-IsFitted mono same =
      if_cases IsFitted (leb (serialized_len (untrimmed rows)) budget) _ _
        (λ e. (leb-true _ _ e, inl refl))
        (λ _.
          if_cases IsFitted (leb (serialized_len (rowless rows)) budget) _ _ trimmed
            (leb-false _ _))
    where
      fits : ℕ → Bool
      fits n = leb (serialized_len (kept rows n)) budget

      fits_mono : (m n : ℕ) → m ≤ n → fits n ≡ true → fits m ≡ true
      fits_mono m n h e = ground (arith, mono m n h, e)

      trimmed :
          leb (serialized_len (rowless rows)) budget ≡ true
          → IsFitted (some (kept rows (largest_fitting fits (length rows) 0 (length rows))))
      trimmed e =
          let r =
            largest_fitting-IsLargest fits fits_mono (length rows) 0 (length rows) (omega arith)
              (omega arith) (rw same e) in
          (
            leb-true _ _ r.at,
            inr (
              largest_fitting fits (length rows) 0 (length rows),
              r.below,
              refl,
              λ k p q. leb-false _ _ (r.last k p q),
            ),
          )

module _ {Block : Type 0} (budget : ℕ) (serialized_len : List Block → ℕ) (notice : ℕ → Block)
    (blocks : List Block) where
  -- The longest proper prefix that fits with its notice, or the notice alone if there is none.
  abbrev pub IsTrimmed : ℕ → List Block → Type 0
  IsTrimmed below out =
      ((n : ℕ) × (n < below)
        × (out ≡ noticed notice blocks n)
        × (serialized_len out ≤ budget)
        × ((k : ℕ) → n < k → k < below → budget < serialized_len (noticed notice blocks k)))
      ⊎ ((out ≡ notice (length blocks) ∷ [])
          × ((k : ℕ) → k < below → budget < serialized_len (noticed notice blocks k)))

  pop_blocks-IsTrimmed : (n : ℕ) → IsTrimmed n (pop_blocks budget serialized_len notice blocks n)
  unfolding pop_blocks
  pop_blocks-IsTrimmed zero = inr (refl, λ k h. absurd (omega arith))
  pop_blocks-IsTrimmed (suc n) =
      if_cases (IsTrimmed (suc n)) (leb (serialized_len (noticed notice blocks n)) budget) _ _
        (λ e. inl (n, omega arith, refl, leb-true _ _ e, λ k p q. absurd (omega arith)))
        (λ e. later (leb-false _ _ e) _ (pop_blocks-IsTrimmed n))
    where
      here :
          (k : ℕ)
          → budget < serialized_len (noticed notice blocks n)
          → (k < n → budget < serialized_len (noticed notice blocks k))
          → k < suc n
          → budget < serialized_len (noticed notice blocks k)
      here k h below q = elim (lt_suc_cases k n q) [
        | inl less ↦ below less
        | inr e ↦ subst (λ i. budget < serialized_len (noticed notice blocks i)) (sym e) h
      ]

      later :
          budget < serialized_len (noticed notice blocks n)
          → (out : List Block) → IsTrimmed n out
          → IsTrimmed (suc n) out
      later h out (inl (m, p, e, f, g)) =
          inl (m, omega (arith, p), e, f, λ k a b. here k h (λ c. g k a c) b)
      later h out (inr (e, g)) = inr (e, λ k b. here k h (λ c. g k c) b)

  -- The blocks of an answer are sent as they are if there are none or if they fit the budget, else the
  -- longest proper prefix of them that fits together with a notice of how many were dropped, and only
  -- if there is none that does, the notice alone.
  pub trim_blocks_to_budget-IsTrimmed :
      ((trim_blocks_to_budget budget serialized_len notice blocks ≡ blocks)
        × ((blocks ≡ []) ⊎ (serialized_len blocks ≤ budget)))
      ⊎ ((budget < serialized_len blocks)
          × IsTrimmed (length blocks) (trim_blocks_to_budget budget serialized_len notice blocks))
  unfolding trim_blocks_to_budget
  trim_blocks_to_budget-IsTrimmed =
      if_cases
        (λ (out : List Block).
          ((out ≡ blocks) × ((blocks ≡ []) ⊎ (serialized_len blocks ≤ budget)))
          ⊎ ((budget < serialized_len blocks) × IsTrimmed (length blocks) out))
        (is_empty blocks || leb (serialized_len blocks) budget) _ _
        (λ e. inl (refl, unchanged (or_cases _ _ e)))
        (λ e.
          inr
            (leb-false _ _ (or_right (is_empty blocks) _ e), pop_blocks-IsTrimmed (length blocks)))
    where
      unchanged :
          (is_empty blocks ≡ true) ⊎ (leb (serialized_len blocks) budget ≡ true)
          → (blocks ≡ []) ⊎ (serialized_len blocks ≤ budget)
      unchanged (inl e) = inl (is_empty-eq blocks e)
      unchanged (inr e) = inr (leb-true _ _ e)
