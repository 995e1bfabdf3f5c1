-- ===== src/Format/Search.antt =====
-- The binary search finds the largest number that fits.
use sqllens.Prelude.{
  ℕ, zero, suc, ◌+◌, ◌-◌, ◌/◌, ◌≤◌, ◌<◌, ◌≡◌, inl, inr, Bool, true, false, arith, ltb, Bool-cases,
  if_cases,
}
use sqllens.Format.{largest_fitting}

-- In a range at whose lower end the test holds, the search ends at a number of the range at which it
-- holds, and behind which it does not, if it holds below every number at which it holds.
pub record IsLargest (fits : ℕ → Bool) (lo hi n : ℕ) : Type 0 where
  pub above : lo ≤ n
  pub below : n ≤ hi
  pub at : fits n ≡ true
  pub last : (k : ℕ) → n < k → k ≤ hi → fits k ≡ false

pub largest_fitting-IsLargest :
    (fits : ℕ → Bool)
    → ((m n : ℕ) → m ≤ n → fits n ≡ true → fits m ≡ true)
    → (fuel lo hi : ℕ) → lo ≤ hi
    → hi - lo ≤ fuel
    → fits lo ≡ true
    → IsLargest fits lo hi (largest_fitting fits fuel lo hi)
unfolding largest_fitting
largest_fitting-IsLargest fits mono zero lo hi a f h = record {
  above = omega arith;
  below = a;
  at = h;
  last = λ k p q. absurd (omega arith);
}
largest_fitting-IsLargest fits mono (suc fuel) lo hi a f h =
    let mid = (lo + hi + 1) / 2 in
    if_cases (IsLargest fits lo hi) (ltb lo hi) _ _
      (λ t.
        let t' : lo < hi = ground (arith, t) in
        if_cases (IsLargest fits lo hi) (fits mid) _ _
          (λ e.
            let r = largest_fitting-IsLargest fits mono fuel mid hi (omega arith) (omega arith) e in
            record { above = omega (arith, r.above); below = r.below; at = r.at; last = r.last })
          (λ e.
            let r =
              largest_fitting-IsLargest fits mono fuel lo (mid - 1) (omega arith) (omega arith) h in
            record {
              above = r.above;
              below = omega (arith, r.below);
              at = r.at;
              last = λ k p q. beyond fits mono lo hi mid _ e r k p q;
            }))
      (λ t. record {
        above = omega arith;
        below = a;
        at = h;
        last = λ k p q. absurd (ground (arith, t, p, q));
      })
  where
    beyond :
        (fits : ℕ → Bool)
        → ((m n : ℕ) → m ≤ n → fits n ≡ true → fits m ≡ true)
        → (lo hi mid n : ℕ) → fits mid ≡ false
        → IsLargest fits lo (mid - 1) n
        → (k : ℕ) → n < k
        → k ≤ hi
        → fits k ≡ false
    beyond fits mono lo hi mid n e r k p q = elim (Bool-cases (fits k)) [
      | inr no_fit ↦ no_fit
      | inl fit ↦ elim (Bool-cases (ltb k mid)) [
        | inl small ↦ r.last k p (ground (arith, small))
        | inr large ↦ let up = mono mid k (ground (arith, large)) fit in absurd (cc (e, up))
      ]
    ]
