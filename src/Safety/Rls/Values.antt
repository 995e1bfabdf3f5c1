-- ===== src/Safety/Rls/Values.antt =====
-- Which metadata values a dynamic rule accepts.
use sqllens.Safety.Rls.Terms.{
  Rule, Value, Item, resolve_value, resolve_found, resolve_list, is_suspicious_item,
  is_suspicious_scalar, scalar, sequence, RlsRefusal,
}
use sqllens.Prelude.{
  String, ◌≡◌, sym, ap, ◌≢◌, ◌↔◌, ◌⊎◌, inl, inr, false, some, List, [], ◌∷◌, str_eq, eq_iff, any,
  if◌then◌else◌, Bool-cases, Option-cases, some-injective,
}
use sqllens.Prelude.Result.{Result, ok, err, ok-injective, err-ne-ok}
use sqllens.Prelude.Dict.{Dict, lookup}

module _ {N : Type 0} where
  -- A non-empty list of harmless items for the operator `in`, a harmless scalar for any other.
  abbrev pub IsUsable : Rule N → Value N → Type 0
  IsUsable r v =
      ((r.operator ≡ "in")
        × (i : Item N) × (is : List (Item N)) × (v ≡ sequence (i ∷ is))
        × (any is_suspicious_item (i ∷ is) ≡ false))
      ⊎ ((r.operator ≢ "in") × (i : Item N) × (v ≡ scalar i) × (is_suspicious_item i ≡ false))

  resolve_list-ok :
      (r : Rule N) (v w : Value N)
      → r.operator ≡ "in"
      → resolve_list v ≡ ok w
      → (v ≡ w) × IsUsable r w
  unfolding resolve_list
  resolve_list-ok r (scalar i) w o h = cc
  resolve_list-ok r (sequence []) w o h = cc
  resolve_list-ok r (sequence (i ∷ is)) w o h =
      elim (Bool-cases (any is_suspicious_item (i ∷ is))) [
        | inl e ↦ absurd (err-ne-ok (rw e at h))
        | inr e ↦ let same = ok-injective (rw e at h) in (same, inl (o, i, is, sym same, e))
      ]

  resolve_found-ok :
      (r : Rule N) (v w : Value N) → resolve_found r (some v) ≡ ok w → (v ≡ w) × IsUsable r w
  unfolding resolve_found is_suspicious_scalar
  resolve_found-ok r v w h = elim (Bool-cases (str_eq r.operator "in")) [
    | inl o ↦ resolve_list-ok r v w ((eq_iff r.operator "in").0 o) (rw o at h)
    | inr o ↦ harmless v (λ e. cc ((eq_iff r.operator "in").1 e, o)) (rw o at h)
  ]
    where
      harmless :
          (u : Value N)
          → r.operator ≢ "in"
          → ◌≡◌ {A = Result RlsRefusal (Value N)}
              (if is_suspicious_scalar u then err RlsRefusal.suspicious_value else ok u)
              (ok w)
          → (u ≡ w) × IsUsable r w
      harmless (sequence is) o h = cc
      harmless (scalar i) o h = elim (Bool-cases (is_suspicious_item i)) [
        | inl e ↦ absurd (err-ne-ok (rw e at h))
        | inr e ↦ let same = ok-injective (rw e at h) in (same, inr (o, i, sym same, e))
      ]

  usable-resolve_found : (r : Rule N) (v : Value N) → IsUsable r v → resolve_found r (some v) ≡ ok v
  unfolding resolve_found resolve_list is_suspicious_scalar
  usable-resolve_found r v (inl (o, i, is, e, s)) = rw ((eq_iff r.operator "in").1 o) (rw e (rw s))
  usable-resolve_found r v (inr (o, i, e, s)) = elim (Bool-cases (str_eq r.operator "in")) [
    | inl t ↦ absurd (o ((eq_iff r.operator "in").0 t))
    | inr t ↦ rw t (rw e (rw s))
  ]

  -- A rule whose value comes from the request gets exactly the value under its key, and only if that
  -- is usable: a non-empty list without suspicious items for `in`, else a scalar that is not
  -- suspicious.
  pub resolve_value_iff :
      (r : Rule N) (metadata : Dict (Value N)) (key : String) (v : Value N)
      → r.value_from_metadata ≡ some key
      → (resolve_value r metadata ≡ ok v) ↔ ((lookup key metadata ≡ some v) × IsUsable r v)
  unfolding resolve_value resolve_found
  resolve_value_iff r metadata key v e = rw e (elim (Option-cases (lookup key metadata)) [
    | inl n ↦ rw n ((λ h. cc), (λ h. cc))
    | inr (w, n) ↦ rw n (
      (λ h. let (same, u) = resolve_found-ok r w v h in (ap some same, u)),
      (λ h. let same = some-injective h.0 in rw same (usable-resolve_found r v h.1)),
    )
  ])
