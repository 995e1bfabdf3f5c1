-- ===== src/Profiles/Resolve.antt =====
-- The settings that a request gets.
use mathlib.Core.Path.{subst}
use sqllens.Prelude.Result.{Result, ok, ok-injective}
use sqllens.Prelude.{
  ℕ, ◌≤◌, String, ◌≡◌, refl, inl, inr, Bool, true, Option, none, some, arith, Bool-cases,
  Option-cases, &&-eq-true, str_eq,
}
use sqllens.Prelude.Dict.{lookup}
use sqllens.Profiles.Entries.{
  Profile, is_profile_name, is_bounded, is_within, inherit_all, is_threshold,
}
use sqllens.Profiles.{
  ProfileStore, File, ProfileError, EffectiveSettings, or_else, name_or_default,
  default_profile_name, profile_for, overlay, resolve_effective_settings, get,
}
use sqllens.Profiles.Good.{lookup-AllGood}
use sqllens.Profiles.Served.{Served, Served-AllGood}

or_else-within :
    (low high n : ℕ) (o : Option ℕ)
    → is_within low high o ≡ true
    → low ≤ n
    → n ≤ high
    → (low ≤ or_else o n) × (or_else o n ≤ high)
unfolding is_within or_else
or_else-within low high n none h a b = (a, b)
or_else-within low high n (some m) h a b = ground (arith, h)

module _ {F : Type 0} where
  -- The bounds that the configuration and the profiles share; `unit` tests a float against 0.0 and 1.0.
  pub record InBounds (unit : F → Bool) (e : EffectiveSettings F) : Type 0 where
    pub some_iterations : 1 ≤ e.max_tool_iterations
    pub few_iterations : e.max_tool_iterations ≤ 100
    pub some_rows : 1 ≤ e.max_rows
    pub few_rows : e.max_rows ≤ 1000000
    pub unit_threshold : unit e.similarity_threshold ≡ true

  -- The store of a request: none, or one whose saves may have failed or been cancelled.
  pub data Offered (unit : F → Bool) : Option (ProfileStore F) → Type 0 where
    no_store : Offered unit none
    a_store : {file : File F} {s : ProfileStore F} → Served unit file s → Offered unit (some s)

  or_else-threshold :
      (unit : F → Bool) (o : Option F) (x : F)
      → is_threshold unit o ≡ true
      → unit x ≡ true
      → unit (or_else o x) ≡ true
  unfolding is_threshold or_else
  or_else-threshold unit none x h e = e
  or_else-threshold unit (some y) x h e = h

  overlay-InBounds :
      (unit : F → Bool) (config : EffectiveSettings F) (p : Profile F)
      → is_bounded unit p ≡ true
      → InBounds unit config
      → InBounds unit (overlay config p)
  unfolding is_bounded
  overlay-InBounds unit config p b c =
      let (limits, u) = &&-eq-true _ _ b in
      let (i, r) = &&-eq-true (is_within 1 100 p.max_tool_iterations) _ limits in
      let (a, a') =
        or_else-within 1 100 config.max_tool_iterations p.max_tool_iterations i c.some_iterations
          c.few_iterations in
      let (d, d') = or_else-within 1 1000000 config.max_rows p.max_rows r c.some_rows c.few_rows in
      record {
        some_iterations = a;
        few_iterations = a';
        some_rows = d;
        few_rows = d';
        unit_threshold =
            or_else-threshold unit p.similarity_threshold config.similarity_threshold u
              c.unit_threshold;
      }

  inherit_all-bounded : (unit : F → Bool) → is_bounded unit (inherit_all {F = F}) ≡ true
  unfolding is_bounded is_within is_threshold
  inherit_all-bounded unit = refl

  profile_for-bounded :
      (unit : F → Bool) (store : Option (ProfileStore F)) (name : String)
      → Offered unit store
      → is_bounded unit (profile_for store name) ≡ true
  unfolding profile_for or_else
  profile_for-bounded unit none name no_store = inherit_all-bounded unit
  profile_for-bounded unit (some s) name (a_store m) =
      elim (Option-cases (lookup name s.profiles)) [
        | inr (p, e) ↦ rw e (good name p e)
        | inl e ↦ elim (Option-cases (lookup default_profile_name s.profiles)) [
          | inr (p, e') ↦ rw (e, e') (good default_profile_name p e')
          | inl e' ↦ rw (e, e') (inherit_all-bounded unit)
        ]
      ]
    where
      good : (n : String) (p : Profile F) → lookup n s.profiles ≡ some p → is_bounded unit p ≡ true
      good n p e = (lookup-AllGood unit s.profiles n p (Served-AllGood unit m) e).1

  -- If the configuration keeps to the bounds on tool iterations, rows and the similarity threshold,
  -- then so do the settings that a request resolves to, whatever profile it names, if any, and with
  -- no profile store, or with one that was read from any file and changed by any upserts of validated
  -- profiles and deletes, however their writes ended.
  pub resolve_effective_settings-InBounds :
      (unit : F → Bool) {store : Option (ProfileStore F)} (config : EffectiveSettings F)
      (requested : Option String) {e : EffectiveSettings F}
      → Offered unit store
      → InBounds unit config
      → resolve_effective_settings config requested store ≡ ok e
      → InBounds unit e
  unfolding resolve_effective_settings
  resolve_effective_settings-InBounds unit {store} config requested {e} m c h =
      elim (Bool-cases (is_profile_name (name_or_default requested))) [
        | inl v ↦
            subst (InBounds unit) (ok-injective (rw v at h))
              (overlay-InBounds unit config _ (profile_for-bounded unit store _ m) c)
        | inr v ↦ let no = rw v at h in cc
      ]

  -- A request that names a profile which the store does not have gets the settings of a request that
  -- names none.
  pub resolve_effective_settings-get :
      (s : ProfileStore F) (config : EffectiveSettings F) (name : String)
      → get s name ≡ ok none
      → resolve_effective_settings config (some name) (some s)
        ≡ resolve_effective_settings config none (some s)
  unfolding resolve_effective_settings get
  resolve_effective_settings-get s config name h = elim (Bool-cases (is_profile_name name)) [
    | inr v ↦ let no = rw v at h in cc
    | inl v ↦ elim (Bool-cases (str_eq name "")) [
      | inl e ↦ rw e refl
      | inr e ↦
          rw (e, v, ok-injective (rw v at h)) (by_default (lookup default_profile_name s.profiles))
    ]
  ]
    where
      by_default :
          (o : Option (Profile F))
          → ◌≡◌ {A = Result ProfileError (EffectiveSettings F)}
              (ok (overlay config (or_else o inherit_all)))
              (ok (overlay config (or_else o (or_else o inherit_all))))
      by_default none = refl
      by_default (some p) = refl
