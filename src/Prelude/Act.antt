-- ===== src/Prelude/Act.antt =====
-- Code that changes a state and may raise: what the state became stays also where it raises.
use mathlib.Core.Path.{◌≡◌, refl, ap}
use mathlib.Core.Bool.{Bool, true, false}
use sqllens.Prelude.Result.{Result, ok, err}

abbrev pub Act : Type 0 → Type 0 → Type 0 → Type 0
Act S E A = S → S × Result E A

module _ {S E : Type 0} where
  abbrev pub resume : {A B : Type 0} → Result E A → S → (A → Act S E B) → S × Result E B
  resume (ok a) s next = next a s
  resume (err e) s next = (s, err e)

  infixl 5 ◌>>=◌ ◌>>◌
  unfoldable pub ◌>>=◌ : {A B : Type 0} → Act S E A → (A → Act S E B) → Act S E B
  ◌>>=◌ run next s = resume (run s).1 (run s).0 next

  unfoldable pub ◌>>◌ : {A B : Type 0} → Act S E A → Act S E B → Act S E B
  ◌>>◌ run next s = resume (run s).1 (run s).0 (λ _. next)

  abbrev pub give : {A : Type 0} → A → Act S E A
  give a s = (s, ok a)

  abbrev pub raise : {A : Type 0} → E → Act S E A
  raise e s = (s, err e)

  -- if b: run
  unfoldable pub act_if : Bool → Act S E (Unit {0}) → Act S E (Unit {0})
  act_if true run = run
  act_if false run = give tt

  -- What a run that returned went through.
  pub resume-eq-ok :
      {A B : Type 0} (r : Result E A) (s : S) (next : A → Act S E B) {t : S} {b : B}
      → resume r s next ≡ (t, ok b)
      → (a : A) × (r ≡ ok a) × (next a s ≡ (t, ok b))
  resume-eq-ok (ok a) s next h = (a, refl, h)
  resume-eq-ok (err e) s next h = absurd (differ (ap (λ p. p.1) h))
    where
      differ : {A : Type 0} {e : E} {a : A} → ◌≡◌ {A = Result E A} (err e) (ok a) → ⊥
      differ h = cc

  -- What holds however a step ends holds behind it.
  pub bind_cases :
      {A B : Type 0} (P : S × Result E B → Type 0) (run : Act S E A) (s : S) (next : A → Act S E B)
      → ((e : E) → P ((run s).0, err e))
      → ((a : A) → (run s).1 ≡ ok a → P (next a (run s).0))
      → P (resume (run s).1 (run s).0 next)
  bind_cases {A} {B} P run s next raised returned = cases (run s).1 raised returned
    where
      cases :
          (r : Result E A)
          → ((e : E) → P ((run s).0, err e))
          → ((a : A) → r ≡ ok a → P (next a (run s).0))
          → P (resume r (run s).0 next)
      cases (ok a) x y = y a refl
      cases (err e) x y = x e
