-- ===== src/Prelude/Triple.antt =====
-- What a run started in a state with P leaves: Q of what it returns and its state, or R of the state
-- in which it raised.
use mathlib.Core.Path.{◌≡◌, refl}
use mathlib.Core.Bool.{Bool, true, false}
use sqllens.Prelude.Tests.{if◌then◌else◌}
use sqllens.Prelude.Result.{Result, ok, err}
use sqllens.Prelude.Act.{Act, resume, ◌>>=◌, ◌>>◌, give, act_if}

module _ {S E : Type 0} where
  abbrev pub Leaves : {A : Type 0} → (A → S → Type 0) → (S → Type 0) → S × Result E A → Type 0
  Leaves Q R (s, ok a) = Q a s
  Leaves Q R (s, err e) = R s

  pub record Triple (P : S → Type 0) {A : Type 0} (Q : A → S → Type 0) (R : S → Type 0)
      (run : Act S E A) : Type 0 where
    pub apply : (s : S) → P s → Leaves Q R (run s)

  module _ {P R : S → Type 0} where
    pub give-Triple :
        {A : Type 0} {Q : A → S → Type 0} {a : A} → ((s : S) → P s → Q a s) → Triple P Q R (give a)
    give-Triple h = record { apply = h }

    pub bind-Triple :
        {A B : Type 0} (M : A → S → Type 0) {Q : B → S → Type 0} {run : Act S E A}
        {next : A → Act S E B}
        → Triple P M R run
        → ((a : A) → Triple (M a) Q R (next a))
        → Triple P Q R (run >>= next)
    unfolding ◌>>=◌
    bind-Triple {A} {B} M {Q} {run} {next} t n = record {
      apply = λ s p. go (run s).1 (run s).0 (t.apply s p);
    }
      where
        go : (r : Result E A) (s : S) → Leaves M R (s, r) → Leaves Q R (resume r s next)
        go (ok a) s m = (n a).apply s m
        go (err e) s m = m

    pub then-Triple :
        {A B : Type 0} (M : S → Type 0) {Q : B → S → Type 0} {run : Act S E A} {next : Act S E B}
        → Triple P (λ (a : A) (s : S). M s) R run
        → Triple M Q R next
        → Triple P Q R (run >> next)
    unfolding ◌>>◌ ◌>>=◌
    then-Triple {A} {B} M {Q} {run} {next} t n =
        bind-Triple {A = A} {B = B} (λ (a : A) (s : S). M s) {Q = Q} {run = run} {next = λ _. next}
          t (λ _. n)

    pub act_if-Triple :
        (b : Bool) {Q : Unit {0} → S → Type 0} {run : Act S E (Unit {0})}
        → (b ≡ true → Triple P Q R run)
        → ((s : S) → P s → Q tt s)
        → Triple P Q R (act_if b run)
    unfolding act_if
    act_if-Triple true t k = t refl
    act_if-Triple false t k = give-Triple k

    pub if-Triple :
        {A : Type 0} {Q : A → S → Type 0} (b : Bool) (run other : Act S E A)
        → (b ≡ true → Triple P Q R run)
        → (b ≡ false → Triple P Q R other)
        → Triple P Q R (if b then run else other)
    if-Triple true run other t n = t refl
    if-Triple false run other t n = n refl

    pub from-Triple :
        {P' : S → Type 0} {A : Type 0} {Q : A → S → Type 0} {run : Act S E A}
        → ((s : S) → P' s → P s)
        → Triple P Q R run
        → Triple P' Q R run
    from-Triple h t = record { apply = λ s p. t.apply s (h s p) }
