-- ===== src/Prelude/Keeps.antt =====
-- What a run keeps true of its state, and what it gives when it returns.
use sqllens.Prelude.Tests.{if◌then◌else◌}
use mathlib.Core.Bool.{Bool, true, false}
use mathlib.Core.Path.{◌≡◌, refl}
use sqllens.Prelude.Result.{Result, ok, err}
use sqllens.Prelude.Act.{raise, Act, resume, ◌>>=◌, ◌>>◌, give, act_if}

abbrev pub Post : {E A : Type 0} → (A → Type 0) → Result E A → Type 0
Post Q (ok a) = Q a
Post Q (err e) = Unit

abbrev pub Whatever : {A : Type 0} → A → Type 0
Whatever a = Unit

module _ {S E : Type 0} where
  pub record Keeps (I : S → Type 0) {A : Type 0} (Q : A → Type 0) (run : Act S E A) : Type 0 where
    pub state : (s : S) → I s → I (run s).0
    pub result : (s : S) → I s → Post Q (run s).1

  module _ {I : S → Type 0} where
    pub give-Keeps : {A : Type 0} {Q : A → Type 0} {a : A} → Q a → Keeps I Q (give a)
    give-Keeps q = record { state = λ s i. i; result = λ s i. q }

    pub bind-Keeps :
        {A B : Type 0} (Q : A → Type 0) {R : B → Type 0} {run : Act S E A} {next : A → Act S E B}
        → Keeps I Q run
        → ((a : A) → Q a → Keeps I R (next a))
        → Keeps I R (run >>= next)
    unfolding ◌>>=◌
    bind-Keeps {A} {B} Q {R} {run} {next} k n = record {
      state = λ s i. go_state (run s).1 (run s).0 (k.state s i) (k.result s i);
      result = λ s i. go_result (run s).1 (run s).0 (k.state s i) (k.result s i);
    }
      where
        go_state : (r : Result E A) (t : S) → I t → Post Q r → I (resume r t next).0
        go_state (ok a) t i q = (n a q).state t i
        go_state (err e) t i q = i

        go_result : (r : Result E A) (t : S) → I t → Post Q r → Post R (resume r t next).1
        go_result (ok a) t i q = (n a q).result t i
        go_result (err e) t i q = tt

    pub then-Keeps :
        {A B : Type 0} (Q : A → Type 0) {R : B → Type 0} {run : Act S E A} {next : Act S E B}
        → Keeps I Q run
        → Keeps I R next
        → Keeps I R (run >> next)
    unfolding ◌>>◌ ◌>>=◌
    then-Keeps {A} {B} Q {R} {run} {next} k n =
        bind-Keeps {A = A} {B = B} Q {R = R} {run = run} {next = λ _. next} k (λ _ _. n)

    pub act_if-Keeps :
        (b : Bool) {Q : Unit {0} → Type 0} {run : Act S E (Unit {0})}
        → Q tt
        → (b ≡ true → Keeps I Q run)
        → Keeps I Q (act_if b run)
    unfolding act_if
    act_if-Keeps true q k = k refl
    act_if-Keeps false q k = give-Keeps q

    pub if-Keeps :
        {A : Type 0} {Q : A → Type 0} (b : Bool) (run other : Act S E A)
        → (b ≡ true → Keeps I Q run)
        → (b ≡ false → Keeps I Q other)
        → Keeps I Q (if b then run else other)
    if-Keeps true run other k n = k refl
    if-Keeps false run other k n = n refl

pub any_run : {S E A : Type 0} (run : Act S E A) → Keeps Whatever Whatever run
any_run {S} {E} {A} run = record { state = λ s i. tt; result = λ s i. nothing (run s).1 }
  where
    nothing : (r : Result E A) → Post Whatever r
    nothing (ok a) = tt
    nothing (err e) = tt

-- A run that raises at once.
pub raise-Keeps :
    {S E A : Type 0} {I : S → Type 0} {Q : A → Type 0} (e : E)
    → Keeps I Q (raise {S = S} {E = E} {A = A} e)
raise-Keeps e = record { state = λ s i. i; result = λ s i. tt }

pub weaken-Keeps :
    {S E A : Type 0} {I : S → Type 0} (Q : A → Type 0) {R : A → Type 0} {run : Act S E A}
    → ((a : A) → Q a → R a)
    → Keeps I Q run
    → Keeps I R run
weaken-Keeps {S} {E} {A} Q {R} {run} h k = record {
  state = k.state;
  result = λ s i. go (run s).1 (k.result s i);
}
  where
    go : (r : Result E A) → Post Q r → Post R r
    go (ok a) q = h a q
    go (err e) q = tt
