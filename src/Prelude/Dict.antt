-- ===== src/Prelude/Dict.antt =====
-- Python's `dict` with text keys, as an association list in insertion order.
use Prim.Native.String.{String}
use mathlib.Core.Path.{◌≡◌, refl}
use mathlib.Core.Option.{Option, none, some}
use mathlib.Core.List.{List, [], ◌∷◌}
use native.Mathlib.Omega.{arith}
use text.Mathlib.Text.{◌==◌}
use text.Mathlib.TextEquality.{eq_iff}
use sqllens.Prelude.Tests.{if◌then◌else◌}

abbrev pub Dict {ℓ} : Type ℓ → Type ℓ
Dict V = List (String × V)

module _ {ℓ} {V : Type ℓ} where
  -- d.get(k)
  unfoldable pub lookup : String → Dict V → Option V
  lookup k [] = none
  lookup k ((key, value) ∷ d) = let later = lookup k d in if key == k then some value else later

  -- d[k] = v: an existing key keeps its place
  unfoldable pub insert : String → V → Dict V → Dict V
  insert k new [] = (k, new) ∷ []
  insert k new ((key, value) ∷ d) =
      let later = insert k new d in if key == k then (k, new) ∷ d else (key, value) ∷ later

  -- d.pop(k, None)
  unfoldable pub without : String → Dict V → Dict V
  without k [] = []
  without k ((key, value) ∷ d) =
      let later = without k d in if key == k then later else (key, value) ∷ later

  pub lookup-without :
      (k j : String) (d : Dict V) → lookup j (without k d) ≡ (if k == j then none else lookup j d)
  unfolding lookup without
  lookup-without k j [] = ground arith
  lookup-without k j ((i, v) ∷ d) =
      ground (arith, lookup-without k j d, eq_iff i k, eq_iff i j, eq_iff k j)

  pub lookup-insert :
      (k j : String) (new : V) (d : Dict V)
      → lookup j (insert k new d) ≡ (if k == j then some new else lookup j d)
  unfolding lookup insert
  lookup-insert k j new [] = refl
  lookup-insert k j new ((key, value) ∷ d) =
      ground (arith, lookup-insert k j new d, eq_iff key k, eq_iff key j, eq_iff k j)
