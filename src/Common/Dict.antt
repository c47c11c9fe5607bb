-- ===== src/Common/Dict.antt =====
-- Python's `dict` with string keys, as an association list in insertion order: an assignment to a
-- key that is there keeps its place, a new key goes last.
use Prim.Native.String.{String}
use mathlib.Core.Path.{◌≡◌, refl, subst}
use mathlib.Core.Bool.{Bool, true, false}
use mathlib.Core.Option.{Option, none, some}
use mathlib.Core.List.{List, [], ◌∷◌}
use native.Mathlib.Omega.{arith}
use text.Mathlib.Text.{◌==◌}
use text.Mathlib.TextEquality.{eq_iff}
use lambpie.Common.Tests.{if◌then◌else◌, Bool-cases}
use lambpie.Common.Lists.{All}
use mathlib.Core.Logic.{inl, inr}

abbrev pub Dict {ℓ} : Type ℓ → Type ℓ
Dict V = List (String × V)

module _ {ℓ} {V : Type ℓ} where
  -- d.get(k)
  unfoldable pub lookup : String → Dict V → Option V
  lookup k [] = none
  lookup k ((j, v) ∷ d) = if j == k then some v else lookup k d

  -- d[k] = v
  unfoldable pub insert : String → V → Dict V → Dict V
  insert k v [] = (k, v) ∷ []
  insert k v ((j, w) ∷ d) = if j == k then (j, v) ∷ d else (j, w) ∷ insert k v d

  -- k in d
  unfoldable pub contains : String → Dict V → Bool
  unfolding lookup
  contains k d = elim (lookup k d) [ none ↦ false | some _ ↦ true ]

  pub lookup-insert :
      (k j : String) (v : V) (d : Dict V)
      → lookup j (insert k v d) ≡ (if k == j then some v else lookup j d)
  unfolding lookup insert
  lookup-insert k j v [] = refl
  lookup-insert k j v ((i, w) ∷ d) =
      ground (arith, eq_iff k j, eq_iff i k, eq_iff i j, lookup-insert k j v d)

hit_value :
    {V : Type 0} (b : Bool) (w v : V) (o : Option V)
    → b ≡ true
    → (if b then some w else o) ≡ some v
    → w ≡ v
hit_value b w v o hit e = ground arith

pub All-lookup :
    {V : Type 0} (P : V → Type 0) (k : String) (d : Dict V) (v : V)
    → All (λ e. P e.1) d
    → lookup k d ≡ some v
    → P v
unfolding lookup
All-lookup P k [] v h e = cc
All-lookup P k ((j, w) ∷ d) v h e = elim (Bool-cases (j == k)) [
  | inl hit ↦ subst P (hit_value _ w v (lookup k d) hit e) h.0
  | inr miss ↦ All-lookup P k d v h.1 (rw miss at e)
]

pub All-insert :
    {V : Type 0} (P : V → Type 0) (k : String) (v : V) (d : Dict V)
    → P v
    → All (λ e. P e.1) d
    → All (λ e. P e.1) (insert k v d)
unfolding insert
All-insert P k v [] hv h = (hv, tt)
All-insert P k v ((j, w) ∷ d) hv h = elim (Bool-cases (j == k)) [
  | inl hit ↦ rw hit (hv, h.1)
  | inr miss ↦ rw miss (h.0, All-insert P k v d hv h.1)
]
