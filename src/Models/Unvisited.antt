-- ===== src/Models/Unvisited.antt =====
-- How many shapes `_walk` has not reached yet.
use mathlib.Core.Path.{subst}
use lambpie.Common.{
  sym, ℕ, suc, ◌≤◌, ◌<◌, ◌≡◌, refl, String, true, false, Bool-cases, inl, inr, some, List, [], ◌∷◌,
  length, arith, if◌then◌else◌, ◌==◌, eq_iff, eq_refl,
}
use lambpie.Common.Dict.{Dict, lookup}
use lambpie.Models.Shapes.{mem}

-- every name of the first list is in the second
abbrev pub Within : List String → List String → Type 0
Within xs ys = (x : String) → mem x xs ≡ true → mem x ys ≡ true

pub mem-head : (x : String) (xs : List String) → mem x (x ∷ xs) ≡ true
unfolding mem
mem-head x xs = rw (eq_refl x) refl

pub mem-tail : (x y : String) (xs : List String) → mem x xs ≡ true → mem x (y ∷ xs) ≡ true
unfolding mem
mem-tail x y xs h = ground (arith, h)

-- the number of keys that are not in the list
unfoldable pub unvisited : {V : Type 0} → Dict V → List String → ℕ
unvisited [] r = 0
unvisited ((k, v) ∷ d) r = let n = unvisited d r in if mem k r then n else suc n

module _ {V : Type 0} where
  pub unvisited-Within :
      (d : Dict V) (r r' : List String) → Within r r' → unvisited d r' ≤ unvisited d r
  unfolding unvisited
  unvisited-Within [] r r' w = omega arith
  unvisited-Within ((k, v) ∷ d) r r' w = ground (arith, w k, unvisited-Within d r r' w)

  pub unvisited-visit :
      (d : Dict V) (k : String) (v : V) (r : List String)
      → lookup k d ≡ some v
      → mem k r ≡ false
      → unvisited d (k ∷ r) < unvisited d r
  unfolding unvisited lookup mem
  unvisited-visit [] k v r e m = cc
  unvisited-visit ((j, w) ∷ d) k v r e m = elim (Bool-cases (j == k)) [
    | inl hit ↦
        let off = subst (λ x. mem x r ≡ false) (sym ((eq_iff j k).0 hit)) m in
        rw (hit, off) (omega (arith, unvisited-Within d r (k ∷ r) (λ x h. mem-tail x k r h)))
    | inr miss ↦ let ih = unvisited-visit d k v r (rw miss at e) m in rw miss (ground (arith, ih))
  ]

  pub unvisited-length : (d : Dict V) (r : List String) → unvisited d r ≤ length d
  unfolding unvisited
  unvisited-length [] r = omega arith
  unvisited-length ((k, v) ∷ d) r = ground (arith, unvisited-length d r)
