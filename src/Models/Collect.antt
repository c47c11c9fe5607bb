-- ===== src/Models/Collect.antt =====
-- `_collect_reachable_shapes` as a whole.
use lambpie.Common.{
  suc, ◌≡◌, ◌≢◌, ◌↔◌, inl, inr, String, true, Bool-cases, Option, none, some, List, [], length,
  arith,
}
use mathlib.Core.Path.{subst}
use lambpie.Common.Dict.{Dict, lookup}
use lambpie.Models.Shapes.{
  Shape, Model, Outcome, reached, undefined_shape, unknown_operation, no_fuel, mem, refs, walk,
  roots, select, known, collect_reachable_shapes,
}
use lambpie.Models.Unvisited.{unvisited-length}
use lambpie.Models.Needs.{AreKnown, known-AreKnown, known-not, Needs, Reach-Needs, Needs-Reach}
use lambpie.Models.Reach.{Reach, start, follow, Walked, Post, walk-Post, each-Post}

module _ (shapes : Dict Shape) (names r : List String) where
  all_reached : Walked shapes names [] r → (x : String) → Reach shapes names x → mem x r ≡ true
  unfolding mem
  all_reached h x (start _ m) = h.visited x m
  all_reached h x (follow y _ shape p e m) = elim (h.closed y (all_reached h y p)) [
    | inl before ↦ cc
    | inr c ↦ c.2 x (subst (λ sh. mem x (refs sh) ≡ true) (same y shape c.0 e c.1) m)
  ]
    where
      same :
          (y : String) (a b : Shape) → lookup y shapes ≡ some a → lookup y shapes ≡ some b → a ≡ b
      same y a b e e' = cc

  only_reached : Walked shapes names [] r → (x : String) → mem x r ≡ true → Reach shapes names x
  unfolding mem
  only_reached h x m = elim (h.sound x m) [ inl before ↦ cc | inr p ↦ p ]

  clash : (x : String) (a : Shape) → lookup x shapes ≡ none → lookup x shapes ≡ some a → ⊥
  clash x a e e' = cc

  all_defined : Walked shapes names [] r → (x : String) → mem x r ≡ true → lookup x shapes ≢ none
  unfolding mem
  all_defined h x m e = elim (h.closed x m) [ inl before ↦ cc | inr c ↦ clash x c.0 e c.1 ]

-- What the outcome says of the model, for the selected operations.
abbrev pub Collected : Model → Option (List String) → Outcome → Type 0
Collected model names (reached r) =
    AreKnown names model.operations
    × ((x : String) → (mem x r ≡ true) ↔ Needs model names x)
    × ((x : String) → mem x r ≡ true → lookup x model.shapes ≢ none)
Collected model names (undefined_shape x) =
    AreKnown names model.operations × Needs model names x × (lookup x model.shapes ≡ none)
Collected model names unknown_operation = ¬ AreKnown names model.operations
Collected model names no_fuel = ⊥

finished :
    (model : Model) (names : Option (List String)) (o : Outcome)
    → known names model.operations ≡ true
    → Post model.shapes (roots (select names model.operations)) [] o
    → Collected model names o
finished model names (reached r) k h = (
  known-AreKnown names model.operations k,
  λ x. (
    λ m. Reach-Needs model names x (only_reached model.shapes _ r h x m),
    λ p. all_reached model.shapes _ r h x (Needs-Reach model names x p),
  ),
  all_defined model.shapes _ r h,
)
finished model names (undefined_shape x) k h =
    (known-AreKnown names model.operations k, Reach-Needs model names x h.0, h.1)
finished model names unknown_operation k h = absurd h
finished model names no_fuel k h = absurd h

-- `_collect_reachable_shapes` exits exactly where an operation was asked for that the model has
-- not. Otherwise it returns the set of the names that the inputs, outputs and errors of the selected
-- operations reach, by members of structures, members of lists, and keys and values of maps, and
-- then all of them are shapes of the model; or it raises RuntimeError for such a name that is none.
-- The fuel, one more than the number of shapes, does not run out: cyclic models end too.
pub collect_reachable_shapes-Collected :
    (model : Model) (names : Option (List String))
    → Collected model names (collect_reachable_shapes model names)
unfolding collect_reachable_shapes
collect_reachable_shapes-Collected model names = elim (Bool-cases (known names model.operations)) [
  | inl good ↦ rw good (
      finished model names _ good (
        each-Post model.shapes (walk (suc (length model.shapes)) model.shapes)
          (suc (length model.shapes)) (walk-Post model.shapes _) _ []
          (omega (arith, unvisited-length model.shapes []))))
  | inr bad ↦ rw bad (known-not names model.operations bad)
]
