-- ===== src/Models/Shapes.antt =====
-- scripts/parse_models.py: `_collect_reachable_shapes`. The model is the parsed JSON, with the keys
-- that the function reads.
use lambpie.Common.{
  ℕ, zero, suc, String, Bool, true, false, Option, none, some, List, [], ◌∷◌, ◌++◌, length,
  if◌then◌else◌, ◌==◌, ◌||◌, map,
}
use lambpie.Common.Dict.{Dict, lookup, contains}

-- a shape, by its "type"; of each member the "shape"
pub data Shape : Type 0 where
  structure : Dict String → Shape
  list_of : String → Shape
  map_of : String → String → Shape
  -- any other type
  scalar : String → Shape

-- the shapes of "input", "output" and "errors"
pub record Operation : Type 0 where
  pub input : Option String
  pub output : Option String
  pub errors : List String

pub record Model : Type 0 where
  pub operations : Dict Operation
  pub shapes : Dict Shape

-- What `_collect_reachable_shapes` ends with: the set of the names, the latest first; the
-- RuntimeError for a name without a shape; the exit for an unknown operation.
pub data Outcome : Type 0 where
  reached : List String → Outcome
  undefined_shape : String → Outcome
  unknown_operation : Outcome
  -- never, with the fuel that `collect_reachable_shapes` gives
  no_fuel : Outcome

-- x in xs
unfoldable pub mem : String → List String → Bool
mem x [] = false
mem x (y ∷ ys) = (x == y) || mem x ys

-- the names that `_walk` goes to from a shape
unfoldable pub refs : Shape → List String
refs (structure members) = map (λ m. m.1) members
refs (list_of member) = member ∷ []
refs (map_of key value) = key ∷ value ∷ []
refs (scalar t) = []

-- an exception ends the walk
unfoldable pub and_then : Outcome → (List String → Outcome) → Outcome
and_then (reached r) g = g r
and_then (undefined_shape x) g = undefined_shape x
and_then unknown_operation g = unknown_operation
and_then no_fuel g = no_fuel

-- a loop of `_walk` over names
unfoldable pub each : (String → List String → Outcome) → List String → List String → Outcome
each f [] reachable = reached reachable
each f (x ∷ xs) reachable = and_then (f x reachable) (λ r. each f xs r)

-- `_walk`, from the lookup of the name on, where `f` is `_walk` itself
unfoldable pub visit_shape :
    (String → List String → Outcome) → String → Option Shape → List String → Outcome
visit_shape f name none reachable = undefined_shape name
visit_shape f name (some shape) reachable = each f (refs shape) (name ∷ reachable)

-- `_walk`, on fuel for the depth of the recursion
unfoldable pub walk : ℕ → Dict Shape → String → List String → Outcome
walk zero shapes name reachable = no_fuel
walk (suc n) shapes name reachable =
    if mem name reachable
    then reached reachable
    else visit_shape (walk n shapes) name (lookup name shapes) reachable

unfoldable pub optional : Option String → List String
optional none = []
optional (some x) = x ∷ []

-- the names that the loop over the operations begins `_walk` with
unfoldable pub roots : List Operation → List String
unfolding optional
roots [] = []
roots (op ∷ ops) = optional op.input ++ (optional op.output ++ (op.errors ++ roots ops))

-- the operations whose name is selected, in the order of the model
unfoldable pub select : Option (List String) → Dict Operation → List Operation
select names [] = []
select none ((n, op) ∷ ops) = op ∷ select none ops
select (some names) ((n, op) ∷ ops) =
    let rest = select (some names) ops in if mem n names then op ∷ rest else rest

-- `set(operation_names) - set(ops)` is empty
unfoldable pub all_known : List String → Dict Operation → Bool
all_known [] ops = true
all_known (n ∷ ns) ops = if contains n ops then all_known ns ops else false

unfoldable pub known : Option (List String) → Dict Operation → Bool
known none ops = true
known (some names) ops = all_known names ops

-- `_collect_reachable_shapes`
unfoldable pub collect_reachable_shapes : Model → Option (List String) → Outcome
collect_reachable_shapes model names =
    if known names model.operations
    then each (walk (suc (length model.shapes)) model.shapes)
        (roots (select names model.operations)) []
    else unknown_operation
