-- ===== src/Models/Closed.antt =====
-- The .pie types of the members of collected shapes.
use lambpie.Common.{◌≡◌, ◌⊎◌, inl, inr, refl, String, true, Bool-cases, Option, none, some, List}
use mathlib.Core.Path.{subst}
use lambpie.Common.Dict.{Dict, lookup, All-lookup}
use lambpie.Models.Shapes.{
  Shape, structure, list_of, map_of, scalar, Model, reached, mem, collect_reachable_shapes,
}
use lambpie.Models.Types.{
  Resolved, pie_type, type_error, not_implemented, runtime_error, scalar_type_map, compound_types,
  mapped, botocore_scalar_to_pie, shape_type, resolve_pie_type,
}
use lambpie.Models.Needs.{HasMember, made_of}
use lambpie.Models.Collect.{Collected, collect_reachable_shapes-Collected}

-- a list or a map
abbrev pub IsCollection : Shape → Type 0
IsCollection (list_of member) = Unit
IsCollection (map_of key value) = Unit
IsCollection _ = ⊥

-- the shape `name` is there, and is such a one
abbrev pub IsShape : Dict Shape → String → (Shape → Type 0) → Type 0
IsShape shapes name P = (shape : Shape) × (lookup name shapes ≡ some shape) × P shape

abbrev pub IsStructure : Shape → Type 0
IsStructure (structure members) = Unit
IsStructure _ = ⊥

-- a compound type, or one that the map does not have
abbrev pub IsUnknown : Shape → Type 0
IsUnknown (scalar t) = (mem t compound_types ≡ true) ⊎ (lookup t scalar_type_map ≡ none)
IsUnknown _ = ⊥

-- The type is `str`, `int` or a structure among `r`. NotImplementedError stands for a list or a map,
-- TypeError for a type that is not in the map.
abbrev pub IsResolved : Dict Shape → List String → String → Resolved → Type 0
IsResolved shapes r name (pie_type t) =
    (t ≡ "str") ⊎ ((t ≡ "int") ⊎ ((mem t r ≡ true) × IsShape shapes t IsStructure))
IsResolved shapes r name not_implemented = IsShape shapes name IsCollection
IsResolved shapes r name type_error = IsShape shapes name IsUnknown
IsResolved shapes r name runtime_error = ⊥

pub scalar_types : (t u : String) → lookup t scalar_type_map ≡ some u → (u ≡ "str") ⊎ (u ≡ "int")
scalar_types t u e =
    All-lookup (λ v. (v ≡ "str") ⊎ (v ≡ "int")) t scalar_type_map u
      (inl refl, (inr refl, (inr refl, (inr refl, (inl refl, (inr refl, tt)))))) e

shape_type-IsResolved :
    (shapes : Dict Shape) (r : List String) (name : String) (o : Option Shape)
    → lookup name shapes ≡ o
    → mem name r ≡ true
    → (o ≡ none → ⊥)
    → IsResolved shapes r name (shape_type name o)
unfolding shape_type botocore_scalar_to_pie mapped
shape_type-IsResolved shapes r name none e m d = d refl
shape_type-IsResolved shapes r name (some (structure members)) e m d =
    inr (inr (m, (structure members, e, tt)))
shape_type-IsResolved shapes r name (some (list_of x)) e m d = (list_of x, e, tt)
shape_type-IsResolved shapes r name (some (map_of k v)) e m d = (map_of k v, e, tt)
shape_type-IsResolved shapes r name (some (scalar t)) e m d =
    elim (Bool-cases (mem t compound_types)) [
      | inl compound ↦ rw compound (scalar t, e, inl compound)
      | inr simple ↦ rw simple (looked (lookup t scalar_type_map) refl)
    ]
  where
    looked :
        (o : Option String) → lookup t scalar_type_map ≡ o → IsResolved shapes r name (mapped o)
    looked none h = (scalar t, e, inr h)
    looked (some u) h = elim (scalar_types t u h) [ inl s ↦ inl s | inr i ↦ inr (inl i) ]

module _ (model : Model) (names : Option (List String)) (r : List String) where
  -- Where `_collect_reachable_shapes` returned `r`: for each member of each structure in `r`,
  -- `_resolve_pie_type` returns `str`, `int` or the name of a structure that is in `r` too; or it
  -- raises NotImplementedError for a list or a map, or TypeError for a type that is not in the map.
  -- It raises no RuntimeError.
  pub resolve_pie_type-IsResolved :
      (x y : String) (members : Dict String)
      → collect_reachable_shapes model names ≡ reached r
      → mem x r ≡ true
      → lookup x model.shapes ≡ some (structure members)
      → HasMember members y
      → IsResolved model.shapes r y (resolve_pie_type y model.shapes)
  unfolding resolve_pie_type
  resolve_pie_type-IsResolved x y members e m s h =
      let c = subst (Collected model names) e (collect_reachable_shapes-Collected model names) in
      let n = (c.1 y).1 (made_of x y (structure members) ((c.1 x).0 m) s h) in
      shape_type-IsResolved model.shapes r y (lookup y model.shapes) refl n (c.2 y n)
