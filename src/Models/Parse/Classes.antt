-- ===== src/Models/Parse/Classes.antt =====
-- Which types the fields of the parsed classes have.
use lambpie.Common.{
  ◌≡◌, refl, sym, ◌∙◌, ap, ◌⊎◌, inl, inr, String, Bool, true, Bool-cases, Option, none, some, List,
  All,
}
use mathlib.Core.Path.{subst}
use lambpie.Common.Dict.{Dict, lookup}
use lambpie.Models.Shapes.{
  Shape, Outcome, reached, undefined_shape, unknown_operation, no_fuel, mem,
  collect_reachable_shapes,
}
use lambpie.Models.Types.{
  pie_type, type_error, botocore_scalar_to_pie, mapped, scalar_type_map, compound_types,
}
use lambpie.Models.Closed.{
  IsShape, IsStructure, IsResolved, resolve_pie_type-IsResolved, scalar_types,
}
use lambpie.Models.Sorting.{sorted_set, mem-sorted_set}
use lambpie.Models.Service.{
  ok, MemberInfo, ShapeInfo, structure_info, list_info, map_info, scalar_info, OperationInfo,
  ServiceModel, FieldInfo, ShapeDef, class_def, alias, Parsed, shape_of, shapes_of,
}
use lambpie.Models.Parse.{
  parse_members, parse_structure_shape, parse_names, parse_shapes, parse, present_or_fail,
  reachable_or_fail, outline, parse_service_metadata,
}
use lambpie.Models.Parse.Skips.{bind-ok, failed}
use lambpie.Models.Parse.Entries.{
  ok_path, All-weaken, shapes_of-some, shapes_of-none, Came, parse_members-Came, Stands,
  parse_names-Stands, shape_names,
}
use lambpie.Models.Parse.Finds.{IsClass, Finds, parse_names-Finds}

-- `str`, `int` or a class that is there
abbrev pub IsPieType : Dict ShapeDef → String → Type 0
IsPieType defs t = (t ≡ "str") ⊎ ((t ≡ "int") ⊎ IsClass defs t)

abbrev pub IsClosed : Dict ShapeDef → ShapeDef → Type 0
IsClosed defs (class_def fields required) = All (λ f. IsPieType defs f.1.pie_type) fields
IsClosed defs (alias t) = (t ≡ "str") ⊎ (t ≡ "int")

mapped_types :
    (o : Option String) (u t : String)
    → lookup u scalar_type_map ≡ o
    → mapped o ≡ pie_type t
    → (t ≡ "str") ⊎ (t ≡ "int")
unfolding mapped
mapped_types none u t l e = cc
mapped_types (some v) u t l e = scalar_types u t (l ∙ ap some (let q : v ≡ t = cc in q))

scalar_result : (u t : String) → botocore_scalar_to_pie u ≡ pie_type t → (t ≡ "str") ⊎ (t ≡ "int")
unfolding botocore_scalar_to_pie
scalar_result u t e = elim (Bool-cases (mem u compound_types)) [
  | inl compound ↦ let q : type_error ≡ pie_type t = rw compound at e in cc
  | inr simple ↦ mapped_types (lookup u scalar_type_map) u t refl (rw simple at e)
]

-- a structure among the outlines is one of the model
abbrev IsSource : Dict ShapeInfo → String → Type 0
IsSource shapes t =
    (of : Dict MemberInfo) × ((must : List String) × (lookup t shapes
        ≡ some (structure_info of must)))

structure_of :
    (shapes : Dict ShapeInfo) (t : String) (s : ShapeInfo)
    → lookup t shapes ≡ some s
    → IsStructure (shape_of s)
    → IsSource shapes t
unfolding shape_of
structure_of shapes t (structure_info of must) l h = (of, (must, l))
structure_of shapes t (list_info m) l h = absurd h
structure_of shapes t (map_info k v) l h = absurd h
structure_of shapes t (scalar_info u) l h = absurd h

shape-IsSource :
    (shapes : Dict ShapeInfo) (t : String) (o : Option ShapeInfo)
    → lookup t shapes ≡ o
    → IsShape (shapes_of shapes) t IsStructure
    → IsSource shapes t
shape-IsSource shapes t none l (shape, e, h) =
    let q : ◌≡◌ {A = Option Shape} none (some shape) = sym (shapes_of-none t shapes l) ∙ e in cc
shape-IsSource shapes t (some s) l (shape, e, h) =
    let q : ◌≡◌ {A = Option Shape} (some (shape_of s)) (some shape) =
      sym (shapes_of-some t shapes s l) ∙ e in
    let q' : shape_of s ≡ shape = cc in structure_of shapes t s l (subst IsStructure (sym q') h)

pub was_reached : (o : Outcome) (r : List String) → reachable_or_fail o ≡ ok r → o ≡ reached r
unfolding reachable_or_fail
was_reached (reached s) r e = ap reached (ok_path e)
was_reached (undefined_shape x) r e = absurd (failed e)
was_reached unknown_operation r e = absurd (failed e)
was_reached no_fuel r e = absurd (failed e)

module _ (ops : Dict OperationInfo) (shapes : Dict ShapeInfo) (names : Option (List String))
    (skip : Bool) (r : List String)
    (collected : collect_reachable_shapes (outline ops shapes) names ≡ reached r)
    (defs : Dict ShapeDef) (parsed : parse_names skip shapes (sorted_set r) ≡ ok defs) where
  resolved_type :
      (t : String)
      → (t ≡ "str") ⊎ ((t ≡ "int") ⊎ ((mem t r ≡ true) × IsShape (shapes_of shapes) t IsStructure))
      → IsPieType defs t
  unfolding Finds
  resolved_type t (inl s) = inl s
  resolved_type t (inr (inl i)) = inr (inl i)
  resolved_type t (inr (inr (m, s))) =
      let (of, (must, l)) = shape-IsSource shapes t (lookup t shapes) refl s in
      inr (
        inr (
          parse_names-Finds skip shapes t of must l (sorted_set r) defs parsed
            (mem-sorted_set t r ∙ m)))

  field_type :
      (x : String) (members : Dict MemberInfo) (required : List String)
      → mem x (sorted_set r) ≡ true
      → lookup x shapes ≡ some (structure_info members required)
      → (f : String × FieldInfo) → Came skip shapes required members f
      → IsPieType defs f.1.pie_type
  unfolding shape_of
  field_type x members required m l f (y, h, k, _) = resolved_type f.1.pie_type (
      subst (IsResolved (shapes_of shapes) r y) k (
        resolve_pie_type-IsResolved (outline ops shapes) names r x y (shape_names members) collected
          (sym (mem-sorted_set x r) ∙ m) (shapes_of-some x shapes _ l) h))

  def-Closed : (d : String × ShapeDef) → Stands skip shapes (sorted_set r) d → IsClosed defs d.1
  unfolding parse_structure_shape shape_of
  def-Closed (x, alias t) (u, e) = scalar_result u t e
  def-Closed (x, class_def fields required_members) (m, (members, (required, (l, e)))) =
      let (old, q, z) = bind-ok (parse_members skip shapes required members) _ _ e in
      subst (λ d. IsClosed defs d) (ok_path z)
        (All-weaken old (field_type x members required m l)
          (parse_members-Came skip shapes required members old q))

  pub defs-Closed : All (λ d. IsClosed defs d.1) defs
  defs-Closed = All-weaken defs def-Closed (parse_names-Stands skip shapes _ defs parsed)

module _ (model : ServiceModel) (names : Option (List String)) (skip : Bool) (p : Parsed) where
  -- Where parse returns, each field of each class it lists has the type `str`, `int` or a class that
  -- is listed too, and each other shape it lists is `str` or `int`.
  pub parse-IsClosed : parse model names skip ≡ ok p → All (λ d. IsClosed p.shapes d.1) p.shapes
  unfolding parse parse_shapes
  parse-IsClosed e =
      let (meta, _, e₁) = bind-ok (present_or_fail model.metadata) _ p e in
      let (ops, _, e₂) = bind-ok (present_or_fail model.operations) _ p e₁ in
      let (shapes, _, e₃) = bind-ok (present_or_fail model.shapes) _ p e₂ in
      let (r, c, e₄) =
        bind-ok (reachable_or_fail (collect_reachable_shapes (outline ops shapes) names)) _ p e₃ in
      let (service, _, e₅) = bind-ok (parse_service_metadata meta) _ p e₄ in
      let (defs, d, e₆) = bind-ok (parse_names skip shapes (sorted_set r)) _ p e₅ in
      subst (λ z. All (λ d. IsClosed z.shapes d.1) z.shapes) (ok_path e₆)
        (defs-Closed ops shapes names skip r (was_reached _ r c) defs d)
