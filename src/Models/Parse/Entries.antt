-- ===== src/Models/Parse/Entries.antt =====
-- What stands in the dicts that `parse` returns, member by member and shape by shape.
use lambpie.Common.{
  ◌≡◌, refl, ap, inl, inr, String, Bool, true, false, Bool-cases, Option, none, some, List, [], ◌∷◌,
  All, map, if◌then◌else◌, ◌==◌,
}
use mathlib.Core.Path.{subst}
use lambpie.Common.Dict.{Dict, lookup}
use lambpie.Models.Shapes.{mem}
use lambpie.Models.Types.{
  Resolved, pie_type, type_error, not_implemented, runtime_error, botocore_scalar_to_pie,
  resolve_pie_type,
}
use lambpie.Models.Needs.{HasMember}
use lambpie.Models.Members.{in_front, behind}
use lambpie.Models.Service.{
  Failure, Checked, ok, fail, MemberInfo, ShapeInfo, structure_info, list_info, map_info,
  scalar_info, FieldInfo, ShapeDef, class_def, alias, shape_of, shapes_of,
}
use lambpie.Models.Parse.{
  keep_member, parse_members, parse_structure_shape, keep_scalar, keep_shape, parse_names,
}
use lambpie.Models.Parse.Skips.{bind-ok, failed}

pub ok_path : {A : Type 0} {a b : A} → ok a ≡ ok b → a ≡ b
ok_path e = cc

pub All-weaken :
    {A : Type 0} {P Q : A → Type 0} (xs : List A) → ((x : A) → P x → Q x) → All P xs → All Q xs
All-weaken [] f h = tt
All-weaken (x ∷ xs) f h = (f x h.0, All-weaken xs f h.1)

pub skipped :
    {A : Type 0} {a : A} (b : Bool) (x : Failure) (rest : Checked A)
    → (if b then rest else fail x) ≡ ok a
    → rest ≡ ok a
skipped true x rest e = e
skipped false x rest e = absurd (failed e)

pub shapes_of-some :
    (n : String) (d : Dict ShapeInfo) (s : ShapeInfo)
    → lookup n d ≡ some s
    → lookup n (shapes_of d) ≡ some (shape_of s)
unfolding shapes_of lookup
shapes_of-some n [] s e = cc
shapes_of-some n ((m, t) ∷ d) s e = elim (Bool-cases (m == n)) [
  | inl hit ↦ rw hit (ap (λ o. elim o [ none ↦ none | some x ↦ some (shape_of x) ]) (rw hit at e))
  | inr miss ↦ rw miss (shapes_of-some n d s (rw miss at e))
]

pub shapes_of-none :
    (n : String) (d : Dict ShapeInfo) → lookup n d ≡ none → lookup n (shapes_of d) ≡ none
unfolding shapes_of lookup
shapes_of-none n [] e = refl
shapes_of-none n ((m, t) ∷ d) e = elim (Bool-cases (m == n)) [
  | inl hit ↦ let q : ◌≡◌ {A = Option ShapeInfo} (some t) none = rw hit at e in cc
  | inr miss ↦ rw miss (shapes_of-none n d (rw miss at e))
]

abbrev pub shape_names : Dict MemberInfo → Dict String
shape_names members = map (λ m. (m.0, m.1.shape)) members

module _ (skip : Bool) (shapes : Dict ShapeInfo) (required : List String) where
  -- a field is of a member, whose type it has
  abbrev pub Came : Dict MemberInfo → String × FieldInfo → Type 0
  Came members f =
      (y : String) × HasMember (shape_names members) y
      × (resolve_pie_type y (shapes_of shapes) ≡ pie_type f.1.pie_type)
      × (f.1.required ≡ mem f.0 required)

  wider :
      (m : String × MemberInfo) (members : Dict MemberInfo) (fields : Dict FieldInfo)
      → All (Came members) fields
      → All (Came (m ∷ members)) fields
  wider m members fields h = All-weaken fields (λ f (y, i, k, q). (y, inr i, k, q)) h

  keep_member-Came :
      (m : String × MemberInfo) (members : Dict MemberInfo) (r : Resolved)
      → resolve_pie_type m.1.shape (shapes_of shapes) ≡ r
      → (rest : Checked (Dict FieldInfo))
      → ((fields : Dict FieldInfo) → rest ≡ ok fields → All (Came members) fields)
      → (fields : Dict FieldInfo) → keep_member skip shapes required m r rest ≡ ok fields
      → All (Came (m ∷ members)) fields
  unfolding keep_member
  keep_member-Came m members (pie_type t) q rest k fields e =
      let (old, p, new) = bind-ok rest _ fields e in
      subst (All (Came (m ∷ members))) (ok_path new)
        ((m.1.shape, inl refl, q, refl), wider m members old (k old p))
  keep_member-Came m members not_implemented q rest k fields e =
      wider m members fields (k fields (skipped skip _ rest e))
  keep_member-Came m members type_error q rest k fields e = absurd (failed e)
  keep_member-Came m members runtime_error q rest k fields e = absurd (failed e)

  pub parse_members-Came :
      (members : Dict MemberInfo) (fields : Dict FieldInfo)
      → parse_members skip shapes required members ≡ ok fields
      → All (Came members) fields
  unfolding parse_members
  parse_members-Came [] fields e = subst (All (Came [])) (ok_path e) tt
  parse_members-Came (m ∷ members) fields e =
      keep_member-Came m members _ refl _ (parse_members-Came members) fields e

module _ (skip : Bool) (shapes : Dict ShapeInfo) where
  -- a class is of a structure among the names, and has its fields
  abbrev pub Stands : List String → String × ShapeDef → Type 0
  Stands ns (x, class_def fields required_members) =
      (mem x ns ≡ true)
      × ((members : Dict MemberInfo) × ((required : List String) × ((lookup x shapes
                ≡ some (structure_info members required))
              × (parse_structure_shape skip shapes members required
                  ≡ ok (class_def fields required_members)))))
  Stands ns (x, alias t) = (u : String) × (botocore_scalar_to_pie u ≡ pie_type t)

  more_names :
      (n : String) (ns : List String) (d : String × ShapeDef) → Stands ns d → Stands (n ∷ ns) d
  more_names n ns (x, class_def fields required) (m, h) = (behind x n ns m, h)
  more_names n ns (x, alias t) h = h

  more_defs :
      (n : String) (ns : List String) (defs : Dict ShapeDef)
      → All (Stands ns) defs
      → All (Stands (n ∷ ns)) defs
  more_defs n ns defs h = All-weaken defs (more_names n ns) h

  keep_scalar-Stands :
      (n : String) (ns : List String) (u : String) (r : Resolved)
      → botocore_scalar_to_pie u ≡ r
      → (rest : Checked (Dict ShapeDef))
      → ((defs : Dict ShapeDef) → rest ≡ ok defs → All (Stands ns) defs)
      → (defs : Dict ShapeDef) → keep_scalar skip shapes n r rest ≡ ok defs
      → All (Stands (n ∷ ns)) defs
  unfolding keep_scalar
  keep_scalar-Stands n ns u (pie_type t) q rest k defs e =
      let (old, p, new) = bind-ok rest _ defs e in
      subst (All (Stands (n ∷ ns))) (ok_path new) ((u, q), more_defs n ns old (k old p))
  keep_scalar-Stands n ns u not_implemented q rest k defs e =
      more_defs n ns defs (k defs (skipped skip _ rest e))
  keep_scalar-Stands n ns u type_error q rest k defs e =
      more_defs n ns defs (k defs (skipped skip _ rest e))
  keep_scalar-Stands n ns u runtime_error q rest k defs e =
      more_defs n ns defs (k defs (skipped skip _ rest e))

  no_alias :
      (members : Dict MemberInfo) (required : List String) (t : String)
      → parse_structure_shape skip shapes members required ≡ ok (alias t)
      → ⊥
  unfolding parse_structure_shape
  no_alias members required t e =
      let (fields, p, q) = bind-ok (parse_members skip shapes required members) _ (alias t) e in
      let z = ok_path q in cc

  structure-Stands :
      (n : String) (ns : List String) (members : Dict MemberInfo) (required : List String)
      → lookup n shapes ≡ some (structure_info members required)
      → (entry : ShapeDef) → parse_structure_shape skip shapes members required ≡ ok entry
      → Stands (n ∷ ns) (n, entry)
  structure-Stands n ns members required l (class_def fields r) e =
      (in_front n n ns refl, (members, (required, (l, e))))
  structure-Stands n ns members required l (alias t) e = absurd (no_alias members required t e)

  keep_shape-Stands :
      (n : String) (ns : List String) (o : Option ShapeInfo)
      → lookup n shapes ≡ o
      → (rest : Checked (Dict ShapeDef))
      → ((defs : Dict ShapeDef) → rest ≡ ok defs → All (Stands ns) defs)
      → (defs : Dict ShapeDef) → keep_shape skip shapes n o rest ≡ ok defs
      → All (Stands (n ∷ ns)) defs
  unfolding keep_shape
  keep_shape-Stands n ns none l rest k defs e = absurd (failed e)
  keep_shape-Stands n ns (some (structure_info members required)) l rest k defs e =
      let (entry, p, e') = bind-ok (parse_structure_shape skip shapes members required) _ defs e in
      let (old, p', new) = bind-ok rest _ defs e' in
      subst (All (Stands (n ∷ ns))) (ok_path new)
        (structure-Stands n ns members required l entry p, more_defs n ns old (k old p'))
  keep_shape-Stands n ns (some (list_info member)) l rest k defs e =
      more_defs n ns defs (k defs (skipped skip _ rest e))
  keep_shape-Stands n ns (some (map_info key value)) l rest k defs e =
      more_defs n ns defs (k defs (skipped skip _ rest e))
  keep_shape-Stands n ns (some (scalar_info t)) l rest k defs e =
      keep_scalar-Stands n ns t _ refl rest k defs e

  pub parse_names-Stands :
      (ns : List String) (defs : Dict ShapeDef)
      → parse_names skip shapes ns ≡ ok defs
      → All (Stands ns) defs
  unfolding parse_names
  parse_names-Stands [] defs e = subst (All (Stands [])) (ok_path e) tt
  parse_names-Stands (n ∷ ns) defs e =
      keep_shape-Stands n ns _ refl _ (parse_names-Stands ns) defs e
