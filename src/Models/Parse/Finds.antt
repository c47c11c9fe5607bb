-- ===== src/Models/Parse/Finds.antt =====
-- Every structure among the names becomes a class of the result.
use lambpie.Common.{
  ◌≡◌, refl, sym, ◌∙◌, ap, inl, inr, String, Bool, true, false, Bool-cases, Option, none, some,
  List, [], ◌∷◌, ◌==◌, eq_iff,
}
use mathlib.Core.Path.{subst}
use lambpie.Common.Dict.{Dict, lookup}
use lambpie.Models.Shapes.{mem}
use lambpie.Models.Types.{Resolved, pie_type, type_error, not_implemented, runtime_error}
use lambpie.Models.Members.{uncons}
use lambpie.Models.Service.{
  Checked, ok, MemberInfo, ShapeInfo, structure_info, list_info, map_info, scalar_info, FieldInfo,
  ShapeDef, class_def, alias,
}
use lambpie.Models.Parse.{
  parse_members, parse_structure_shape, keep_scalar, keep_shape, parse_names,
}
use lambpie.Models.Parse.Skips.{bind-ok, failed}
use lambpie.Models.Parse.Entries.{ok_path, skipped}

-- a class is there by this name
abbrev pub IsClass : Dict ShapeDef → String → Type 0
IsClass defs x =
    (fields : Dict FieldInfo) × ((required : List String) × (lookup x defs
        ≡ some (class_def fields required)))

abbrev IsOther : Option ShapeInfo → Type 0
IsOther (some (structure_info members required)) = ⊥
IsOther _ = Unit

differ : {b : Bool} → b ≡ true → b ≡ false → ⊥
differ e f = cc

IsClass-in_front :
    (x n : String) (entry : ShapeDef) (fields : Dict FieldInfo) (required : List String)
    (defs : Dict ShapeDef)
    → n == x ≡ true
    → entry ≡ class_def fields required
    → IsClass ((n, entry) ∷ defs) x
unfolding lookup
IsClass-in_front x n entry fields required defs hit e = (fields, (required, rw hit (ap some e)))

IsClass-behind :
    (x n : String) (entry : ShapeDef) (defs : Dict ShapeDef)
    → n == x ≡ false
    → IsClass defs x
    → IsClass ((n, entry) ∷ defs) x
unfolding lookup
IsClass-behind x n entry defs miss (fields, (required, e)) = (fields, (required, rw miss e))

module _ (skip : Bool) (shapes : Dict ShapeInfo) (x : String) (of : Dict MemberInfo)
    (must : List String) (lx : lookup x shapes ≡ some (structure_info of must)) where
  elsewhere :
      (n : String) (ns : List String) (o : Option ShapeInfo)
      → lookup n shapes ≡ o
      → IsOther o
      → mem x (n ∷ ns) ≡ true
      → mem x ns ≡ true
  elsewhere n ns o l other m = elim (uncons x n ns m) [
    | inl e ↦ absurd (subst IsOther (sym l ∙ ap (λ z. lookup z shapes) (sym e) ∙ lx) other)
    | inr i ↦ i
  ]

  other_name :
      (n : String) (o : Option ShapeInfo) → lookup n shapes ≡ o → IsOther o → n == x ≡ false
  other_name n o l other = elim (Bool-cases (n == x)) [
    | inl hit ↦
        absurd (subst IsOther (sym l ∙ ap (λ z. lookup z shapes) ((eq_iff n x).0 hit) ∙ lx) other)
    | inr miss ↦ miss
  ]

  -- the class is among what the names give, if it is one of them
  unfoldable pub Finds : List String → Checked (Dict ShapeDef) → Type 0
  Finds ns r = (defs : Dict ShapeDef) → r ≡ ok defs → mem x ns ≡ true → IsClass defs x

  keep_scalar-Finds :
      (n : String) (ns : List String) (o : Option ShapeInfo) (r : Resolved)
      (rest : Checked (Dict ShapeDef))
      → lookup n shapes ≡ o
      → IsOther o
      → Finds ns rest
      → Finds (n ∷ ns) (keep_scalar skip shapes n r rest)
  unfolding keep_scalar Finds
  keep_scalar-Finds n ns o (pie_type t) rest l other k = λ defs e m.
      let (old, p, new) = bind-ok rest _ defs e in
      subst (λ d. IsClass d x) (ok_path new)
        (IsClass-behind x n (alias t) old (other_name n o l other)
          (k old p (elsewhere n ns o l other m)))
  keep_scalar-Finds n ns o not_implemented rest l other k =
      λ defs e m. k defs (skipped skip _ rest e) (elsewhere n ns o l other m)
  keep_scalar-Finds n ns o type_error rest l other k =
      λ defs e m. k defs (skipped skip _ rest e) (elsewhere n ns o l other m)
  keep_scalar-Finds n ns o runtime_error rest l other k =
      λ defs e m. k defs (skipped skip _ rest e) (elsewhere n ns o l other m)

  structure-Finds :
      (n : String) (ns : List String) (members : Dict MemberInfo) (required : List String)
      (rest : Checked (Dict ShapeDef))
      → Finds ns rest
      → (entry : ShapeDef) → parse_structure_shape skip shapes members required ≡ ok entry
      → (old : Dict ShapeDef) → rest ≡ ok old
      → mem x (n ∷ ns) ≡ true
      → IsClass ((n, entry) ∷ old) x
  unfolding parse_structure_shape Finds
  structure-Finds n ns members required rest k entry p old p' m = elim (Bool-cases (n == x)) [
    | inl hit ↦
        let (fields, q, r) = bind-ok (parse_members skip shapes required members) _ entry p in
        IsClass-in_front x n entry fields _ old hit (sym (ok_path r))
    | inr miss ↦ IsClass-behind x n entry old miss (
        k old p' (elim (uncons x n ns m) [
          | inl e ↦ absurd (differ ((eq_iff n x).1 (sym e)) miss)
          | inr i ↦ i
        ]))
  ]

  keep_shape-Finds :
      (n : String) (ns : List String) (o : Option ShapeInfo)
      → lookup n shapes ≡ o
      → (rest : Checked (Dict ShapeDef)) → Finds ns rest
      → Finds (n ∷ ns) (keep_shape skip shapes n o rest)
  unfolding keep_shape Finds
  keep_shape-Finds n ns none l rest k = λ defs e m. absurd (failed e)
  keep_shape-Finds n ns (some (structure_info members required)) l rest k = λ defs e m.
      let (entry, p, e') = bind-ok (parse_structure_shape skip shapes members required) _ defs e in
      let (old, p', new) = bind-ok rest _ defs e' in
      subst (λ d. IsClass d x) (ok_path new)
        (structure-Finds n ns members required rest k entry p old p' m)
  keep_shape-Finds n ns (some (list_info member)) l rest k =
      λ defs e m. k defs (skipped skip _ rest e) (elsewhere n ns _ l tt m)
  keep_shape-Finds n ns (some (map_info key value)) l rest k =
      λ defs e m. k defs (skipped skip _ rest e) (elsewhere n ns _ l tt m)
  keep_shape-Finds n ns (some (scalar_info t)) l rest k =
      keep_scalar-Finds n ns (some (scalar_info t)) _ rest l tt k

  pub parse_names-Finds : (ns : List String) → Finds ns (parse_names skip shapes ns)
  unfolding parse_names Finds mem
  parse_names-Finds [] = λ defs e m. absurd (differ m refl)
  parse_names-Finds (n ∷ ns) = keep_shape-Finds n ns _ refl _ (parse_names-Finds ns)
