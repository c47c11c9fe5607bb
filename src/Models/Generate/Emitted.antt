-- ===== src/Models/Generate/Emitted.antt =====
-- The types of the fields and the results that generate_pie takes from a parsed model.
use lambpie.Common.{
  ◌≡◌, refl, ap, ◌⊎◌, inl, inr, String, Bool, true, false, Bool-cases, Option, none, some, List, [],
  ◌∷◌, All, ◌==◌, eq_iff,
}
use lambpie.Common.Dict.{Dict, lookup, contains, All-lookup}
use lambpie.Models.Order.{text_lt}
use lambpie.Models.Sorting.{insert_item, sorted_items}
use lambpie.Models.Service.{FieldInfo, ShapeDef, class_def, alias}
use lambpie.Models.Parse.Finds.{IsClass}
use lambpie.Models.Parse.Classes.{IsClosed, IsPieType}
use lambpie.Models.Parse.Entries.{All-weaken}
use lambpie.Models.Generate.{
  ClassInfo, classes, structure_shapes, return_type, output_type, alias_type,
}

not_none : {V : Type 0} {v : V} → none ≡ some v → ⊥
not_none e = cc

some_path : {V : Type 0} {v w : V} → some v ≡ some w → v ≡ w
some_path e = cc

not_class :
    {t : String} {fields : Dict FieldInfo} {required : List String}
    → alias t ≡ class_def fields required
    → ⊥
not_class e = cc

module _ {V : Type 0} (k : String) (v : V) where
  abbrev Occurs : Dict V → Type 0
  Occurs [] = ⊥
  Occurs (x ∷ d) = (x ≡ (k, v)) ⊎ Occurs d

  lookup-Occurs : (d : Dict V) → lookup k d ≡ some v → Occurs d
  unfolding lookup
  lookup-Occurs [] e = absurd (not_none e)
  lookup-Occurs ((j, w) ∷ d) e = elim (Bool-cases (j == k)) [
    | inl hit ↦
        let p = (eq_iff j k).0 hit in let q = some_path (rw hit at e) in inl (λ i. (p i, q i))
    | inr miss ↦ inr (lookup-Occurs d (rw miss at e))
  ]

  insert_item-Occurs :
      (x : String × V) (d : Dict V) → (x ≡ (k, v)) ⊎ Occurs d → Occurs (insert_item x d)
  unfolding insert_item
  insert_item-Occurs x [] h = h
  insert_item-Occurs x (y ∷ d) h = elim (Bool-cases (text_lt y.0 x.0)) [
    | inl less ↦ rw less (elim h [
      | inl e ↦ inr (insert_item-Occurs x d (inl e))
      | inr (inl e) ↦ inl e
      | inr (inr o) ↦ inr (insert_item-Occurs x d (inr o))
    ])
    | inr more ↦ rw more h
  ]

  sorted_items-Occurs : (d : Dict V) → Occurs d → Occurs (sorted_items d)
  unfolding sorted_items
  sorted_items-Occurs [] h = h
  sorted_items-Occurs (x ∷ d) (inl e) = insert_item-Occurs x _ (inl e)
  sorted_items-Occurs (x ∷ d) (inr o) = insert_item-Occurs x _ (inr (sorted_items-Occurs d o))

contains_here :
    (n k : String) (c : ClassInfo) (d : Dict ClassInfo) → n ≡ k → contains k ((n, c) ∷ d) ≡ true
unfolding contains lookup
contains_here n k c d e = rw (contains, (eq_iff n k).1 e) refl

contains_later :
    (n k : String) (c : ClassInfo) (d : Dict ClassInfo)
    → contains k d ≡ true
    → contains k ((n, c) ∷ d) ≡ true
unfolding contains lookup
contains_later n k c d h = elim (Bool-cases (n == k)) [
  | inl hit ↦ rw (contains, hit) refl
  | inr miss ↦ rw (contains, miss) h
]

classes-contains :
    (k : String) (fields : Dict FieldInfo) (required : List String) (d : Dict ShapeDef)
    → Occurs k (class_def fields required) d
    → contains k (classes d) ≡ true
unfolding classes
classes-contains k fields required ((n, class_def f r) ∷ d) (inl e) =
    contains_here n k (f, r) (classes d) (ap (λ x. x.0) e)
classes-contains k fields required ((n, class_def f r) ∷ d) (inr o) =
    contains_later n k (f, r) (classes d) (classes-contains k fields required d o)
classes-contains k fields required ((n, alias t) ∷ d) (inl e) = absurd (not_class (ap (λ x. x.1) e))
classes-contains k fields required ((n, alias t) ∷ d) (inr o) =
    classes-contains k fields required d o
classes-contains k fields required [] o = absurd o

pub class_emitted :
    (defs : Dict ShapeDef) (k : String) → IsClass defs k → contains k (structure_shapes defs) ≡ true
unfolding structure_shapes
class_emitted defs k (fields, (required, e)) = classes-contains k fields required _ (
    sorted_items-Occurs k (class_def fields required) defs
      (lookup-Occurs k (class_def fields required) defs e))

opposite : {b : Bool} → b ≡ true → b ≡ false → ⊥
opposite e f = cc

-- `str`, `int` or a class that generate_pie writes
abbrev pub IsEmitted : Dict ShapeDef → String → Type 0
IsEmitted defs t = (t ≡ "str") ⊎ ((t ≡ "int") ⊎ (contains t (structure_shapes defs) ≡ true))

emitted : (defs : Dict ShapeDef) (t : String) → IsPieType defs t → IsEmitted defs t
emitted defs t (inl s) = inl s
emitted defs t (inr (inl i)) = inr (inl i)
emitted defs t (inr (inr c)) = inr (inr (class_emitted defs t c))

pub classes-Emitted :
    (defs d : Dict ShapeDef)
    → All (λ x. IsClosed defs x.1) d
    → All (λ c. All (λ f. IsEmitted defs f.1.pie_type) c.1.0) (classes d)
unfolding classes
classes-Emitted defs [] h = tt
classes-Emitted defs ((n, class_def f r) ∷ d) h =
    (All-weaken f (λ g t. emitted defs g.1.pie_type t) h.0, classes-Emitted defs d h.1)
classes-Emitted defs ((n, alias t) ∷ d) h = classes-Emitted defs d h.1

module _ (defs : Dict ShapeDef) (closed : All (λ d. IsClosed defs d.1) defs) where
  pub alias-Emitted :
      (name : String) (o : Option ShapeDef)
      → lookup name defs ≡ o
      → contains name (structure_shapes defs) ≡ false
      → IsEmitted defs (alias_type defs o)
  unfolding alias_type
  alias-Emitted name none l c = inr (inl refl)
  alias-Emitted name (some (alias t)) l c =
      elim (All-lookup (IsClosed defs) name defs (alias t) closed l) [
        | inl s ↦ inl s
        | inr i ↦ inr (inl i)
      ]
  alias-Emitted name (some (class_def fields required)) l c =
      absurd (opposite (class_emitted defs name (fields, (required, l))) c)

  output-Emitted :
      (name : String) (o : Option ClassInfo)
      → lookup name (structure_shapes defs) ≡ o
      → IsEmitted defs (output_type defs name o)
  unfolding output_type contains
  output-Emitted name none l = alias-Emitted name (lookup name defs) refl (rw (contains, l) refl)
  output-Emitted name (some info) l = inr (inr (rw (contains, l) refl))

  pub return-Emitted : (o : Option String) → IsEmitted defs (return_type defs o)
  unfolding return_type
  return-Emitted none = inr (inl refl)
  return-Emitted (some name) = elim (Bool-cases (name == "")) [
    | inl empty ↦ rw empty (inr (inl refl))
    | inr full ↦ rw full (output-Emitted name _ refl)
  ]
