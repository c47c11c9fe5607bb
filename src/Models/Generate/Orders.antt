-- ===== src/Models/Generate/Orders.antt =====
-- The order of the fields of a class, and of the parameters of a stub.
use lambpie.Common.{
  ◌≡◌, ◌≢◌, ◌==◌, refl, ap, inl, inr, String, Bool, true, false, not, Bool-cases, some, List, [],
  ◌∷◌, ◌++◌, All, map, concat,
}
use mathlib.Core.List.{Perm, perm_middle}
use mathlib.Core.List.Perm
use lambpie.Common.Dict.{Dict, lookup}
use lambpie.Models.Order.{text_lt}
use lambpie.Models.Shapes.{mem}
use lambpie.Models.Sorting.{insert_item, sorted_items, IsOrdered, sorted_items-Perm}
use lambpie.Models.Service.{FieldInfo, ShapeDef}
use lambpie.Models.Generate.{
  items_where, required_first, stub_fields, structure_shapes, field_line, param, class_body,
  input_params, named_params,
}

module _ {V : Type 0} where
  items_where-Perm :
      (p : String → Bool) (d : Dict V) → Perm (items_where p d ++ items_where (λ n. not (p n)) d) d
  unfolding items_where
  items_where-Perm p [] = Perm.refl _
  items_where-Perm p (x ∷ d) = elim (Bool-cases (p x.0)) [
    | inl kept ↦ rw kept (Perm.cons x (items_where-Perm p d))
    | inr left ↦ rw left (Perm.trans (perm_middle _ _) (Perm.cons x (items_where-Perm p d)))
  ]

  items_where-All : (p : String → Bool) (d : Dict V) → All (λ x. p x.0 ≡ true) (items_where p d)
  unfolding items_where
  items_where-All p [] = tt
  items_where-All p (x ∷ d) = elim (Bool-cases (p x.0)) [
    | inl kept ↦ rw kept (kept, items_where-All p d)
    | inr left ↦ rw left (items_where-All p d)
  ]

  pub insert_item-All :
      (P : String × V → Type 0) (x : String × V) (d : Dict V)
      → P x
      → All P d
      → All P (insert_item x d)
  unfolding insert_item
  insert_item-All P x [] h k = (h, tt)
  insert_item-All P x (y ∷ d) h k = elim (Bool-cases (text_lt y.0 x.0)) [
    | inl less ↦ rw less (k.0, insert_item-All P x d h k.1)
    | inr more ↦ rw more (h, k)
  ]

  pub sorted_items-All : (P : String × V → Type 0) (d : Dict V) → All P d → All P (sorted_items d)
  unfolding sorted_items
  sorted_items-All P [] h = tt
  sorted_items-All P (x ∷ d) h = insert_item-All P x _ h.0 (sorted_items-All P d h.1)

-- The fields named in `required` come first and then the others, each group in the order of the
-- names, and every field is there once.
abbrev pub IsRequiredFirst : List String → Dict FieldInfo → Dict FieldInfo → Type 0
IsRequiredFirst required fields sorted =
    (first : Dict FieldInfo) × ((second : Dict FieldInfo) × ((sorted ≡ first ++ second)
        × (All (λ f. mem f.0 required ≡ true) first
            × (All (λ f. not (mem f.0 required) ≡ true) second
                × (IsOrdered first × (IsOrdered second × Perm sorted fields))))))

-- For every class, the fields that generate_pie writes are its members, each once: first the
-- required ones, then the others, each group in the order of the names.
pub required_first-IsRequiredFirst :
    (fields : Dict FieldInfo) (required : List String)
    → IsRequiredFirst required fields (required_first (fields, required))
unfolding required_first
required_first-IsRequiredFirst fields required =
    let (a, p) = sorted_items-Perm (items_where (λ n. mem n required) fields) in
    let (b, q) = sorted_items-Perm (items_where (λ n. not (mem n required)) fields) in
    (
      sorted_items (items_where (λ n. mem n required) fields),
      (
        sorted_items (items_where (λ n. not (mem n required)) fields),
        (
          refl,
          (
            sorted_items-All _ _ (items_where-All (λ n. mem n required) fields),
            (
              sorted_items-All _ _ (items_where-All (λ n. not (mem n required)) fields),
              (
                a,
                (b, Perm.trans (Perm.append p q) (items_where-Perm (λ n. mem n required) fields)),
              ),
            ),
          ),
        ),
      ),
    )

-- a field's line is its parameter, indented
lines-params : (d : Dict FieldInfo) → map field_line d ≡ map (λ t. concat "    " t) (map param d)
unfolding field_line param
lines-params [] = refl
lines-params ((n, i) ∷ d) =
    ap (λ r. concat "    " (concat n (concat ": " i.pie_type)) ∷ r) (lines-params d)

body-params :
    (fields : Dict FieldInfo) (required : List String)
    → fields ≢ []
    → class_body (fields, required)
      ≡ map (λ t. concat "    " t) (map param (stub_fields (fields, required)))
unfolding class_body required_first stub_fields
body-params [] required n = absurd (n refl)
body-params (f ∷ fields) required n = lines-params _

module _ (shapes : Dict ShapeDef) (name : String) (fields : Dict FieldInfo)
    (required : List String) where
  -- Where the input of an operation is a class with members: the lines that the class loop writes
  -- as its body are the parameters that the loop over the operations, which orders and prints the
  -- members by code of its own, gives the stub behind the endpoint, in the same order, each
  -- indented.
  pub class_body-input_params :
      lookup name (structure_shapes shapes) ≡ some (fields, required)
      → fields ≢ []
      → (name == "") ≡ false
      → class_body (fields, required) ≡ map (λ t. concat "    " t) (input_params shapes (some name))
  unfolding input_params named_params
  class_body-input_params e n full = rw (full, e) (body-params fields required n)
