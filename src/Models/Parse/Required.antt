-- ===== src/Models/Parse/Required.antt =====
-- The required members of a parsed class.
use lambpie.Common.{
  ◌≡◌, refl, sym, ◌∙◌, ap, String, Bool, true, Bool-cases, inl, inr, List, [], ◌∷◌, All, ◌&&◌, ◌||◌,
  ◌==◌, eq_iff, eq_refl, arith, if◌then◌else◌,
}
use mathlib.Core.Path.{subst}
use lambpie.Common.Dict.{Dict, lookup, contains}
use lambpie.Models.Shapes.{mem}
use lambpie.Models.Sorting.{sorted_set, IsAscending, sorted_set-IsAscending, mem-sorted_set}
use lambpie.Models.Service.{ok, MemberInfo, ShapeInfo, FieldInfo, ShapeDef, class_def, alias}
use lambpie.Models.Parse.{common_names, parse_members, parse_structure_shape}
use lambpie.Models.Parse.Skips.{bind-ok}
use lambpie.Models.Parse.Entries.{ok_path, All-weaken, Came, parse_members-Came}

contains_first :
    (n : String) (f : FieldInfo) (fields : Dict FieldInfo) → contains n ((n, f) ∷ fields) ≡ true
unfolding contains lookup
contains_first n f fields = rw (contains, eq_refl n) refl

contains_more :
    (n : String) (g : String × FieldInfo) (fields : Dict FieldInfo)
    → contains n fields ≡ true
    → contains n (g ∷ fields) ≡ true
unfolding contains lookup
contains_more n (m, g) fields c = elim (Bool-cases (m == n)) [
  | inl hit ↦ rw (contains, hit) refl
  | inr miss ↦ rw (contains, miss) c
]

contains-All : (fields : Dict FieldInfo) → All (λ f. contains f.0 fields ≡ true) fields
contains-All [] = tt
contains-All ((n, f) ∷ fields) = (
  contains_first n f fields,
  All-weaken fields (λ g c. contains_more g.0 (n, f) fields c) (contains-All fields),
)

keep-mem :
    (n m : String) (b c : Bool) (rest ms : List String)
    → (n ≡ m → b ≡ c)
    → mem n rest ≡ (mem n ms && c)
    → mem n (if b then m ∷ rest else rest) ≡ ((n == m || mem n ms) && c)
unfolding mem
keep-mem n m b c rest ms same h = ground (arith, eq_iff n m, h)

mem-common_names :
    (n : String) (ns : List String) (fields : Dict FieldInfo)
    → mem n (common_names ns fields) ≡ (mem n ns && contains n fields)
unfolding mem common_names
mem-common_names n [] fields = refl
mem-common_names n (m ∷ ns) fields =
    keep-mem n m (contains m fields) (contains n fields) _ ns
      (λ e. ap (λ z. contains z fields) (sym e)) (mem-common_names n ns fields)

both_true : (a b c : Bool) → a ≡ b → c ≡ true → a ≡ (b && c)
both_true a b c e f = ground arith

flags :
    {A : Type 0} {P Q T : A → Type 0} (xs : List A)
    → ((x : A) → P x → Q x → T x)
    → All P xs
    → All Q xs
    → All T xs
flags [] f h k = tt
flags (x ∷ xs) f h k = (f x h.0 k.0, flags xs f h.1 k.1)

-- what the class says of its required members
abbrev pub Agree : List String → ShapeDef → Type 0
Agree required (alias t) = Unit
Agree required (class_def fields names) =
    IsAscending names
    × ((n : String) → mem n names ≡ (mem n required && contains n fields))
    × All (λ f. f.1.required ≡ mem f.0 names) fields

module _ (skip : Bool) (shapes : Dict ShapeInfo) (members : Dict MemberInfo)
    (required : List String) where
  fields-Agree :
      (fields : Dict FieldInfo)
      → All (Came skip shapes required members) fields
      → Agree required (class_def fields (sorted_set (common_names required fields)))
  fields-Agree fields came =
      let just : (n : String)
          → mem n (sorted_set (common_names required fields))
            ≡ (mem n required && contains n fields) =
        λ n. mem-sorted_set n _ ∙ mem-common_names n required fields in
      (
        sorted_set-IsAscending _,
        just,
        flags fields (λ f (y, h, k, q) c. both_true _ _ _ q c ∙ sym (just f.0)) came
            (contains-All fields),
      )

  -- Where `_parse_structure_shape` returns a class: its required members are in order, each once, and
  -- are just those of the shape's "required" that are fields of the class; and the flag of each
  -- field says whether it is one of them.
  pub parse_structure_shape-Agree :
      (def : ShapeDef)
      → parse_structure_shape skip shapes members required ≡ ok def
      → Agree required def
  unfolding parse_structure_shape
  parse_structure_shape-Agree def e =
      let (fields, p, q) = bind-ok (parse_members skip shapes required members) _ def e in
      subst (Agree required) (ok_path q)
        (fields-Agree fields (parse_members-Came skip shapes required members fields p))
