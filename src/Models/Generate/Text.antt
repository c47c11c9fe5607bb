-- ===== src/Models/Generate/Text.antt =====
-- The lines that generate_pie writes, by their text.
use lambpie.Common.{
  ◌≡◌, refl, ◌⊎◌, inl, inr, String, Bool, true, false, not, Bool-cases, List, [], ◌∷◌, ◌++◌, All,
  All-append, map, concat, ◌==◌, eq_iff,
}
use mathlib.Core.Path.{subst}
use lambpie.Common.Dict.{Dict, lookup, contains}
use lambpie.Models.Shapes.{mem}
use lambpie.Models.Members.{left, right}
use lambpie.Models.Unvisited.{mem-head}
use lambpie.Models.Sorting.{sorted_items}
use lambpie.Models.Service.{FieldInfo}
use lambpie.Models.Generate.{
  ClassInfo, concat_all, join, items_where, required_first, stub_fields, field_line, param,
  class_body, class_lines, all_lines,
}
use lambpie.Models.Generate.Orders.{sorted_items-All}

-- The type is `str`, `int` or a class that one of the lines begins.
abbrev pub IsDeclared : List String → String → Type 0
IsDeclared lines t =
    (t ≡ "str") ⊎ ((t ≡ "int") ⊎ (mem (concat "class " (concat t ":")) lines ≡ true))

-- a parameter "name: type"
abbrev pub IsParam : List String → String → Type 0
IsParam lines x =
    (t : String) × IsDeclared lines t
    × (((n : String) × (x ≡ concat n (concat ": " t))) ⊎ (x ≡ concat "request: " t))

-- the lines that are the same in every file
abbrev pub fixed_lines : List String
fixed_lines =
    "" ∷ "# --- Type definitions ---" ∷ "    pass"
    ∷ "    pass  # TODO: implement SigV4 + HTTP dispatch" ∷ []

-- One of the lines of a text: one of its comments, a fixed line, or the line of a class, a field or
-- a stub whose types are all declared by the lines.
pub data IsLine (comments lines : List String) (line : String) : Type 0 where
  comment : mem line comments ≡ true → IsLine comments lines line
  fixed : mem line fixed_lines ≡ true → IsLine comments lines line
  class_line :
      (name : String) → line ≡ concat "class " (concat name ":") → IsLine comments lines line
  member_line :
      (name t : String)
      → line ≡ concat "    " (concat name (concat ": " t))
      → IsDeclared lines t
      → IsLine comments lines line
  http_line :
      (http_method uri : String)
      → line ≡ concat_all ("# HTTP " ∷ http_method ∷ " " ∷ uri ∷ [])
      → IsLine comments lines line
  stub_line :
      (name : String) (params : List String) (t : String)
      → line
        ≡ concat_all
            ("def " ∷ name ∷ "(" ∷ join ", " ("endpoint: str" ∷ params) ∷ ") -> " ∷ t ∷ ":" ∷ [])
      → All (IsParam lines) params
      → IsDeclared lines t
      → IsLine comments lines line

module _ (P : String × FieldInfo → Type 0) where
  items_where-keeps : (p : String → Bool) (d : Dict FieldInfo) → All P d → All P (items_where p d)
  unfolding items_where
  items_where-keeps p [] h = tt
  items_where-keeps p (x ∷ d) h = elim (Bool-cases (p x.0)) [
    | inl kept ↦ rw kept (h.0, items_where-keeps p d h.1)
    | inr left_out ↦ rw left_out (items_where-keeps p d h.1)
  ]

  groups-All :
      (p : String → Bool) (d : Dict FieldInfo)
      → All P d
      → All P (sorted_items (items_where p d) ++ sorted_items (items_where (λ n. not (p n)) d))
  groups-All p d h =
      All-append P (sorted_items (items_where p d)) (sorted_items (items_where (λ n. not (p n)) d))
        (sorted_items-All P _ (items_where-keeps p d h))
        (sorted_items-All P _ (items_where-keeps (λ n. not (p n)) d h))

-- every class is begun
pub begun :
    (cs : Dict ClassInfo) (t : String)
    → contains t cs ≡ true
    → mem (concat "class " (concat t ":")) (all_lines class_lines cs) ≡ true
unfolding all_lines class_lines contains lookup
begun [] t h = absurd (let e : false ≡ true = h in cc)
begun ((n, c) ∷ cs) t h = elim (Bool-cases (n == t)) [
  | inl hit ↦ left _ (class_lines (n, c)) (all_lines class_lines cs) (
      subst (λ k. mem (concat "class " (concat k ":")) (class_lines (n, c)) ≡ true)
        ((eq_iff n t).0 hit) (mem-head (concat "class " (concat n ":")) _))
  | inr miss ↦
      right _ (class_lines (n, c)) (all_lines class_lines cs)
        (begun cs t (rw (contains, miss) at h))
]

module _ (comments lines : List String) where
  abbrev Declared : String × FieldInfo → Type 0
  Declared f = IsDeclared lines f.1.pie_type

  field_lines-All :
      (d : Dict FieldInfo) → All Declared d → All (IsLine comments lines) (map field_line d)
  unfolding field_line
  field_lines-All [] h = tt
  field_lines-All ((n, i) ∷ d) (h, k) = (member_line n i.pie_type refl h, field_lines-All d k)

  class_body-All :
      (fields : Dict FieldInfo) (required : List String)
      → All Declared fields
      → All (IsLine comments lines) (class_body (fields, required))
  unfolding class_body required_first mem
  class_body-All [] required h = (fixed refl, tt)
  class_body-All (f ∷ fields) required h =
      field_lines-All _ (groups-All Declared (λ n. mem n required) (f ∷ fields) h)

  pub classes-All :
      (cs : Dict ClassInfo)
      → All (λ c. All Declared c.1.0) cs
      → All (IsLine comments lines) (all_lines class_lines cs)
  unfolding all_lines class_lines mem
  classes-All [] h = tt
  classes-All ((n, (fields, required)) ∷ cs) (h, k) =
      All-append (IsLine comments lines) (class_lines (n, (fields, required))) _
        (
          class_line n refl,
          All-append (IsLine comments lines) (class_body (fields, required)) ("" ∷ [])
              (class_body-All fields required h) (fixed refl, tt),
        )
        (classes-All cs k)

  params-All : (d : Dict FieldInfo) → All Declared d → All (IsParam lines) (map param d)
  unfolding param
  params-All [] h = tt
  params-All ((n, i) ∷ d) (h, k) = ((i.pie_type, h, inl (n, refl)), params-All d k)

  -- the parameters of a stub whose input is a class
  pub stub_fields-All :
      (info : ClassInfo) → All Declared info.0 → All (IsParam lines) (map param (stub_fields info))
  unfolding stub_fields
  stub_fields-All (fields, required) h =
      params-All _ (groups-All Declared (λ n. mem n required) fields h)
