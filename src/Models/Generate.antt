-- ===== src/Models/Generate.antt =====
-- scripts/parse_models.py: `generate_pie`. `rstrip` is the method of `str`.
pub mod Orders
pub mod Emitted
pub mod Text
pub mod Whole
mod Tests
use lambpie.Common.{
  String, Bool, true, false, not, Option, none, some, List, [], ◌∷◌, ◌++◌, map, concat,
  if◌then◌else◌, ◌==◌,
}
use lambpie.Common.Dict.{Dict, lookup}
use lambpie.Models.Shapes.{mem}
use lambpie.Models.Sorting.{sorted_items}
use lambpie.Models.Service.{FieldInfo, ShapeDef, class_def, alias, Service, ParsedOperation, Parsed}
use lambpie.Models.Parse.{get_or}

-- texts one behind the other
unfoldable pub concat_all : List String → String
concat_all [] = ""
concat_all (t ∷ ts) = concat t (concat_all ts)

-- separator.join(texts)
unfoldable pub join : String → List String → String
join separator [] = ""
join separator (t ∷ []) = t
join separator (t ∷ u ∷ ts) = concat t (concat separator (join separator (u ∷ ts)))

-- the items whose name meets the test
unfoldable pub items_where : {V : Type 0} → (String → Bool) → Dict V → Dict V
items_where p [] = []
items_where p (x ∷ xs) = let rest = items_where p xs in if p x.0 then x ∷ rest else rest

-- `_PIE_HEADER`, filled in
unfoldable pub pie_header : Service → String → String → String
pie_header service service_name output_path = concat_all (
    "# Auto-generated by scripts/parse_models.py from botocore model.\n"
    ∷ "# Service: "
    ∷ get_or service.service_id service_name
    ∷ "  Protocol: "
    ∷ service.protocol
    ∷ "  API version: "
    ∷ service.api_version
    ∷ "\n# DO NOT EDIT BY HAND — regenerate with:\n#   python scripts/parse_models.py "
    ∷ service_name
    ∷ " --output "
    ∷ output_path
    ∷ "\n"
    ∷ [])

abbrev pub pie_stub_comment : String
pie_stub_comment =
    "# --- Operation stubs ---\n# These are placeholder function signatures.\n# Actual HTTP dispatch will be implemented in .pie once SigV4 is ready.\n"

-- a class: "members" and "required_members"
abbrev pub ClassInfo : Type 0
ClassInfo = Dict FieldInfo × List String

unfoldable pub classes : Dict ShapeDef → Dict ClassInfo
classes [] = []
classes ((n, class_def fields required) ∷ defs) = (n, (fields, required)) ∷ classes defs
classes ((n, alias t) ∷ defs) = classes defs

unfoldable pub structure_shapes : Dict ShapeDef → Dict ClassInfo
structure_shapes shapes = classes (sorted_items shapes)

-- `req_fields + opt_fields`
unfoldable pub required_first : ClassInfo → Dict FieldInfo
required_first (fields, required) =
    sorted_items (items_where (λ n. mem n required) fields)
    ++ sorted_items (items_where (λ n. not (mem n required)) fields)

-- the line of a field
unfoldable pub field_line : String × FieldInfo → String
field_line (name, field) = concat "    " (concat name (concat ": " field.pie_type))

unfoldable pub class_body : ClassInfo → List String
class_body ([], required) = "    pass" ∷ []
class_body (f ∷ fields, required) = map field_line (required_first (f ∷ fields, required))

unfoldable pub class_lines : String × ClassInfo → List String
class_lines (name, info) = concat "class " (concat name ":") ∷ class_body info ++ ("" ∷ [])

unfoldable pub all_lines : {A : Type 0} → (A → List String) → List A → List String
all_lines f [] = []
all_lines f (x ∷ xs) = f x ++ all_lines f xs

-- `req + opt`. The sort is by the names alone, since no two fields have the same.
unfoldable pub stub_fields : ClassInfo → Dict FieldInfo
stub_fields (members, required_set) =
    sorted_items (items_where (λ n. mem n required_set) members)
    ++ sorted_items (items_where (λ n. not (mem n required_set)) members)

-- a parameter of a stub
unfoldable pub param : String × FieldInfo → String
param (name, field) = concat name (concat ": " field.pie_type)

module _ (shapes : Dict ShapeDef) where
  -- the parameter of an input that is no class
  unfoldable pub request_param : Option ShapeDef → List String
  request_param none = "request: str" ∷ []
  request_param (some (alias t)) = if t == "class" then [] else concat "request: " t ∷ []
  request_param (some (class_def fields required)) = []

  unfoldable pub named_params : String → Option ClassInfo → List String
  named_params name (some info) = map param (stub_fields info)
  named_params name none = request_param (lookup name shapes)

  unfoldable pub input_params : Option String → List String
  input_params none = []
  input_params (some name) =
      if name == "" then [] else named_params name (lookup name (structure_shapes shapes))

  unfoldable pub alias_type : Option ShapeDef → String
  alias_type none = "int"
  alias_type (some (alias t)) = t
  alias_type (some (class_def fields required)) = "class"

  unfoldable pub output_type : String → Option ClassInfo → String
  output_type name (some info) = name
  output_type name none = alias_type (lookup name shapes)

  unfoldable pub return_type : Option String → String
  return_type none = "int"
  return_type (some name) =
      if name == "" then "int" else output_type name (lookup name (structure_shapes shapes))

  unfoldable pub operation_lines : ParsedOperation → List String
  operation_lines op =
      concat_all ("# HTTP " ∷ op.http_method ∷ " " ∷ op.http_uri ∷ [])
      ∷ concat_all (
          "def "
          ∷ op.name
          ∷ "("
          ∷ join ", " ("endpoint: str" ∷ input_params op.input_shape)
          ∷ ") -> "
          ∷ return_type op.output_shape
          ∷ ":"
          ∷ [])
      ∷ "    pass  # TODO: implement SigV4 + HTTP dispatch"
      ∷ ""
      ∷ []

-- a heading, if there is something under it
unfoldable pub heading : {A : Type 0} → String → List A → List String
heading t [] = []
heading t (x ∷ xs) = t ∷ "" ∷ []

module _ (rstrip : String → String) where
  unfoldable pub pie_lines : Parsed → String → String → List String
  pie_lines parsed service_name output_path =
      (rstrip (pie_header parsed.service service_name output_path) ∷ "" ∷ [])
      ++ (heading "# --- Type definitions ---" (structure_shapes parsed.shapes)
          ++ (all_lines class_lines (structure_shapes parsed.shapes)
              ++ (heading (rstrip pie_stub_comment) parsed.operations
                  ++ all_lines (operation_lines parsed.shapes) parsed.operations)))

  -- `generate_pie`
  unfoldable pub generate_pie : Parsed → String → String → String
  generate_pie parsed service_name output_path =
      join "\n" (pie_lines parsed service_name output_path)
