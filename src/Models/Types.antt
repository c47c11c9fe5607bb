-- ===== src/Models/Types.antt =====
-- scripts/parse_models.py: the .pie type of a shape.
use lambpie.Common.{String, Option, none, some, List, if◌then◌else◌, [], ◌∷◌}
use lambpie.Common.Dict.{Dict, lookup}
use lambpie.Models.Shapes.{Shape, mem, structure, list_of, map_of, scalar}

-- the .pie type, or the class of the exception raised
pub data Resolved : Type 0 where
  pie_type : String → Resolved
  type_error not_implemented runtime_error : Resolved

-- `_SCALAR_TYPE_MAP`
abbrev pub scalar_type_map : Dict String
scalar_type_map =
    ("string", "str")
    ∷ ("integer", "int")
    ∷ ("long", "int")
    ∷ ("boolean", "int")
    ∷ ("blob", "str")
    ∷ ("timestamp", "int")
    ∷ []

unfoldable pub mapped : Option String → Resolved
mapped none = type_error
mapped (some t) = pie_type t

-- `_COMPOUND_TYPES`
abbrev pub compound_types : List String
compound_types = "structure" ∷ "list" ∷ "map" ∷ []

-- `_botocore_scalar_to_pie`
unfoldable pub botocore_scalar_to_pie : String → Resolved
botocore_scalar_to_pie t =
    if mem t compound_types then type_error else mapped (lookup t scalar_type_map)

-- `_resolve_pie_type`, from the lookup of the name on
unfoldable pub shape_type : String → Option Shape → Resolved
shape_type name none = runtime_error
shape_type name (some (structure members)) = pie_type name
shape_type name (some (list_of member)) = not_implemented
shape_type name (some (map_of key value)) = not_implemented
shape_type name (some (scalar t)) = botocore_scalar_to_pie t

-- `_resolve_pie_type`
unfoldable pub resolve_pie_type : String → Dict Shape → Resolved
resolve_pie_type name shapes = shape_type name (lookup name shapes)
