-- ===== src/Models/Parse.antt =====
-- scripts/parse_models.py: `BotocoreModelParser`.
pub mod Skips
pub mod Entries
pub mod Finds
pub mod Classes
pub mod Failing
pub mod Errors
pub mod Required
use lambpie.Common.{
  String, Bool, true, false, Option, none, some, List, [], ◌∷◌, map, if◌then◌else◌, ◌==◌, ◌&&◌,
}
use lambpie.Common.Dict.{Dict, lookup, contains}
use lambpie.Models.Service.{
  Checked, Failure, FieldInfo, MemberInfo, OperationInfo, Parsed, ParsedOperation, Service,
  ServiceMetadata, ServiceModel, ShapeDef, ShapeInfo, alias, bad_index, class_def, fail, invalid,
  list_info, map_info, missing_key, ok, out_of_fuel, scalar_info, shape_of, shapes_of,
  structure_info, undefined, unknown, unknown_type, unsupported, ◌>>=◌,
}
use lambpie.Models.Shapes.{
  Shape, structure, list_of, map_of, scalar, Operation, Model, mem, Outcome, reached,
  undefined_shape, unknown_operation, no_fuel, collect_reachable_shapes,
}
use lambpie.Models.Types.{
  Resolved, pie_type, type_error, not_implemented, runtime_error, botocore_scalar_to_pie,
  resolve_pie_type,
}
use lambpie.Models.Sorting.{sorted_set, sorted_items}

-- d.get(key, default)
unfoldable pub get_or : Option String → String → String
get_or none default = default
get_or (some t) default = t

-- a text that is neither None nor empty
unfoldable pub is_true : Option String → Bool
is_true none = false
is_true (some t) = if t == "" then false else true

-- `meta.get("protocols", [None])[0] or ""`
unfoldable pub first_protocol : Option (List (Option String)) → Checked String
first_protocol none = ok ""
first_protocol (some []) = fail bad_index
first_protocol (some (p ∷ ps)) = ok (get_or p "")

unfoldable pub protocol_of : ServiceMetadata → Checked String
protocol_of meta =
    if is_true meta.protocol then ok (get_or meta.protocol "") else first_protocol meta.protocols

-- `_parse_service_metadata`
unfoldable pub parse_service_metadata : ServiceMetadata → Checked Service
parse_service_metadata meta = do
  protocol ← protocol_of meta
  ok (record {
    endpoint_prefix = get_or meta.endpoint_prefix "";
    protocol = protocol;
    api_version = get_or meta.api_version "";
    signature_version = get_or meta.signature_version "v4";
    service_id = meta.service_id;
    global_endpoint = meta.global_endpoint;
    signing_name = meta.signing_name;
  })

unfoldable pub parse_operation : String × OperationInfo → ParsedOperation
parse_operation (name, op) = record {
  name = name;
  http_method = get_or op.http_method "POST";
  http_uri = get_or op.request_uri "/";
  input_shape = op.shapes.input;
  output_shape = op.shapes.output;
  error_shapes = op.shapes.errors;
}

-- `k in (self._operation_names or ops)`, where k is of ops
unfoldable pub is_listed : Option (List String) → String → Bool
is_listed none k = true
is_listed (some []) k = true
is_listed (some (n ∷ ns)) k = mem k (n ∷ ns)

unfoldable pub listed : Option (List String) → Dict OperationInfo → Dict OperationInfo
listed names [] = []
listed names (o ∷ ops) =
    let rest = listed names ops in if is_listed names o.0 then o ∷ rest else rest

-- `_parse_operations`
unfoldable pub parse_operations : Option (List String) → Dict OperationInfo → List ParsedOperation
parse_operations names ops = map parse_operation (sorted_items (listed names ops))

-- `required_set & set(members_out)`
unfoldable pub common_names : List String → Dict FieldInfo → List String
common_names [] fields = []
common_names (n ∷ ns) fields =
    let rest = common_names ns fields in if contains n fields then n ∷ rest else rest

module _ (skip_unsupported : Bool) (shapes : Dict ShapeInfo) where
  -- one round of the loop over the members, where `rest` is what follows
  unfoldable pub keep_member :
      List String
      → String × MemberInfo
      → Resolved
      → Checked (Dict FieldInfo)
      → Checked (Dict FieldInfo)
  keep_member required (name, info) (pie_type t) rest = do
    fields ← rest
    ok (
        (
          name,
          record {
            pie_type = t;
            required = mem name required;
            location = get_or info.location "body";
            location_name = get_or info.location_name name;
          },
        )
        ∷ fields)
  keep_member required m not_implemented rest = if skip_unsupported then rest else fail unsupported
  keep_member required m type_error rest = fail unknown_type
  keep_member required m runtime_error rest = fail undefined

  unfoldable pub parse_members : List String → Dict MemberInfo → Checked (Dict FieldInfo)
  parse_members required [] = ok []
  parse_members required (m ∷ members) =
      keep_member required m (resolve_pie_type m.1.shape (shapes_of shapes))
        (parse_members required members)

  -- `_parse_structure_shape`
  unfoldable pub parse_structure_shape : Dict MemberInfo → List String → Checked ShapeDef
  parse_structure_shape members required = do
    fields ← parse_members required members
    ok (class_def fields (sorted_set (common_names required fields)))

  -- the `else` of `_parse_shapes`; `rest` is what follows in the loop
  unfoldable pub keep_scalar : String → Resolved → Checked (Dict ShapeDef) → Checked (Dict ShapeDef)
  keep_scalar name (pie_type t) rest = do defs ← rest; ok ((name, alias t) ∷ defs)
  keep_scalar name _ rest = if skip_unsupported then rest else fail unknown_type

  unfoldable pub keep_shape :
      String → Option ShapeInfo → Checked (Dict ShapeDef) → Checked (Dict ShapeDef)
  keep_shape name none rest = fail missing_key
  keep_shape name (some (structure_info members required)) rest = do
    entry ← parse_structure_shape members required
    defs ← rest
    ok ((name, entry) ∷ defs)
  keep_shape name (some (list_info member)) rest =
      if skip_unsupported then rest else fail unsupported
  keep_shape name (some (map_info key value)) rest =
      if skip_unsupported then rest else fail unsupported
  keep_shape name (some (scalar_info t)) rest = keep_scalar name (botocore_scalar_to_pie t) rest

  -- the loop of `_parse_shapes`
  unfoldable pub parse_names : List String → Checked (Dict ShapeDef)
  parse_names [] = ok []
  parse_names (n ∷ ns) = keep_shape n (lookup n shapes) (parse_names ns)

  -- `_parse_shapes`
  unfoldable pub parse_shapes : List String → Checked (Dict ShapeDef)
  parse_shapes reachable = parse_names (sorted_set reachable)

unfoldable pub reachable_or_fail : Outcome → Checked (List String)
reachable_or_fail (reached r) = ok r
reachable_or_fail (undefined_shape x) = fail undefined
reachable_or_fail unknown_operation = fail unknown
reachable_or_fail no_fuel = fail out_of_fuel

-- a key that `__init__` looks for
unfoldable pub present_or_fail : {A : Type 0} → Option A → Checked A
present_or_fail none = fail invalid
present_or_fail (some a) = ok a

-- the keys that `_collect_reachable_shapes` reads
abbrev pub outline : Dict OperationInfo → Dict ShapeInfo → Model
outline ops shapes = record {
  operations = map (λ o. (o.0, o.1.shapes)) ops;
  shapes = shapes_of shapes;
}

-- `__init__` and `parse`
unfoldable pub parse : ServiceModel → Option (List String) → Bool → Checked Parsed
parse model names skip_unsupported = do
  meta ← present_or_fail model.metadata
  ops ← present_or_fail model.operations
  shapes ← present_or_fail model.shapes
  reachable ← reachable_or_fail (collect_reachable_shapes (outline ops shapes) names)
  service ← parse_service_metadata meta
  defs ← parse_shapes skip_unsupported shapes reachable
  ok (record { service = service; operations = parse_operations names ops; shapes = defs })
