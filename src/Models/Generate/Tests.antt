-- ===== src/Models/Generate/Tests.antt =====
-- A service with a structure that refers to itself, a list and a scalar, parsed and written.
use lambpie.Common.{◌≡◌, refl, String, true, false, none, some, List, [], ◌∷◌, All, map, concat}
use lambpie.Common.Dict.{Dict, lookup, contains}
use lambpie.Models.Shapes.{
  mem, collect_reachable_shapes, each, walk, visit_shape, refs, and_then, roots, select, optional,
  known, all_known,
}
use lambpie.Models.Types.{resolve_pie_type, shape_type, botocore_scalar_to_pie, mapped}
use lambpie.Models.Sorting.{insert_name, sorted_set, insert_item, sorted_items}
use lambpie.Models.Service.{
  ◌>>=◌, ok, fail, unsupported, MemberInfo, ShapeInfo, structure_info, list_info, scalar_info,
  ServiceModel, FieldInfo, class_def, alias, Parsed, shapes_of, shape_of,
}
use lambpie.Models.Parse.{
  parse, present_or_fail, reachable_or_fail, parse_service_metadata, protocol_of, is_true,
  first_protocol, get_or, parse_operations, parse_operation, listed, is_listed, parse_shapes,
  parse_names, keep_shape, keep_scalar, parse_structure_shape, parse_members, keep_member,
  common_names,
}
use lambpie.Models.Parse.Skips.{parse_skipping}
use lambpie.Models.Parse.Classes.{IsClosed, parse-IsClosed}
use lambpie.Models.Parse.Failing.{IsPossible}
use lambpie.Models.Parse.Errors.{IsMissingShape, IsUnknownOperation, parse-Fails}
use lambpie.Models.Parse.Required.{Agree, parse_structure_shape-Agree}
use lambpie.Models.Generate.{required_first, structure_shapes, class_body, input_params, classes}
use lambpie.Models.Generate.Orders.{
  IsRequiredFirst, required_first-IsRequiredFirst, class_body-input_params,
}

abbrev plain_member : String → MemberInfo
plain_member s = record { shape = s; location = none; location_name = none }

abbrev tags : String × MemberInfo
tags = ("Tags", plain_member "TagList")

abbrev node_members : Dict MemberInfo
node_members = ("Next", plain_member "Node") ∷ ("Label", plain_member "Text") ∷ []

abbrev node_required : List String
node_required = "Tags" ∷ "Label" ∷ []

-- the structure with these members, and the rest of the shapes
abbrev sample_shapes : Dict MemberInfo → Dict ShapeInfo
sample_shapes members =
    ("Text", scalar_info "string")
    ∷ ("TagList", list_info "Text")
    ∷ ("Node", structure_info members node_required)
    ∷ []

abbrev sample : Dict MemberInfo → ServiceModel
sample members = record {
  metadata = some (record {
    endpoint_prefix = some "node";
    protocol = some "json";
    protocols = none;
    api_version = some "2020-01-01";
    signature_version = none;
    service_id = some "Node";
    global_endpoint = none;
    signing_name = none;
  });
  operations = some (
      (
        "Get",
        record {
          http_method = none;
          request_uri = none;
          shapes = record { input = some "Node"; output = some "Text"; errors = [] };
        },
      )
      ∷ []);
  shapes = some (sample_shapes members);
}

abbrev node_fields : Dict FieldInfo
node_fields =
    (
      "Next",
      record { pie_type = "Node"; required = false; location = "body"; location_name = "Next" },
    )
    ∷ (
      "Label",
      record { pie_type = "str"; required = true; location = "body"; location_name = "Label" },
    )
    ∷ []

abbrev sample_parsed : Parsed
sample_parsed = record {
  service = record {
    endpoint_prefix = "node";
    protocol = "json";
    api_version = "2020-01-01";
    signature_version = "v4";
    service_id = some "Node";
    global_endpoint = none;
    signing_name = none;
  };
  operations =
      record {
        name = "Get";
        http_method = "POST";
        http_uri = "/";
        input_shape = some "Node";
        output_shape = some "Text";
        error_shapes = [];
      }
      ∷ [];
  shapes = ("Node", class_def node_fields ("Label" ∷ [])) ∷ ("Text", alias "str") ∷ [];
}

parses : parse (sample node_members) none false ≡ ok sample_parsed
unfolding parse ◌>>=◌ present_or_fail reachable_or_fail collect_reachable_shapes each walk
    visit_shape refs and_then roots select optional known all_known mem lookup contains shapes_of
    shape_of parse_service_metadata protocol_of is_true first_protocol get_or parse_operations
    parse_operation listed is_listed insert_item sorted_items parse_shapes parse_names keep_shape
    keep_scalar parse_structure_shape parse_members keep_member common_names insert_name sorted_set
    resolve_pie_type shape_type botocore_scalar_to_pie mapped
parses = refl

-- a list is not supported
refuses : parse (sample (tags ∷ node_members)) none false ≡ fail unsupported
unfolding parse ◌>>=◌ present_or_fail reachable_or_fail collect_reachable_shapes each walk
    visit_shape refs and_then roots select optional known all_known mem lookup contains shapes_of
    shape_of parse_service_metadata protocol_of is_true first_protocol get_or parse_operations
    parse_operation listed is_listed insert_item sorted_items parse_shapes parse_names keep_shape
    keep_scalar parse_structure_shape parse_members keep_member common_names insert_name sorted_set
    resolve_pie_type shape_type botocore_scalar_to_pie mapped
refuses = refl

parse_skipping_example : parse (sample node_members) none true ≡ ok sample_parsed
parse_skipping_example = parse_skipping (sample node_members) none sample_parsed parses

parse-IsClosed_example : All (λ d. IsClosed sample_parsed.shapes d.1) sample_parsed.shapes
parse-IsClosed_example = parse-IsClosed (sample node_members) none false sample_parsed parses

parse-Fails_example :
    IsPossible
      (IsMissingShape (sample (tags ∷ node_members)) none)
      (IsUnknownOperation (sample (tags ∷ node_members)) none)
      false
      unsupported
parse-Fails_example = parse-Fails (sample (tags ∷ node_members)) none false unsupported refuses

node_class :
    parse_structure_shape true (sample_shapes node_members) (tags ∷ node_members) node_required
    ≡ ok (class_def node_fields ("Label" ∷ []))
unfolding ◌>>=◌ mem lookup contains shapes_of shape_of get_or parse_structure_shape parse_members
    keep_member common_names insert_name sorted_set resolve_pie_type shape_type
    botocore_scalar_to_pie mapped
node_class = refl

parse_structure_shape-Agree_example : Agree node_required (class_def node_fields ("Label" ∷ []))
parse_structure_shape-Agree_example =
    parse_structure_shape-Agree true (sample_shapes node_members) (tags ∷ node_members)
      node_required (class_def node_fields ("Label" ∷ [])) node_class

required_first-IsRequiredFirst_example :
    IsRequiredFirst ("Label" ∷ []) node_fields (required_first (node_fields, "Label" ∷ []))
required_first-IsRequiredFirst_example = required_first-IsRequiredFirst node_fields ("Label" ∷ [])

node_written :
    lookup "Node" (structure_shapes sample_parsed.shapes) ≡ some (node_fields, "Label" ∷ [])
unfolding structure_shapes classes lookup insert_item sorted_items
node_written = refl

class_body-input_params_example :
    class_body (node_fields, "Label" ∷ [])
    ≡ map (λ t. concat "    " t) (input_params sample_parsed.shapes (some "Node"))
class_body-input_params_example =
    class_body-input_params sample_parsed.shapes "Node" node_fields ("Label" ∷ []) node_written
      (λ e. cc) refl
