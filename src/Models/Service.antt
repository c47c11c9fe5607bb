-- ===== src/Models/Service.antt =====
-- scripts/parse_models.py: what the parser reads of a service model, and what it returns. A service
-- model is the parsed JSON with those keys; the items of a dict are in its order, with distinct keys.
use lambpie.Common.{String, Bool, Option, List, [], ◌∷◌, map}
use lambpie.Common.Dict.{Dict}
use lambpie.Models.Shapes.{Shape, structure, list_of, map_of, scalar, Operation}

-- the exceptions that end a parse; `unknown` is `sys.exit` for an unknown operation
pub data Failure : Type 0 where
  unsupported unknown_type undefined invalid bad_index missing_key unknown out_of_fuel : Failure

pub data Checked (A : Type 0) : Type 0 where
  ok : A → Checked A
  fail : Failure → Checked A

infixl 10 ◌>>=◌
unfoldable pub ◌>>=◌ : {A B : Type 0} → Checked A → (A → Checked B) → Checked B
(ok a) >>= f = f a
(fail e) >>= f = fail e

pub record MemberInfo : Type 0 where
  pub shape : String
  pub location : Option String
  pub location_name : Option String

pub data ShapeInfo : Type 0 where
  -- its members and "required"
  structure_info : Dict MemberInfo → List String → ShapeInfo
  list_info : String → ShapeInfo
  map_info : String → String → ShapeInfo
  -- any other type
  scalar_info : String → ShapeInfo

pub record OperationInfo : Type 0 where
  pub http_method : Option String
  pub request_uri : Option String
  pub shapes : Operation

pub record ServiceMetadata : Type 0 where
  pub endpoint_prefix : Option String
  pub protocol : Option String
  pub protocols : Option (List (Option String))
  pub api_version : Option String
  pub signature_version : Option String
  pub service_id : Option String
  pub global_endpoint : Option String
  pub signing_name : Option String

pub record ServiceModel : Type 0 where
  pub metadata : Option ServiceMetadata
  pub operations : Option (Dict OperationInfo)
  pub shapes : Option (Dict ShapeInfo)

-- what the parser returns for the service, an operation and a shape
pub record Service : Type 0 where
  pub endpoint_prefix : String
  pub protocol : String
  pub api_version : String
  pub signature_version : String
  pub service_id : Option String
  pub global_endpoint : Option String
  pub signing_name : Option String

pub record ParsedOperation : Type 0 where
  pub name : String
  pub http_method : String
  pub http_uri : String
  pub input_shape : Option String
  pub output_shape : Option String
  pub error_shapes : List String

pub record FieldInfo : Type 0 where
  pub pie_type : String
  pub required : Bool
  pub location : String
  pub location_name : String

pub data ShapeDef : Type 0 where
  -- "members" and "required_members"
  class_def : Dict FieldInfo → List String → ShapeDef
  alias : String → ShapeDef

pub record Parsed : Type 0 where
  pub service : Service
  pub operations : List ParsedOperation
  pub shapes : Dict ShapeDef

-- the keys that `_collect_reachable_shapes` and `_resolve_pie_type` read of a shape
unfoldable pub shape_of : ShapeInfo → Shape
shape_of (structure_info members required) = structure (map (λ m. (m.0, m.1.shape)) members)
shape_of (list_info member) = list_of member
shape_of (map_info key value) = map_of key value
shape_of (scalar_info t) = scalar t

unfoldable pub shapes_of : Dict ShapeInfo → Dict Shape
shapes_of [] = []
shapes_of ((n, s) ∷ rest) = (n, shape_of s) ∷ shapes_of rest
