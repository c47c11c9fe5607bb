-- ===== src/Models/Command/Tests.antt =====
-- A run of parse_models.py on a file with an empty service model.
use lambpie.Common.{◌≡◌, refl, true, false, none, some, [], ◌∷◌, ◌==◌, if◌then◌else◌}
use lambpie.Scripts.Effects.{Session, given, ◌>>=◌, pure, perform, branch, or_throw}
use lambpie.Scripts.Cloud.{cloud}
use lambpie.Scripts.Deploy.{present}
use lambpie.Scripts.Makes.{Makes, Always}
use lambpie.Models.Shapes.{collect_reachable_shapes, each, roots, select, known, all_known}
use lambpie.Models.Sorting.{sorted_items, sorted_set}
use lambpie.Models.Service.{ServiceModel}
use lambpie.Models.Parse.{
  parse, present_or_fail, reachable_or_fail, parse_service_metadata, protocol_of, first_protocol,
  is_true, parse_shapes, parse_names, parse_operations, listed,
}
use lambpie.Models.Service
use lambpie.Models.Command.{
  Args, Libraries, content, json_or_throw, load_model_from_file, load_model_by_service_name,
  write_output, output_path, write_parsed, parse_and_write, load_and_write, run_service, main,
}
use lambpie.Models.Command.Writes.{IsOutput, main-IsOutput}

abbrev empty_model : ServiceModel
empty_model = record {
  metadata = some (record {
    endpoint_prefix = none;
    protocol = some "json";
    protocols = none;
    api_version = none;
    signature_version = none;
    service_id = none;
    global_endpoint = none;
    signing_name = none;
  });
  operations = some [];
  shapes = some [];
}

abbrev libraries : Libraries
libraries = record {
  paths = record {
    join = λ a b. b;
    abspath = λ p. p;
    basename = λ p. p;
    stem = λ p. p;
    executable = "python";
    repo_root = "lambpie";
  };
  directory = λ p. p;
  load_json = λ b. some empty_model;
  dump_json = λ p. "{}";
  encode = λ t. if t == "{}" then 1 ∷ [] else 2 ∷ [];
  ends_with = λ s t. true;
  rstrip = λ t. t;
  available = [];
  load_service_model = λ n. given empty_model;
}

abbrev parser_args : Args
parser_args = record {
  service = some "empty.json";
  output = some "empty.out";
  as_json = true;
  operations = none;
  skip_unsupported = false;
  list_services = false;
}

abbrev with_model : Session cloud
with_model = record {
  world = record {
    now = 0;
    has_role = false;
    has_function = false;
    files = λ p. if p == "empty.json" then some (9 ∷ []) else none;
  };
  calls = [];
}

writes_output :
    (main cloud libraries parser_args with_model).1.world.files "empty.out" ≡ some (1 ∷ [])
unfolding main run_service load_and_write parse_and_write write_parsed write_output output_path
    content json_or_throw load_model_from_file load_model_by_service_name present ◌>>=◌ pure perform
    branch or_throw parse present_or_fail reachable_or_fail parse_service_metadata protocol_of
    first_protocol is_true parse_shapes parse_names parse_operations listed collect_reachable_shapes
    each roots select known all_known sorted_items sorted_set Service.◌>>=◌
writes_output = refl

main-IsOutput_example :
    Makes (IsOutput cloud libraries parser_args) Always (main cloud libraries parser_args)
main-IsOutput_example = main-IsOutput cloud libraries parser_args
