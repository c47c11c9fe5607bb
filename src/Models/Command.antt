-- ===== src/Models/Command.antt =====
-- scripts/parse_models.py: loading a model and `main`. Printing is left out.
pub mod Writes
mod Tests
use lambpie.Common.{
  if◌then◌else◌, String, Bool, true, false, ◌&&◌, Option, none, some, List, [], ◌∷◌,
}
use lambpie.Scripts.Effects.{
  Exn, other_error, runtime_error, Answer, World, Act, ◌>>=◌, ◌>>◌, pure, exit, throw, branch,
  perform, or_throw,
}
use lambpie.Scripts.Calls.{Bytes, Call, path_exists, read_file, make_dirs, write_file, Reply}
use lambpie.Scripts.Build.{Paths}
use lambpie.Scripts.Deploy.{present}
use lambpie.Models.Shapes.{mem}
use lambpie.Models.Service.{ServiceModel, Parsed, Failure, unknown, Checked, ok, fail}
use lambpie.Models.Parse.{parse}
use lambpie.Models.Generate.{generate_pie}

pub record Args : Type 0 where
  pub service : Option String
  pub output : Option String
  pub as_json : Bool
  pub operations : Option (List String)
  pub skip_unsupported : Bool
  pub list_services : Bool

-- Python's and botocore's part: the JSON of a file, `json.dumps`, UTF-8, `str.endswith` and
-- `str.rstrip`, and the loader's services and their models
pub record Libraries : Type 0 where
  pub paths : Paths
  pub directory : String → String
  pub load_json : Bytes → Option ServiceModel
  pub dump_json : Parsed → String
  pub encode : String → Bytes
  pub ends_with : String → String → Bool
  pub rstrip : String → String
  pub available : List String
  pub load_service_model : String → Answer ServiceModel

module _ (L : Libraries) (args : Args) where
  -- the name of the service and the text to write
  unfoldable pub service_name : Bool → String → String
  service_name true service = L.paths.stem (L.paths.basename service)
  service_name false service = service

  unfoldable pub content : Parsed → String → String → String
  content parsed name output =
      if args.as_json then L.dump_json parsed else generate_pie L.rstrip parsed name output

module _ (W : World Reply) (L : Libraries) where
  unfoldable pub json_or_throw : Option ServiceModel → Act W ServiceModel
  json_or_throw none = throw other_error
  json_or_throw (some model) = pure model

  unfoldable pub load_model_from_file : String → Act W ServiceModel
  load_model_from_file path = do
    found ← perform (path_exists path)
    branch found
        (do
          answer ← perform (read_file path)
          bytes ← or_throw answer
          json_or_throw (L.load_json bytes))
        (exit 1)

  unfoldable pub load_model_by_service_name : String → Act W ServiceModel
  load_model_by_service_name name =
      branch (mem name L.available) (or_throw (L.load_service_model name)) (exit 1)

  -- the file, if there is an `--output`
  unfoldable pub write_output : Option String → String → Act W (Unit {0})
  write_output none text = pure tt
  write_output (some path) text = do
    made ← perform (make_dirs (L.directory path))
    or_throw made
    written ← perform (write_file path (L.encode text))
    or_throw written

module _ (W : World Reply) (L : Libraries) (args : Args) where
  -- `args.output or "<stdout>"`
  unfoldable pub output_path : Option String → String
  output_path none = "<stdout>"
  output_path (some path) = path

  unfoldable pub write_parsed : String → Checked Parsed → Act W (Unit {0})
  write_parsed name (ok parsed) =
      write_output W L (present args.output)
        (content L args parsed name (output_path (present args.output)))
  write_parsed name (fail unknown) = exit 1
  write_parsed name (fail _) = throw other_error

  unfoldable pub parse_and_write : String → ServiceModel → Act W (Unit {0})
  parse_and_write name model = write_parsed name (parse model args.operations args.skip_unsupported)

  -- whether the service is a file
  unfoldable pub load_and_write : String → Bool → Act W (Unit {0})
  load_and_write service is_file = do
    model ←
        branch is_file (load_model_from_file W L service) (load_model_by_service_name W L service)
    parse_and_write (service_name L args is_file service) model

  -- `parser.error` is an exit with status 2
  unfoldable pub run_service : Option String → Act W (Unit {0})
  run_service none = exit 2
  run_service (some service) = do
    found ← perform (path_exists service)
    load_and_write service (found && L.ends_with service ".json")

  unfoldable pub main : Act W (Unit {0})
  main = branch args.list_services (pure tt) (run_service (present args.service))
