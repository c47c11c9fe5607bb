-- ===== src/Models/Command/Writes.antt =====
-- What parse_models.py writes.
use lambpie.Common.{◌≡◌, refl, ◌∙◌, ◌&&◌, true, false, String, Bool, Option, none, some}
use lambpie.Scripts.Effects.{World, given, branch}
use lambpie.Scripts.Calls.{Bytes, Call, path_exists, read_file, make_dirs, write_file, Reply}
use lambpie.Scripts.Deploy.{present}
use lambpie.Models.Shapes.{mem}
use lambpie.Scripts.Makes.{
  Always, Makes, Makes-pure, Makes-exit, Makes-throw, Makes-branch, Makes-call, Makes-given,
  Makes-ask, Makes-given-eq, Makes-weaken, Makes-bind, Asked, Makes-or_throw,
}
use lambpie.Models.Service.{
  ServiceModel, Parsed, unsupported, unknown_type, undefined, invalid, bad_index, missing_key,
  unknown, out_of_fuel, Checked, ok, fail,
}
use lambpie.Models.Parse.{parse}
use lambpie.Models.Command.{
  Args, Libraries, content, json_or_throw, load_model_from_file, load_model_by_service_name,
  write_output, output_path, write_parsed, parse_and_write, load_and_write, run_service,
  service_name, main,
}

module _ (W : World Reply) (L : Libraries) (args : Args) where
  -- The service is this file's JSON, or botocore's model of that name.
  abbrev pub IsLoaded : String → Bool → ServiceModel → Type 0
  IsLoaded service true model =
      (b : Bytes) × (Asked W (read_file service) (given b) × (L.load_json b ≡ some model))
  IsLoaded service false model =
      (mem service L.available ≡ true) × (L.load_service_model service ≡ given model)

  -- whether the service is a file: it is there, and its name ends in .json
  abbrev pub IsFile : String → Bool → Type 0
  IsFile service is_file =
      (found : Bool) × (Asked W (path_exists service) found
        × (is_file ≡ (found && L.ends_with service ".json")))

  -- The service of the command line was loaded, under this name, and parsed to this.
  pub record WasParsed (name : String) (parsed : Parsed) : Type 0 where
    pub service : String
    pub is_file : Bool
    pub model : ServiceModel
    pub asked : present args.service ≡ some service
    pub source : IsFile service is_file
    pub loaded : IsLoaded service is_file model
    pub named : name ≡ service_name L args is_file service
    pub returned : parse model args.operations args.skip_unsupported ≡ ok parsed

  -- Reads are of the service; the one file written is `--output`, with what was made of the service's
  -- model, and its directory is made for it.
  abbrev pub IsOutput : Call → Type 0
  IsOutput (write_file path bytes) =
      (present args.output ≡ some path)
      × ((name : String) × ((parsed : Parsed) × (WasParsed name parsed
              × (bytes ≡ L.encode (content L args parsed name path)))))
  IsOutput (make_dirs d) =
      (path : String) × ((present args.output ≡ some path)
        × ((d ≡ L.directory path)
            × ((name : String) × ((parsed : Parsed) × WasParsed name parsed))))
  IsOutput (path_exists p) = present args.service ≡ some p
  IsOutput (read_file p) = present args.service ≡ some p
  IsOutput _ = ⊥

  json-Makes : (o : Option ServiceModel) → Makes IsOutput (λ m. o ≡ some m) (json_or_throw W L o)
  unfolding json_or_throw
  json-Makes none = Makes-throw _
  json-Makes (some model) = Makes-pure model refl

  file-Makes :
      (path : String)
      → present args.service ≡ some path
      → Makes IsOutput (IsLoaded path true) (load_model_from_file W L path)
  unfolding load_model_from_file
  file-Makes path e = Makes-call (path_exists path) _ e λ found.
      Makes-branch found _ _
        (λ _. Makes-ask (read_file path) _ e λ a (w, q).
          Makes-given-eq a _
            λ b g. Makes-weaken (json-Makes (L.load_json b)) λ m l. (b, ((w, q ∙ g), l)))
        (λ _. Makes-exit 1)

  name-Makes :
      (name : String) → Makes IsOutput (IsLoaded name false) (load_model_by_service_name W L name)
  unfolding load_model_by_service_name
  name-Makes name =
      Makes-branch (mem name L.available) _ _
        (λ there. Makes-or_throw (L.load_service_model name) λ m l. (there, l)) (λ _. Makes-exit 1)

  output-Makes :
      (o : Option String)
      → present args.output ≡ o
      → (name : String) (parsed : Parsed) → WasParsed name parsed
      → Makes IsOutput Always
          (write_output W L o (content L args parsed name (output_path W L args o)))
  unfolding write_output output_path
  output-Makes none e name parsed was = Makes-pure tt tt
  output-Makes (some path) e name parsed was =
      Makes-call (make_dirs (L.directory path)) _ (path, (e, (refl, (name, (parsed, was)))))
        λ made. Makes-given made _ λ _.
          Makes-call (write_file path _) _ (e, (name, (parsed, (was, refl))))
            λ written. Makes-or_throw written λ _ _. tt

  parsed-Makes :
      (name : String) (c : Checked Parsed)
      → ((parsed : Parsed) → c ≡ ok parsed → WasParsed name parsed)
      → Makes IsOutput Always (write_parsed W L args name c)
  unfolding write_parsed
  parsed-Makes name (ok parsed) k =
      output-Makes (present args.output) refl name parsed (k parsed refl)
  parsed-Makes name (fail unknown) k = Makes-exit 1
  parsed-Makes name (fail unsupported) k = Makes-throw _
  parsed-Makes name (fail unknown_type) k = Makes-throw _
  parsed-Makes name (fail undefined) k = Makes-throw _
  parsed-Makes name (fail invalid) k = Makes-throw _
  parsed-Makes name (fail bad_index) k = Makes-throw _
  parsed-Makes name (fail missing_key) k = Makes-throw _
  parsed-Makes name (fail out_of_fuel) k = Makes-throw _

  source-Makes :
      (service : String) (is_file : Bool)
      → present args.service ≡ some service
      → Makes IsOutput (IsLoaded service is_file) (
          branch is_file
            (load_model_from_file W L service)
            (load_model_by_service_name W L service))
  unfolding branch
  source-Makes service true e = file-Makes service e
  source-Makes service false e = name-Makes service

  load-Makes :
      (service : String) (is_file : Bool)
      → present args.service ≡ some service
      → IsFile service is_file
      → Makes IsOutput Always (load_and_write W L args service is_file)
  unfolding load_and_write parse_and_write
  load-Makes service is_file e f = Makes-bind (source-Makes service is_file e) λ model l.
      parsed-Makes _ _ λ parsed q. record {
        service = service;
        is_file = is_file;
        model = model;
        asked = e;
        source = f;
        loaded = l;
        named = refl;
        returned = q;
      }

  service-Makes :
      (o : Option String)
      → present args.service ≡ o
      → Makes IsOutput Always (run_service W L args o)
  unfolding run_service
  service-Makes none e = Makes-exit 2
  service-Makes (some service) e =
      Makes-ask (path_exists service) _ e λ found q. load-Makes service _ e (found, (q, refl))

  -- Whatever the file system answers, parse_models.py writes no file but `--output`, which is not
  -- empty then, and it writes to it, and makes its directory, only where the service of the command
  -- line was loaded, from the file that it names or by botocore, and parse returned for that model;
  -- what it writes is the JSON or the .pie text of what parse returned. It reads no file but the
  -- service, and makes no other call.
  pub main-IsOutput : Makes IsOutput Always (main W L args)
  unfolding main
  main-IsOutput =
      Makes-branch args.list_services _ _ (λ _. Makes-pure tt tt)
        (λ _. service-Makes (present args.service) refl)
