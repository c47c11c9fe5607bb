-- ===== src/Scripts/Tests.antt =====
-- Runs of the scripts in the small world.
use lambpie.Common.{
  ◌*◌, eqb, eq_iff, ◌≡◌, refl, ◌+◌, Bool, true, false, none, some, [], ◌∷◌, ◌==◌, if◌then◌else◌,
  length, concat,
}
use lambpie.Scripts.Effects.{
  returned, Session, ◌>>=◌, pure, perform, branch, or_throw, recover, handled,
}
use lambpie.Scripts.Calls.{
  ZipEntry, bootstrap_entry, Bytes, FunctionSpec, second, has_code, check_state, poll_state,
  wait_active, path_exists, run_command, make_dirs, is_success,
}
use lambpie.Scripts.Json.{null, text, object, none_left, member, Python, get, get_member}
use lambpie.Scripts.Cloud.{arn, cloud, cloud_clock, cloud_disk}
use lambpie.Scripts.Makes.{Chooses}
use lambpie.Scripts.Ends.{Ends}
use lambpie.Scripts.Triples.{Post}
use lambpie.Scripts.Waiting.{Waited}
use lambpie.Scripts.Deploy
use lambpie.Scripts.Deploy.Creating.{
  Created, wait_for_iam_propagation-Created, wait_for_function_active-Waited,
}
use lambpie.Scripts.Deploy.Allowed.{IsAllowed, main-Chooses}
use lambpie.Scripts.Deploy.Ending.{main-Ends, IsActive}
use lambpie.Scripts.Verify
use lambpie.Scripts.Verify.Passing.{WasHealthy, main-Passed, wait_for_localstack-Ends}
use lambpie.Scripts.Verify.Invoking.{Passed}
use lambpie.Scripts.Verify.Attempts.{wait_for_localstack-AtMost, AtMost}
use lambpie.Scripts.Invoke
use lambpie.Scripts.Invoke.Outcome.{Succeeded, main-Succeeded}
use lambpie.Scripts.Build
use lambpie.Scripts.Build.Stages.{Finished}
use lambpie.Scripts.Build.Stages
use lambpie.Scripts.Build.Steps.{main-Finished}
use lambpie.Scripts.Package
use lambpie.Scripts.Package.Archive.{Packed, main-Packed}
use lambpie.Scripts.Package.Archive

abbrev start : Session cloud
start = record {
  world = record {
    now = 7;
    has_role = false;
    has_function = false;
    files = λ p.
        if p == "target/bootstrap"
        then some (1 ∷ 2 ∷ [])
        else if p == "target/function.zip"
        then some (3 ∷ [])
        else none;
  };
  calls = [];
}

abbrev with_function : Session cloud
with_function = record {
  world = record { now = 7; has_role = true; has_function = true; files = start.world.files };
  calls = [];
}

-- an archive that is only the content behind a mark
abbrev zip_of : ZipEntry → Bytes
zip_of e = 80 ∷ e.content

abbrev deploy_args : Deploy.Args
deploy_args = record {
  function_name = "echo";
  build = none;
  bootstrap = "target/bootstrap";
  region = none;
  endpoint_url = some "http://localhost:4577";
  role = none;
  create_role = some "r";
  memory = 128;
  timeout = 30;
  architecture = "x86_64";
}

abbrev echo_spec : FunctionSpec
echo_spec = record {
  function_name = "echo";
  role = arn;
  zip_file = zip_of (bootstrap_entry (1 ∷ 2 ∷ []));
  memory_size = 128;
  timeout = 30;
  architecture = "x86_64";
}

-- the function is created, behind its role, and is active
deploys : (Deploy.main cloud zip_of [] deploy_args start).0 ≡ returned tt
unfolding Deploy.main ◌>>=◌ Deploy.build_first Deploy.present pure perform branch Deploy.deploy
    Deploy.create_zip or_throw Deploy.resolve_role Deploy.ensure_iam_role Deploy.role_or_create
    has_code Deploy.create_iam_role Deploy.function_exists Deploy.create_new check_state poll_state
    wait_active Deploy.is_unassumable Deploy.make_boto3_kwargs Deploy.poll_create
    Deploy.retry_create Deploy.text_option Deploy.update_function Deploy.wait_for_function_active
    Deploy.wait_for_iam_propagation
deploys = refl

wait_for_iam_propagation-Created_example :
    Created echo_spec (7 + 60 * second) (Deploy.wait_for_iam_propagation cloud echo_spec start)
wait_for_iam_propagation-Created_example =
    wait_for_iam_propagation-Created cloud_clock start echo_spec

wait_for_function_active-Waited_example :
    Waited "echo" (7 + 120 * second) (Deploy.wait_for_function_active cloud "echo" with_function)
wait_for_function_active-Waited_example =
    wait_for_function_active-Waited cloud_clock with_function "echo"

main-Chooses_example :
    Chooses (IsAllowed cloud zip_of [] deploy_args) (Deploy.main cloud zip_of [] deploy_args)
main-Chooses_example = main-Chooses cloud zip_of [] deploy_args

main-Ends_example :
    Ends (IsActive cloud_clock zip_of [] deploy_args) (Deploy.main cloud zip_of [] deploy_args)
main-Ends_example = main-Ends cloud_clock zip_of [] deploy_args

abbrev python : Python
python = record {
  loads = λ t.
      if t == "health"
      then some (
          object
            (member "services" (object (member "lambda" (text "available") none_left)) none_left))
      else if t == "null"
      then some null
      else if t == "answer"
      then some Verify.expected_response
      else none;
  dumps = λ v. "null";
  encode = λ t. [];
  decode = λ b. if eqb (length b) 0 then some "health" else some "answer";
  same = λ v w. true;
}

abbrev verify_args : Verify.Args
verify_args = record { endpoint = "http://localhost:4577"; zip = "target/function.zip" }

verifies : (Verify.main python cloud verify_args start).0 ≡ returned tt
unfolding Verify.main ◌>>=◌ pure perform branch or_throw has_code check_state poll_state wait_active
    Verify.wait_for_localstack Verify.attempts Verify.attempt Verify.check_health
    Verify.decode_or_throw Verify.load_or_throw Verify.lambda_state Verify.is_ready_state
    Verify.verify Verify.deleted Verify.check_json Verify.check_response Verify.clean_up
    Verify.wait_for_function_active get get_member recover handled
verifies = refl

main-Passed_example : Ends (Passed python) (Verify.main python cloud verify_args)
main-Passed_example = main-Passed python cloud_clock verify_args

wait_for_localstack-Ends_example :
    Ends
      (WasHealthy python "http://localhost:4577/_localstack/health")
      (Verify.wait_for_localstack python cloud "http://localhost:4577")
wait_for_localstack-Ends_example = wait_for_localstack-Ends python cloud "http://localhost:4577"

wait_for_localstack-AtMost_example :
    Post
      (λ u. AtMost python cloud 60)
      (λ n. AtMost python cloud 60)
      (Verify.wait_for_localstack python cloud "http://localhost:4577" start)
wait_for_localstack-AtMost_example =
    wait_for_localstack-AtMost python cloud "http://localhost:4577" start

abbrev invoke_args : Invoke.Args
invoke_args = record {
  function_name = "echo";
  payload = "null";
  region = none;
  endpoint_url = some "http://localhost:4577";
  qualifier = some "";
}

main-Succeeded_example :
    Ends (Succeeded python invoke_args cloud) (Invoke.main python cloud invoke_args)
main-Succeeded_example = main-Succeeded python invoke_args cloud

-- paths that are all plain
abbrev paths : Build.Paths
paths = record {
  join = λ a b. concat a (concat "/" b);
  abspath = λ p. p;
  basename = λ p. p;
  stem = λ p. p;
  executable = "python";
  repo_root = "lambpie";
}

abbrev build_args : Build.Args
build_args = record {
  source_file = "echo.pie";
  output_dir = "target";
  target = "x86_64-unknown-linux-gnu";
  ir_only = false;
}

-- cargo leaves no bootstrap here, so nothing is copied
builds : Build.main cloud paths build_args start ≡ (
  returned tt,
  record {
    world = start.world;
    calls =
        path_exists "target/cargo-target/x86_64-unknown-linux-gnu/release/bootstrap"
        ∷ run_command
            ("cargo" ∷ "build" ∷ "--release" ∷ "--target" ∷ "x86_64-unknown-linux-gnu"
              ∷ "--manifest-path" ∷ "lambpie/runtime/shim/Cargo.toml" ∷ "--target-dir"
              ∷ "target/cargo-target" ∷ [])
            (("LAMBPIE_HANDLER_OBJ", "target/echo.pie.o") ∷ [])
        ∷ run_command
            ("llc" ∷ "target/echo.pie.ll" ∷ "-filetype=obj" ∷ "-o" ∷ "target/echo.pie.o"
              ∷ "-mtriple=x86_64-unknown-linux-gnu" ∷ "-relocation-model=pic" ∷ [])
            []
        ∷ run_command
            ("python" ∷ "lambpie/compiler.py" ∷ "echo.pie" ∷ "-o" ∷ "target/echo.pie" ∷ [])
            []
        ∷ make_dirs "target"
        ∷ [];
  },
)
unfolding Build.main ◌>>=◌ pure perform branch or_throw Build.run Build.link is_success
builds = refl

main-Finished_example :
    Post
      (Finished paths build_args cloud)
      (Build.Stages.Stopped paths build_args cloud)
      (Build.main cloud paths build_args start)
main-Finished_example = main-Finished paths build_args cloud start refl

abbrev package_args : Package.Args
package_args = record { bootstrap = "target/bootstrap"; output = "target/function.zip" }

packages :
    (Package.main cloud zip_of (80 ∷ []) (λ p. p) package_args start).1.world.files
      "target/function.zip"
    ≡ some (80 ∷ 1 ∷ 2 ∷ [])
unfolding Package.main ◌>>=◌ pure perform branch or_throw Package.pack Package.write_entry
    Package.write_or_throw Build.show_size
packages = refl

main-Packed_example :
    Post
      (Packed cloud cloud_disk zip_of (80 ∷ []) (λ p. p) package_args start.world)
      (Package.Archive.Stopped cloud cloud_disk zip_of (80 ∷ []) (λ p. p) package_args start.world)
      (Package.main cloud zip_of (80 ∷ []) (λ p. p) package_args start)
main-Packed_example =
    main-Packed cloud cloud_disk zip_of (80 ∷ []) (λ p. p) package_args start.world
      (λ e.
        let q : ◌≡◌ {A = Bool} false true = (eq_iff "target/function.zip" "target/bootstrap").1 e in
        cc)
      start refl
