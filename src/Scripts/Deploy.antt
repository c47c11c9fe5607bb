-- ===== src/Scripts/Deploy.antt =====
-- scripts/deploy.py. Printing is left out.
pub mod Creating
pub mod Allowed
pub mod Ending
use lambpie.Common.{
  ℕ, suc, zero, ◌+◌, ◌*◌, leb, String, Bool, true, false, ◌&&◌, Option, none, some, List, [], ◌∷◌,
  if◌then◌else◌, ◌==◌,
}
use text.Mathlib.Text.{find?}
use lambpie.Common.Dict.{Dict}
use lambpie.Scripts.Effects.{
  Exn, client_error, Answer, given, refused, World, Act, ◌>>=◌, ◌>>◌, pure, exit, throw, branch,
  perform, or_throw, out_of_fuel,
}
use lambpie.Scripts.Calls.{
  ZipEntry, bootstrap_entry, Bytes, FunctionSpec, FunctionInfo, Call, new_client, get_role,
  attach_role_policy, get_function, create_function, update_function_code, monotonic, sleep,
  path_exists, read_file, run_command, is_success, status_of, Reply, second, has_code, wait_active,
}

abbrev pub lambda_basic_execution_policy_arn : String
lambda_basic_execution_policy_arn =
    "arn:aws:iam::aws:policy/service-role/AWSLambdaBasicExecutionRole"

abbrev pub iam_propagation_poll_interval : ℕ
iam_propagation_poll_interval = 5 * second

abbrev pub iam_propagation_max_wait : ℕ
iam_propagation_max_wait = 60 * second

-- the command line, as argparse leaves it
pub record Args : Type 0 where
  pub function_name : String
  pub build : Option String
  pub bootstrap : String
  pub region : Option String
  pub endpoint_url : Option String
  pub role : Option String
  pub create_role : Option String
  pub memory : ℕ
  pub timeout : ℕ
  pub architecture : String

-- a text that is neither None nor empty
unfoldable pub present : Option String → Option String
present none = none
present (some t) = if t == "" then none else some t

unfoldable pub text_option : String → Option String → Dict String
text_option key none = []
text_option key (some t) = if t == "" then [] else (key, t) ∷ []

unfoldable pub make_boto3_kwargs : Option String → Option String → Dict String
make_boto3_kwargs region endpoint_url =
    mathlib.Core.List.◌++◌ (text_option "region_name" region)
      (text_option "endpoint_url" endpoint_url)

-- "The role defined for the function cannot be assumed by Lambda"
unfoldable pub is_unassumable : Exn → Bool
is_unassumable (client_error code message) =
    code == "InvalidParameterValueException"
    && elim (find? message "cannot be assumed") [ none ↦ false | some _ ↦ true ]
is_unassumable _ = false

module _ (W : World Reply) where
  -- `ensure_iam_role`, where the role is not there
  unfoldable pub create_iam_role : String → Act W String
  create_iam_role name = do
    created ← perform (Call.create_role name)
    arn ← or_throw created
    attached ← perform (attach_role_policy name lambda_basic_execution_policy_arn)
    or_throw attached
    pure arn

  unfoldable pub role_or_create : String → Answer String → Act W String
  role_or_create name (given arn) = pure arn
  role_or_create name (refused e) =
      branch (has_code "NoSuchEntity" e) (create_iam_role name) (throw e)

  unfoldable pub ensure_iam_role : String → Act W String
  ensure_iam_role name = do answer ← perform (get_role name); role_or_create name answer

  -- the `except` of `wait_for_iam_propagation`, where `again` is the next round
  unfoldable pub retry_create : ℕ → Act W (Unit {0}) → Answer (Unit {0}) → Act W (Unit {0})
  retry_create deadline again (given u) = pure u
  retry_create deadline again (refused e) =
      branch (is_unassumable e)
        (do
          elapsed ← perform monotonic
          now ← perform monotonic
          branch (leb deadline now) (exit 1)
              (do perform (sleep iam_propagation_poll_interval); again))
        (throw e)

  unfoldable pub poll_create : ℕ → ℕ → FunctionSpec → Act W (Unit {0})
  poll_create zero deadline spec = out_of_fuel
  poll_create (suc n) deadline spec = do
    answer ← perform (create_function spec)
    retry_create deadline (poll_create n deadline spec) answer

  -- 13 rounds: the clock reads the deadline after 12 pauses at the latest
  unfoldable pub wait_for_iam_propagation : FunctionSpec → Act W (Unit {0})
  wait_for_iam_propagation spec = do
    start ← perform monotonic
    poll_create 13 (start + iam_propagation_max_wait) spec

  -- 62 rounds: the clock is behind the deadline after 61 pauses at the latest
  unfoldable pub wait_for_function_active : String → Act W (Unit {0})
  wait_for_function_active name = wait_active W 62 (2 * second) (120 * second) name

  -- the optional build
  unfoldable pub build_first : List String → Option String → Act W (Unit {0})
  build_first command none = pure tt
  build_first command (some pie_file) = do
    answer ← perform (run_command (mathlib.Core.List.◌++◌ command (pie_file ∷ [])) [])
    returncode ← or_throw answer
    branch (is_success returncode) (pure tt) (exit (status_of returncode))

  -- the role ARN, if one was asked for
  unfoldable pub resolve_role : Args → Option String → Option String → Act W (Option String)
  resolve_role args (some arn) name = pure (some arn)
  resolve_role args none none = pure none
  resolve_role args none (some name) = do
    client ← perform (new_client "iam" (make_boto3_kwargs args.region args.endpoint_url))
    or_throw client
    arn ← ensure_iam_role name
    pure (some arn)

  -- whether the function exists, by the answer to `get_function`
  unfoldable pub function_exists : Answer FunctionInfo → Act W Bool
  function_exists (given info) = pure true
  function_exists (refused e) =
      branch (has_code "ResourceNotFoundException" e) (pure false) (throw e)

  unfoldable pub update_function : Args → Bytes → Act W (Unit {0})
  update_function args zip = do
    answer ← perform (update_function_code args.function_name zip args.architecture)
    or_throw answer
    wait_for_function_active args.function_name

  unfoldable pub create_new : Args → Bytes → Option String → Act W (Unit {0})
  create_new args zip none = exit 1
  create_new args zip (some arn) = do
    wait_for_iam_propagation (record {
      function_name = args.function_name;
      role = arn;
      zip_file = zip;
      memory_size = args.memory;
      timeout = args.timeout;
      architecture = args.architecture;
    })
    wait_for_function_active args.function_name

-- `zip_of` is what zipfile writes for one entry, and `build_command` starts scripts/build.py.
module _ (W : World Reply) (zip_of : ZipEntry → Bytes) (build_command : List String) where
  unfoldable pub create_zip : String → Act W Bytes
  create_zip path = do
    answer ← perform (read_file path)
    content ← or_throw answer
    pure (zip_of (bootstrap_entry content))

  -- `main` from the check for the bootstrap on
  unfoldable pub deploy : Args → Act W (Unit {0})
  deploy args = do
    zip ← create_zip args.bootstrap
    client ← perform (new_client "lambda" (make_boto3_kwargs args.region args.endpoint_url))
    or_throw client
    role ← resolve_role W args (present args.role) args.create_role
    answer ← perform (get_function args.function_name)
    exists ← function_exists W answer
    branch exists (update_function W args zip) (create_new W args zip (present role))

  unfoldable pub main : Args → Act W (Unit {0})
  main args = do
    build_first W build_command (present args.build)
    found ← perform (path_exists args.bootstrap)
    branch found (deploy args) (exit 1)
