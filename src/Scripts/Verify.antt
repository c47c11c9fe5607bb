-- ===== src/Scripts/Verify.antt =====
-- scripts/verify.py. Printing is left out.
pub mod Invoking
pub mod Passing
pub mod Attempts
use lambpie.Common.{
  concat, ℕ, zero, suc, ◌*◌, String, Bool, true, false, ◌||◌, Option, none, some, List, [], ◌∷◌,
  ◌==◌,
}
use lambpie.Common.Dict.{Dict}
use lambpie.Scripts.Effects.{
  Exn, os_error, file_not_found, runtime_error, other_error, Answer, given, refused, World, Act,
  ◌>>=◌, ◌>>◌, pure, exit, throw, branch, perform, or_throw, recover,
}
use lambpie.Scripts.Calls.{
  Bytes, FunctionSpec, InvokeResponse, Call, new_client, delete_function, create_function, sleep,
  open_url, path_exists, read_file, Reply, second, has_code, wait_active,
}
use lambpie.Scripts.Json.{Json, text, number, object, none_left, member, Python, get}

abbrev pub function_name : String
function_name = "lambpie-echo-test"

abbrev pub test_event : Json
test_event =
    object (member "message" (text "hello from lambpie") (member "number" (number 42) none_left))

abbrev pub expected_response : Json
expected_response = object (
    member "status" (text "ok")
      (member "echo" (text "hello from lambpie") (member "doubled" (number 84) none_left)))

abbrev pub localstack_ready_max_retries : ℕ
localstack_ready_max_retries = 30

-- `--endpoint` and `--zip`
pub record Args : Type 0 where
  pub endpoint : String
  pub zip : String

-- the first `get` of `data.get("services", {}).get("lambda")`, then the second
unfoldable pub lambda_state : Option Json → Answer (Option Json)
lambda_state none = given none
lambda_state (some services) = get services "lambda"

unfoldable pub is_ready_state : Option Json → Bool
is_ready_state (some (text t)) = t == "available" || (t == "running" || t == "ready")
is_ready_state _ = false

-- URLError and ConnectionError are OSErrors
unfoldable pub is_os_error : Exn → Bool
is_os_error os_error = true
is_os_error file_not_found = true
is_os_error _ = false

abbrev pub any_exception : Exn → Bool
any_exception e = true

module _ (P : Python) (W : World Reply) where
  -- a JSON text or the exception of `json.loads`
  unfoldable pub load_or_throw : Option Json → Act W Json
  load_or_throw none = throw other_error
  load_or_throw (some v) = pure v

  unfoldable pub decode_or_throw : Option String → Act W String
  decode_or_throw none = throw other_error
  decode_or_throw (some t) = pure t

  -- what the health page says of Lambda
  unfoldable pub check_health : Bytes → Act W Bool
  check_health body = do
    t ← decode_or_throw (P.decode body)
    v ← load_or_throw (P.loads t)
    services ← or_throw (get v "services")
    state ← or_throw (lambda_state services)
    pure (is_ready_state state)

  -- the `try` of one attempt, where `again` pauses and goes on
  unfoldable pub attempt : Act W (Unit {0}) → Answer Bytes → Act W (Unit {0})
  attempt again (given body) = do ready ← check_health body; branch ready (pure tt) again
  attempt again (refused e) = branch (is_os_error e) again (throw e)

  -- `wait_for_localstack`, with `n` attempts left
  unfoldable pub attempts : ℕ → String → Act W (Unit {0})
  attempts zero url = throw runtime_error
  attempts (suc n) url = do
    answer ← perform (open_url url)
    attempt (do perform (sleep second); attempts n url) answer

  unfoldable pub wait_for_localstack : String → Act W (Unit {0})
  wait_for_localstack endpoint =
      attempts localstack_ready_max_retries (concat endpoint "/_localstack/health")

  unfoldable pub wait_for_function_active : String → Act W (Unit {0})
  wait_for_function_active name = wait_active W 62 second (60 * second) name

  -- the function of an earlier run, if there is one
  unfoldable pub deleted : Answer (Unit {0}) → Act W (Unit {0})
  deleted (given u) = pure u
  deleted (refused e) = branch (has_code "ResourceNotFoundException" e) (pure tt) (throw e)

  unfoldable pub check_json : Option Json → Act W (Unit {0})
  check_json none = exit 1
  check_json (some v) = branch (P.same v expected_response) (pure tt) (exit 1)

  -- the checks of the response
  unfoldable pub check_response : InvokeResponse → Act W (Unit {0})
  check_response response = do
    t ← decode_or_throw (P.decode response.payload)
    branch (response.function_error == "") (check_json (P.loads t)) (exit 1)

  -- the last `try`
  unfoldable pub clean_up : Act W (Unit {0})
  clean_up = do answer ← perform (delete_function function_name); or_throw answer

  -- `main` behind the wait for localstack
  unfoldable pub verify : Args → Act W (Unit {0})
  verify args = do
    client ← perform (
        new_client "lambda" (
          ("aws_access_key_id", "test")
          ∷ ("aws_secret_access_key", "test")
          ∷ ("region_name", "us-east-1")
          ∷ ("endpoint_url", args.endpoint)
          ∷ []))
    or_throw client
    answer ← perform (read_file args.zip)
    zip ← or_throw answer
    leftover ← perform (delete_function function_name)
    deleted leftover
    created ← perform (
        create_function (record {
          function_name = function_name;
          role = "arn:aws:iam::000000000000:role/lambda-role";
          zip_file = zip;
          memory_size = 128;
          timeout = 30;
          architecture = "x86_64";
        }))
    or_throw created
    wait_for_function_active function_name
    invoked ← perform (Call.invoke function_name (P.encode (P.dumps test_event)) none)
    response ← or_throw invoked
    check_response response
    recover any_exception clean_up (pure tt)

  unfoldable pub main : Args → Act W (Unit {0})
  main args = do
    found ← perform (path_exists args.zip)
    branch found (do wait_for_localstack args.endpoint; verify args) (exit 1)
