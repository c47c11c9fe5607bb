-- ===== src/Scripts/Invoke.antt =====
-- scripts/invoke.py. Printing is left out.
pub mod Outcome
use lambpie.Common.{ℕ, String, Bool, true, false, ◌||◌, eqb, Option, none, some, ◌==◌}
use lambpie.Scripts.Effects.{
  Exn, client_error, Answer, given, refused, World, Act, ◌>>=◌, ◌>>◌, pure, exit, throw, branch,
  perform, or_throw,
}
use lambpie.Scripts.Calls.{InvokeResponse, Call, new_client, Reply}
use lambpie.Scripts.Json.{Json, Python}
use lambpie.Scripts.Deploy.{present, make_boto3_kwargs}
use lambpie.Scripts.Verify.{decode_or_throw}

pub record Args : Type 0 where
  pub function_name : String
  pub payload : String
  pub region : Option String
  pub endpoint_url : Option String
  pub qualifier : Option String

unfoldable pub is_client_error : Exn → Bool
is_client_error (client_error c m) = true
is_client_error _ = false

-- 200, 202 or 204
unfoldable pub is_good_status : ℕ → Bool
is_good_status n = eqb n 200 || (eqb n 202 || eqb n 204)

module _ (P : Python) (W : World Reply) where
  -- `sys.exit` for a ClientError; any other exception goes on
  unfoldable pub invoked : Answer InvokeResponse → Act W InvokeResponse
  invoked (given r) = pure r
  invoked (refused e) = branch (is_client_error e) (exit 1) (throw e)

  unfoldable pub check_response : InvokeResponse → Act W (Unit {0})
  check_response response = do
    t ← decode_or_throw P W (P.decode response.payload)
    branch (response.function_error == "")
        (branch (is_good_status response.status_code) (pure tt) (exit 1)) (exit 1)

  unfoldable pub send : Args → Json → Act W (Unit {0})
  send args payload = do
    client ← perform (new_client "lambda" (make_boto3_kwargs args.region args.endpoint_url))
    or_throw client
    answer ←
        perform
          (Call.invoke args.function_name (P.encode (P.dumps payload)) (present args.qualifier))
    response ← invoked answer
    check_response response

  -- the payload, if it is JSON
  unfoldable pub send_if_json : Args → Option Json → Act W (Unit {0})
  send_if_json args none = exit 1
  send_if_json args (some v) = send args v

  unfoldable pub main : Args → Act W (Unit {0})
  main args = send_if_json args (P.loads args.payload)
