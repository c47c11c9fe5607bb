-- ===== src/Scripts/Calls.antt =====
-- The calls that the scripts make of boto3, the operating system and the clock, and the polling
-- loop that deploy.py and verify.py share but for its two times.
use lambpie.Common.{ℕ, zero, suc, ◌+◌, ◌-◌, eqb, ltb, String, Bool, false, Option, List, ◌==◌}
use lambpie.Common.Dict.{Dict}
use lambpie.Scripts.Effects.{
  Exn, client_error, Answer, World, Act, ◌>>=◌, ◌>>◌, pure, exit, branch, perform, or_throw,
  out_of_fuel,
}

abbrev pub Bytes : Type 0
Bytes = List ℕ

-- the arguments of `create_function`; `Runtime` and `Handler` are the same in both scripts
pub record FunctionSpec : Type 0 where
  pub function_name : String
  pub role : String
  pub zip_file : Bytes
  pub memory_size : ℕ
  pub timeout : ℕ
  pub architecture : String

-- `Configuration.State` of a function
pub record FunctionInfo : Type 0 where
  pub state : String

-- `StatusCode`, `FunctionError` and the body of an invocation's response; 0 and "" where missing
pub record InvokeResponse : Type 0 where
  pub status_code : ℕ
  pub function_error : String
  pub payload : Bytes

pub data Call : Type 0 where
  -- `boto3.client(service, **kwargs)`
  new_client : String → Dict String → Call
  get_role create_role : String → Call
  -- role, policy ARN
  attach_role_policy : String → String → Call
  get_function delete_function : String → Call
  create_function : FunctionSpec → Call
  -- name, code, architecture
  update_function_code : String → Bytes → String → Call
  -- name, payload, qualifier
  invoke : String → Bytes → Option String → Call
  -- `time.monotonic()` and `time.sleep`, in nanoseconds
  monotonic : Call
  sleep : ℕ → Call
  -- `urllib.request.urlopen(url, timeout=2)` and `read()`
  open_url : String → Call
  path_exists read_file file_size make_dirs : String → Call
  write_file : String → Bytes → Call
  copy_file : String → String → Call
  -- `subprocess.run`: the command, and what it adds to the environment
  run_command : List String → Dict String → Call

-- The `returncode` of `subprocess.run`: a status from 0 to 255, or -n where signal n killed it.
pub data ReturnCode : Type 0 where
  finished killed : ℕ → ReturnCode

-- `returncode == 0`
unfoldable pub is_success : ReturnCode → Bool
is_success (finished n) = eqb n 0
is_success (killed n) = false

-- The status of `sys.exit(returncode)`: an operating system keeps -n as 256 - n.
unfoldable pub status_of : ReturnCode → ℕ
status_of (finished n) = n
status_of (killed n) = suc (255 - n)

abbrev pub Reply : Call → Type 0
Reply (new_client s k) = Answer (Unit {0})
Reply (get_role n) = Answer String
Reply (create_role n) = Answer String
Reply (attach_role_policy n p) = Answer (Unit {0})
Reply (get_function n) = Answer FunctionInfo
Reply (delete_function n) = Answer (Unit {0})
Reply (create_function spec) = Answer (Unit {0})
Reply (update_function_code n z a) = Answer (Unit {0})
Reply (invoke n p q) = Answer InvokeResponse
Reply monotonic = ℕ
Reply (sleep t) = Unit {0}
Reply (open_url u) = Answer Bytes
Reply (path_exists p) = Bool
Reply (read_file p) = Answer Bytes
Reply (file_size p) = Answer ℕ
Reply (make_dirs p) = Answer (Unit {0})
Reply (write_file p b) = Answer (Unit {0})
Reply (copy_file p q) = Answer (Unit {0})
Reply (run_command c env) = Answer ReturnCode

-- in nanoseconds
abbrev pub second : ℕ
second = 1000000000

-- whether the exception is a ClientError of this code
unfoldable pub has_code : String → Exn → Bool
has_code code (client_error c m) = c == code
has_code code _ = false

module _ (W : World Reply) where
  -- One round of `wait_for_function_active`, behind the call of `get_function`, where `again` is the
  -- next one.
  unfoldable pub check_state : ℕ → ℕ → Act W (Unit {0}) → FunctionInfo → Act W (Unit {0})
  check_state interval deadline again info = branch (info.state == "Active") (pure tt) (
      branch (info.state == "Failed") (exit 1) (do
        now ← perform monotonic
        branch (ltb deadline now) (exit 1) (do perform (sleep interval); again)))

  -- the loop of `wait_for_function_active`, on fuel
  unfoldable pub poll_state : ℕ → ℕ → ℕ → String → Act W (Unit {0})
  poll_state zero interval deadline name = out_of_fuel
  poll_state (suc n) interval deadline name = do
    answer ← perform (get_function name)
    info ← or_throw answer
    check_state interval deadline (poll_state n interval deadline name) info

  -- Polls, each `interval` after the one before, until `timeout` is over.
  unfoldable pub wait_active : ℕ → ℕ → ℕ → String → Act W (Unit {0})
  wait_active fuel interval timeout name = do
    start ← perform monotonic
    poll_state fuel interval (start + timeout) name

-- What zipfile stores of one file: `zipfile.ZipInfo` and the content.
pub record ZipEntry : Type 0 where
  pub name : String
  pub external_attr : ℕ
  pub content : Bytes

-- the entry of a bootstrap: its name, and 0o755 << 16, the mode that a custom runtime needs
abbrev pub bootstrap_entry : Bytes → ZipEntry
bootstrap_entry content = record { name = "bootstrap"; external_attr = 32309248; content = content }
