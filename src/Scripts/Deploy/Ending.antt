-- ===== src/Scripts/Deploy/Ending.antt =====
-- A run of deploy.py ends, and where it succeeds the function is active.
use lambpie.Common.{ℕ, String, true, false, Option, none, some, List, []}
use lambpie.Scripts.Effects.{
  Answer, given, refused, Ended, returned, exited, raised, no_fuel, World, Session,
}
use lambpie.Scripts.Calls.{
  ZipEntry, Bytes, FunctionSpec, FunctionInfo, new_client, get_role, create_role,
  attach_role_policy, get_function, update_function_code, path_exists, read_file, run_command,
  status_of, Reply,
}
use lambpie.Scripts.Deploy.{
  Args, present, create_iam_role, role_or_create, ensure_iam_role, wait_for_iam_propagation,
  wait_for_function_active, build_first, resolve_role, function_exists, update_function, create_new,
  create_zip, deploy, main,
}
use lambpie.Scripts.Waiting.{IsClock, LastState, Waited}
use lambpie.Scripts.Deploy.Creating.{
  Created, wait_for_iam_propagation-Created, wait_for_function_active-Waited,
}
use lambpie.Scripts.Ends.{
  EndsIn, Ends, Somehow, Ends-pure, Ends-exit, Ends-throw, Ends-branch, Ends-then, Ends-call,
  Ends-given,
}

module _ {W : World Reply} (K : IsClock W) (zip_of : ZipEntry → Bytes) (build_command : List String)
    (args : Args) where
  abbrev pub IsActive : Unit {0} → Session W → Type 0
  IsActive u s = LastState args.function_name "Active" s

  waited :
      (limit : ℕ) (r : Ended (Unit {0}) × Session W)
      → Waited args.function_name limit r
      → EndsIn IsActive r
  waited limit (returned u, s) h = h
  waited limit (exited n, s) h = tt
  waited limit (raised e, s) h = tt
  waited limit (no_fuel, s) h = h

  wait-Ends : Ends IsActive (wait_for_function_active W args.function_name)
  wait-Ends = record {
    at = λ s. waited _ _ (wait_for_function_active-Waited K s args.function_name);
  }

  created :
      (spec : FunctionSpec) (limit : ℕ) (r : Ended (Unit {0}) × Session W)
      → Created spec limit r
      → EndsIn Somehow r
  created spec limit (returned u, s) h = tt
  created spec limit (exited n, s) h = tt
  created spec limit (raised e, s) h = tt
  created spec limit (no_fuel, s) h = h

  propagation-Ends : (spec : FunctionSpec) → Ends Somehow (wait_for_iam_propagation W spec)
  propagation-Ends spec = record {
    at = λ s. created spec _ _ (wait_for_iam_propagation-Created K s spec);
  }

  ensure-Ends : (n : String) → Ends Somehow (ensure_iam_role W n)
  unfolding ensure_iam_role role_or_create create_iam_role
  ensure-Ends n = Ends-call (get_role n) _ go
    where
      go : (r : Answer String) → Ends Somehow (role_or_create W n r)
      go (given arn) = Ends-pure arn
      go (refused e) =
          Ends-branch _ _ _
            (Ends-call (create_role n) _ λ r.
              Ends-given r _
                λ arn. Ends-call (attach_role_policy n _) _ λ a. Ends-given a _ λ _. Ends-pure arn)
            (Ends-throw e)

  resolve-Ends : (o c : Option String) → Ends Somehow (resolve_role W args o c)
  unfolding resolve_role
  resolve-Ends (some arn) c = Ends-pure _
  resolve-Ends none none = Ends-pure _
  resolve-Ends none (some name) =
      Ends-call (new_client "iam" _) _
        λ r. Ends-given r _ λ _. Ends-then _ _ (ensure-Ends name) λ arn. Ends-pure _

  exists-Ends : (r : Answer FunctionInfo) → Ends {W = W} Somehow (function_exists W r)
  unfolding function_exists
  exists-Ends (given info) = Ends-pure true
  exists-Ends (refused e) = Ends-branch _ _ _ (Ends-pure false) (Ends-throw e)

  create-Ends : (zip : Bytes) (o : Option String) → Ends IsActive (create_new W args zip o)
  unfolding create_new
  create-Ends zip none = Ends-exit 1
  create-Ends zip (some arn) = Ends-then _ _ (propagation-Ends _) λ _. wait-Ends

  update-Ends : (zip : Bytes) → Ends IsActive (update_function W args zip)
  unfolding update_function
  update-Ends zip = Ends-call (update_function_code _ _ _) _ λ r. Ends-given r _ λ _. wait-Ends

  zip-Ends : Ends Somehow (create_zip W zip_of build_command args.bootstrap)
  unfolding create_zip
  zip-Ends = Ends-call (read_file args.bootstrap) _ λ r. Ends-given r _ λ c. Ends-pure _

  deploy-Ends : Ends IsActive (deploy W zip_of build_command args)
  unfolding deploy
  deploy-Ends = Ends-then _ _ zip-Ends λ zip. Ends-call (new_client "lambda" _) _ λ r.
      Ends-given r _ λ _. Ends-then _ _ (resolve-Ends (present args.role) args.create_role) λ role.
        Ends-call (get_function args.function_name) _ λ answer.
          Ends-then _ _ (exists-Ends answer)
            λ exists. Ends-branch _ _ _ (update-Ends zip) (create-Ends zip (present role))

  build-Ends : (o : Option String) → Ends Somehow (build_first W build_command o)
  unfolding build_first
  build-Ends none = Ends-pure tt
  build-Ends (some f) =
      Ends-call (run_command _ []) _
        λ r. Ends-given r _ λ code. Ends-branch _ _ _ (Ends-pure tt) (Ends-exit (status_of code))

  -- With a clock that does not run backwards and sleeps as long as it is asked to, every run of
  -- deploy.py ends, and where it returns, so that its exit status is 0, the last call was a
  -- `get_function` of `--function-name` that answered the state Active.
  pub main-Ends : Ends IsActive (main W zip_of build_command args)
  unfolding main
  main-Ends = Ends-then _ _ (build-Ends (present args.build)) λ _.
      Ends-call (path_exists args.bootstrap) _ λ found. Ends-branch _ _ _ deploy-Ends (Ends-exit 1)
