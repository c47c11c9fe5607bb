-- ===== src/Scripts/Deploy/Allowed.antt =====
-- Which calls a run of deploy.py makes, whatever AWS answers.
use lambpie.Common.{
  ◌∙◌, ℕ, zero, suc, ◌≡◌, ◌⊎◌, inl, inr, refl, String, Bool, true, false, Option, none, some, List,
  [], ◌∷◌, ◌++◌, ◌==◌, Bool-cases,
}
use mathlib.Core.Path.{subst}
use lambpie.Scripts.Effects.{
  Exn, Answer, given, refused, World, Act, ◌>>=◌, pure, exit, throw, branch, perform, or_throw,
}
use lambpie.Scripts.Calls.{
  ZipEntry, bootstrap_entry, Bytes, FunctionSpec, FunctionInfo, Call, new_client, get_role,
  create_role, attach_role_policy, get_function, create_function, update_function_code, monotonic,
  has_code, sleep, path_exists, read_file, run_command, status_of, Reply,
}
use lambpie.Scripts.Deploy.{
  lambda_basic_execution_policy_arn, Args, present, make_boto3_kwargs, create_iam_role,
  role_or_create, ensure_iam_role, retry_create, poll_create, wait_for_iam_propagation,
  wait_for_function_active, build_first, resolve_role, function_exists, update_function, create_new,
  create_zip, deploy, main,
}
use lambpie.Scripts.Makes.{
  Chooses, Chooses-bind, Chooses-branch, Chooses-Makes, Always, Makes, Makes-pure, Makes-perform,
  Makes-exit, Makes-throw, Makes-then, Makes-branch, Makes-or_throw, Makes-call, Makes-given,
  Makes-ask, Makes-Asked, Makes-given-eq, Asked,
}
use lambpie.Scripts.Polls.{wait_active-Makes}

-- `present` of a role that was found
nonempty :
    (o : Option String) (arn : String) → present o ≡ some arn → (arn == "" ≡ false) × (o ≡ some arn)
unfolding present
nonempty none arn e = cc
nonempty (some t) arn e = elim (Bool-cases (t == "")) [
  | inl empty ↦ let e' = rw empty at e in cc
  | inr full ↦
      let e' : ◌≡◌ {A = Option String} (some t) (some arn) = rw full at e in
      let q : t ≡ arn = cc in (subst (λ z. z == "" ≡ false) q full, e')
]

module _ (W : World Reply) (zip_of : ZipEntry → Bytes) (build_command : List String)
    (args : Args) where
  -- the zip of what was read of `--bootstrap`, as a file named bootstrap and executable
  abbrev pub IsPackage : Bytes → Type 0
  IsPackage zip =
      (content : Bytes) × (Asked W (read_file args.bootstrap) (given content)
        × (zip ≡ zip_of (bootstrap_entry content)))

  -- whether AWS has the function, by its answer to `get_function`
  abbrev pub IsThere : Bool → Type 0
  IsThere true = (info : FunctionInfo) × Asked W (get_function args.function_name) (given info)
  IsThere false =
      (e : Exn) × (Asked W (get_function args.function_name) (refused e)
        × (has_code "ResourceNotFoundException" e ≡ true))

  -- `--create-role` decides, since there is no `--role`
  abbrev pub CreatesRole : String → Type 0
  CreatesRole name = (present args.role ≡ none) × (args.create_role ≡ some name)

  -- The role is the one of `--role`, or one that IAM gave.
  abbrev pub HasRole : String → Type 0
  HasRole arn =
      (arn == "" ≡ false) × ((present args.role ≡ some arn) ⊎ ((name : String) × CreatesRole name))

  module _ (updates : Bool) where
    -- In a run that updates the function, or else creates it: every function named is that of the
    -- command line, what is created or updated has the package and
    -- the options of the command line, and IAM is called only for `--create-role` without `--role`.
    abbrev pub IsAllowed : Call → Type 0
    IsAllowed (create_function spec) =
        (updates ≡ false)
        × IsThere false
        × (spec.function_name ≡ args.function_name)
        × IsPackage spec.zip_file
        × HasRole spec.role
        × (spec.memory_size ≡ args.memory)
        × (spec.timeout ≡ args.timeout)
        × (spec.architecture ≡ args.architecture)
    IsAllowed (update_function_code n zip a) =
        (updates ≡ true)
        × IsThere true
        × (n ≡ args.function_name)
        × IsPackage zip
        × (a ≡ args.architecture)
    IsAllowed (get_function n) = n ≡ args.function_name
    IsAllowed (get_role n) = CreatesRole n
    IsAllowed (create_role n) = CreatesRole n
    IsAllowed (attach_role_policy n p) = CreatesRole n × (p ≡ lambda_basic_execution_policy_arn)
    IsAllowed (new_client s k) = k ≡ make_boto3_kwargs args.region args.endpoint_url
    IsAllowed (path_exists p) = p ≡ args.bootstrap
    IsAllowed (read_file p) = p ≡ args.bootstrap
    IsAllowed (run_command c env) =
        (f : String) × (present args.build ≡ some f) × (c ≡ build_command ++ f ∷ []) × (env ≡ [])
    IsAllowed monotonic = Unit
    IsAllowed (sleep d) = Unit
    IsAllowed _ = ⊥

    ensure-Makes : (n : String) → CreatesRole n → Makes IsAllowed Always (ensure_iam_role W n)
    unfolding ensure_iam_role create_iam_role role_or_create
    ensure-Makes n c = Makes-call (get_role n) _ c go
      where
        go : (r : Answer String) → Makes IsAllowed Always (role_or_create W n r)
        go (given arn) = Makes-pure arn tt
        go (refused e) =
            Makes-branch _ _ _
              (λ _. Makes-call (create_role n) _ c λ r. Makes-given r _ λ arn.
                Makes-call (attach_role_policy n lambda_basic_execution_policy_arn) _ (c, refl)
                  λ a. Makes-given a _ λ _. Makes-pure arn tt)
              (λ _. Makes-throw e)

    retry-Makes :
        (deadline : ℕ) (again : Act W (Unit {0})) (r : Answer (Unit {0}))
        → Makes IsAllowed Always again
        → Makes IsAllowed Always (retry_create W deadline again r)
    unfolding retry_create
    retry-Makes deadline again (given u) k = Makes-pure u tt
    retry-Makes deadline again (refused e) k =
        Makes-branch _ _ _
          (λ _. Makes-call monotonic _ tt λ _.
            Makes-call monotonic _ tt
              λ now. Makes-branch _ _ _ (λ _. Makes-exit 1) λ _. Makes-call (sleep _) _ tt λ _. k)
          (λ _. Makes-throw e)

    poll_create-Makes :
        (n deadline : ℕ) (spec : FunctionSpec)
        → IsAllowed (create_function spec)
        → Makes IsAllowed Always (poll_create W n deadline spec)
    unfolding poll_create lambpie.Scripts.Effects.out_of_fuel
    poll_create-Makes zero deadline spec h = record { at = λ s. (([], refl, tt), tt) }
    poll_create-Makes (suc n) deadline spec h =
        Makes-call (create_function spec) _ h
          λ r. retry-Makes deadline _ r (poll_create-Makes n deadline spec h)

    active-Makes : Makes IsAllowed Always (wait_for_function_active W args.function_name)
    unfolding wait_for_function_active
    active-Makes = wait_active-Makes args.function_name refl tt (λ d. tt) 62 _ _

    -- the role given by `--role`, or one for `--create-role`
    resolve-Makes :
        (o : Option String)
        → present args.role ≡ o
        → (c : Option String) → args.create_role ≡ c
        → Makes IsAllowed
            (λ r.
              (arn : String)
              → r ≡ some arn
              → (present args.role ≡ some arn) ⊎ ((name : String) × CreatesRole name))
            (resolve_role W args o c)
    unfolding resolve_role
    resolve-Makes (some arn) e c f = Makes-pure _ (λ a q. inl (e ∙ q))
    resolve-Makes none e none f = Makes-pure _ (λ a q. cc)
    resolve-Makes none e (some name) f = Makes-call (new_client "iam" _) _ refl λ r.
        Makes-given r _ λ _.
          Makes-then _ _ (ensure-Makes name (e, f)) λ arn. Makes-pure _ (λ a q. inr (name, (e, f)))

    exists-Makes :
        (r : Answer FunctionInfo)
        → Asked W (get_function args.function_name) r
        → Makes IsAllowed IsThere (function_exists W r)
    unfolding function_exists
    exists-Makes (given info) q = Makes-pure true (info, q)
    exists-Makes (refused e) q =
        Makes-branch _ _ _ (λ none. Makes-pure false (e, (q, none))) (λ _. Makes-throw e)

    update-Makes :
        updates ≡ true
        → IsThere true
        → (zip : Bytes) → IsPackage zip
        → Makes IsAllowed Always (update_function W args zip)
    unfolding update_function
    update-Makes u t zip h =
        Makes-call (update_function_code _ _ _) _ (u, t, refl, h, refl)
          λ r. Makes-given r _ λ _. active-Makes

    create-Makes :
        updates ≡ false
        → IsThere false
        → (zip : Bytes) (role : Option String) → IsPackage zip
        → ((arn : String) → role ≡ some arn → HasRole arn)
        → Makes IsAllowed Always (create_new W args zip role)
    unfolding create_new wait_for_iam_propagation
    create-Makes u t zip none h r = Makes-exit 1
    create-Makes u t zip (some arn) h r =
        Makes-then _ _
          (Makes-call monotonic _ tt
            λ start. poll_create-Makes 13 _ _ (u, t, refl, h, r arn refl, refl, refl, refl))
          λ _. active-Makes

    zip-Makes : Makes IsAllowed IsPackage (create_zip W zip_of build_command args.bootstrap)
    unfolding create_zip
    zip-Makes =
        Makes-ask (read_file args.bootstrap) _ refl
          λ r (w, q). Makes-given-eq r _ λ content e. Makes-pure _ (content, ((w, q ∙ e), refl))

    build-Makes :
        (o : Option String)
        → present args.build ≡ o
        → Makes IsAllowed Always (build_first W build_command o)
    unfolding build_first
    build-Makes none e = Makes-pure tt tt
    build-Makes (some f) e =
        Makes-call (run_command _ []) _ (f, e, refl, refl)
          λ r.
            Makes-given r _
              λ code. Makes-branch _ _ _ (λ _. Makes-pure tt tt) (λ _. Makes-exit (status_of code))

  deploy-Chooses : Chooses IsAllowed (deploy W zip_of build_command args)
  unfolding deploy
  deploy-Chooses =
      Chooses-bind IsAllowed (λ u. zip-Makes u)
        λ zip h.
          Chooses-bind IsAllowed (λ u. Makes-perform (new_client "lambda" _) refl)
            λ r _.
              Chooses-bind IsAllowed {Q = Always} (λ u. Makes-or_throw r (λ _ _. tt))
                λ _ _.
                  Chooses-bind IsAllowed
                    (λ u. resolve-Makes u (present args.role) refl args.create_role refl)
                    λ role q.
                      Chooses-bind IsAllowed
                        (λ u. Makes-Asked (get_function args.function_name) refl)
                        λ answer q'.
                          Chooses-bind IsAllowed (λ u. exists-Makes u answer q')
                            λ exists there.
                              Chooses-branch IsAllowed exists _ _
                                (λ e.
                                  Chooses-Makes IsAllowed true
                                    (update-Makes true refl (subst IsThere e there) zip h))
                                (λ e. Chooses-Makes IsAllowed false (
                                  create-Makes false refl (subst IsThere e there) zip (present role)
                                    h λ arn e. let n = nonempty role arn e in (n.0, q arn n.1)))

  -- Whatever AWS, the file system and the build answer, all calls of a run of deploy.py are allowed
  -- in a run that updates, or all are in a run that creates, so none does both: the run creates or
  -- updates the function of `--function-name` only, with the options given and with the zip of what
  -- the file system answered to the reading of `--bootstrap`, with the mode bits; it creates the
  -- function only where AWS answered to `get_function` that there is none, and updates it only where
  -- AWS answered with the function; it creates it with a role that is not empty, that of `--role`,
  -- or any for `--create-role` without `--role`; it calls IAM only for the role of `--create-role`,
  -- without `--role`, and attaches only the basic execution policy; it deletes and invokes nothing
  -- and writes no file.
  pub main-Chooses : Chooses IsAllowed (main W zip_of build_command args)
  unfolding main
  main-Chooses =
      Chooses-bind IsAllowed (λ u. build-Makes u (present args.build) refl)
        λ _ _.
          Chooses-bind IsAllowed (λ u. Makes-perform (path_exists args.bootstrap) refl)
            λ found _.
              Chooses-branch IsAllowed found _ _ (λ _. deploy-Chooses)
                (λ _. Chooses-Makes IsAllowed {Q = Always} true (Makes-exit 1))
