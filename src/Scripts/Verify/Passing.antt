-- ===== src/Scripts/Verify/Passing.antt =====
-- What it means that verify.py passes, and that it ends.
use lambpie.Common.{◌≡◌, refl, ℕ, zero, suc, ◌*◌, String, true, Option, none, some, arith, concat}
use lambpie.Scripts.Effects.{
  runtime_error, Answer, given, refused, Ended, returned, exited, raised, no_fuel, World, Session,
  Act, ◌>>=◌, pure, throw,
}
use lambpie.Scripts.Calls.{
  Bytes, new_client, delete_function, create_function, sleep, open_url, path_exists, read_file,
  Reply, second,
}
use lambpie.Scripts.Json.{Json, Python, get}
use lambpie.Scripts.Verify.{
  function_name, localstack_ready_max_retries, Args, lambda_state, is_ready_state, load_or_throw,
  decode_or_throw, check_health, attempt, attempts, wait_for_localstack, wait_for_function_active,
  deleted, verify, main,
}
use lambpie.Scripts.Verify.Invoking.{Passed, invoking-Ends}
use lambpie.Scripts.Waiting.{IsClock, Waited, wait_active-Waited}
use lambpie.Scripts.Ends.{
  EndsIn, Ends, Somehow, Ends-pure, Ends-exit, Ends-throw, Ends-branch, Ends-branch-eq, Ends-result,
  Ends-weaken, Ends-given-eq, Ends-then, Ends-call, Ends-answer, Ends-given,
}

module _ (P : Python) where
  -- The body says that Lambda is available, running or ready.
  pub record IsHealthy (b : Bytes) : Type 0 where
    pub body : String
    pub value : Json
    pub services : Option Json
    pub state : Option Json
    pub decoded : P.decode b ≡ some body
    pub loaded : P.loads body ≡ some value
    pub got : get value "services" ≡ given services
    pub stated : lambda_state services ≡ given state
    pub ready : is_ready_state state ≡ true

  module _ {W : World Reply} where
    pub decode-then :
        {B : Type 0} {T : B → Session W → Type 0} (o : Option String) (f : String → Act W B)
        → ((t : String) → o ≡ some t → Ends T (f t))
        → Ends T (decode_or_throw P W o >>= f)
    unfolding decode_or_throw ◌>>=◌ pure throw
    decode-then none f k = record { at = λ s. tt }
    decode-then (some t) f k = record { at = λ s. (k t refl).at s }

    load-then :
        {B : Type 0} {T : B → Session W → Type 0} (o : Option Json) (f : Json → Act W B)
        → ((v : Json) → o ≡ some v → Ends T (f v))
        → Ends T (load_or_throw P W o >>= f)
    unfolding load_or_throw ◌>>=◌ pure throw
    load-then none f k = record { at = λ s. tt }
    load-then (some v) f k = record { at = λ s. (k v refl).at s }

    deleted-Ends : (r : Answer (Unit {0})) → Ends {W = W} Somehow (deleted P W r)
    unfolding deleted
    deleted-Ends (given u) = Ends-pure u
    deleted-Ends (refused e) = Ends-branch _ _ _ (Ends-pure tt) (Ends-throw e)

    -- The health page, read: a true result is a healthy body.
    check_health-Ends :
        (b : Bytes) → Ends {W = W} (λ ready s. ready ≡ true → IsHealthy b) (check_health P W b)
    unfolding check_health pure
    check_health-Ends b = decode-then (P.decode b) _ λ t d. load-then (P.loads t) _ λ v l.
        Ends-given-eq (get v "services") _ λ x g. Ends-given-eq (lambda_state x) _ λ y h. record {
          at = λ s e. record {
            body = t;
            value = v;
            services = x;
            state = y;
            decoded = d;
            loaded = l;
            got = g;
            stated = h;
            ready = e;
          };
        }

    -- The health page was read, and said that Lambda is there.
    abbrev pub WasHealthy : String → Unit {0} → Session W → Type 0
    WasHealthy url u s =
        (w : W.State) × (b : Bytes) × ((W.answer (open_url url) w).0 ≡ given b) × IsHealthy b

    attempt-Ends :
        (url : String) (w : W.State) (again : Act W (Unit {0})) (r : Answer Bytes)
        → (W.answer (open_url url) w).0 ≡ r
        → Ends (WasHealthy url) again
        → Ends (WasHealthy url) (attempt P W again r)
    unfolding attempt pure
    attempt-Ends url w again (given b) e k =
        Ends-result (check_health-Ends b)
          λ ready _ h. Ends-branch-eq ready _ _ (λ q. record { at = λ s. (w, b, e, h q) }) (λ _. k)
    attempt-Ends url w again (refused x) e k = Ends-branch _ _ _ k (Ends-throw x)

    attempts-Ends : (n : ℕ) (url : String) → Ends (WasHealthy url) (attempts P W n url)
    unfolding attempts
    attempts-Ends zero url = Ends-throw runtime_error
    attempts-Ends (suc n) url =
        Ends-answer (open_url url) _
          λ w. attempt-Ends url w _ _ refl (Ends-call (sleep second) _ λ _. attempts-Ends n url)

    module _ (K : IsClock W) where
      waited :
          (limit : ℕ) (r : Ended (Unit {0}) × Session W)
          → Waited function_name limit r
          → EndsIn Somehow r
      waited limit (returned u, s) h = tt
      waited limit (exited n, s) h = tt
      waited limit (raised e, s) h = tt
      waited limit (no_fuel, s) h = h

      wait-Ends : Ends Somehow (wait_for_function_active P W function_name)
      unfolding wait_for_function_active
      wait-Ends = record {
        at = λ s.
            waited _ _ (wait_active-Waited K 61 second (60 * second) function_name s (omega arith));
      }

      verify-Ends : (args : Args) → Ends (Passed P) (verify P W args)
      unfolding verify pure
      verify-Ends args = Ends-call (new_client "lambda" _) _ λ c. Ends-given c _ λ _.
          Ends-call (read_file args.zip) _ λ z. Ends-given z _ λ zip.
            Ends-call (delete_function function_name) _ λ l. Ends-then _ _ (deleted-Ends l) λ _.
              Ends-call (create_function _) _
                λ r. Ends-given r _ λ _. Ends-then _ _ wait-Ends λ _. invoking-Ends P

      -- With a clock that does not run backwards and sleeps as long as it is asked to, every run of
      -- verify.py ends; it returns, so that its exit status is 0, only where its last two calls were
      -- the invocation of the function with the test event, which was answered without FunctionError
      -- by a body that is JSON and the same as `expected_response`, and the deletion of the function.
      pub main-Passed : (args : Args) → Ends (Passed P) (main P W args)
      unfolding main wait_for_localstack
      main-Passed args = Ends-call (path_exists args.zip) _ λ found.
          Ends-branch _ _ _
            (Ends-then _ _
              (Ends-weaken (attempts-Ends localstack_ready_max_retries _) (λ _ _ _. tt))
              λ _. verify-Ends args)
            (Ends-exit 1)

module _ (P : Python) (W : World Reply) (endpoint : String) where
  -- Whatever the clock does, `wait_for_localstack` ends, and it returns only where the health page
  -- was read and said that Lambda is available, running or ready.
  pub wait_for_localstack-Ends :
      Ends
        (WasHealthy P {W = W} (concat endpoint "/_localstack/health"))
        (wait_for_localstack P W endpoint)
  unfolding wait_for_localstack
  wait_for_localstack-Ends = attempts-Ends P localstack_ready_max_retries _
