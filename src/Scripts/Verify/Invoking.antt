-- ===== src/Scripts/Verify/Invoking.antt =====
-- The end of scripts/verify.py: the invocation, the checks of its response and the deletion.
use lambpie.Common.{◌≡◌, refl, ◌∙◌, ℕ, String, true, Option, none, some, ◌==◌, eq_iff}
use lambpie.Scripts.Effects.{
  Answer, given, Ended, returned, exited, raised, no_fuel, World, Session, Act, ◌>>=◌, pure, throw,
  perform, or_throw, recover,
}
use lambpie.Scripts.Calls.{InvokeResponse, Call, delete_function, Reply}
use lambpie.Scripts.Json.{Json, Python}
use lambpie.Scripts.Verify.{
  function_name, test_event, expected_response, any_exception, decode_or_throw, check_json,
  check_response, clean_up,
}
use lambpie.Scripts.Ends.{EndsIn, Ends}
use lambpie.Scripts.Triples.{
  after, Post, Triple, Triple-bind, Triple-pure, Triple-exit, Triple-branch, Triple-call,
  Triple-given, Triple-or_throw, Triple-recover, Triple-weaken, Triple-after,
}

module _ (P : Python) where
  -- The response is that of a run without an error, and its body a JSON value that is the expected
  -- one.
  pub record IsExpected (r : InvokeResponse) : Type 0 where
    pub body : String
    pub value : Json
    pub no_error : r.function_error ≡ ""
    pub decoded : P.decode r.payload ≡ some body
    pub loaded : P.loads body ≡ some value
    pub expected : P.same value expected_response ≡ true

  abbrev request : Call
  request = Call.invoke function_name (P.encode (P.dumps test_event)) none

  module _ {W : World Reply} where
    -- the session behind the invocation, which was answered so
    abbrev Invoked : Answer InvokeResponse → Session W → Type 0
    Invoked a s = (s₀ : Session W) × ((W.answer request s₀.world).0 ≡ a) × (s ≡ after request s₀)

    -- The last two calls are the invocation, which was answered as expected, and the deletion.
    abbrev pub Passed : Unit {0} → Session W → Type 0
    Passed u s =
        (r : InvokeResponse) × IsExpected r
        × ((t : Session W) × Invoked (given r) t × (s ≡ after (delete_function function_name) t))

    abbrev Stops : ℕ → Session W → Type 0
    Stops n s = Unit

    module _ {I : Session W → Type 0} where
      check_json-Triple :
          (r : InvokeResponse) (t : String) (o : Option Json)
          → P.decode r.payload ≡ some t
          → r.function_error ≡ ""
          → P.loads t ≡ o
          → Triple I (λ u s. IsExpected r × I s) Stops (check_json P W o)
      unfolding check_json
      check_json-Triple r t none d e l = Triple-exit 1 λ s i. tt
      check_json-Triple r t (some v) d e l =
          Triple-branch (P.same v expected_response) _ _
            (λ agrees. Triple-pure tt λ s i. (
              record {
                body = t;
                value = v;
                no_error = e;
                decoded = d;
                loaded = l;
                expected = agrees;
              },
              i,
            ))
            λ _. Triple-exit 1 λ s i. tt

      decode-Triple :
          {T : Unit {0} → Session W → Type 0} (o : Option String) (f : String → Act W (Unit {0}))
          → ((t : String) → o ≡ some t → Triple I T Stops (f t))
          → Triple I T Stops (decode_or_throw P W o >>= f)
      unfolding decode_or_throw ◌>>=◌ pure throw
      decode-Triple none f k = record { at = λ s i. tt }
      decode-Triple (some t) f k = record { at = λ s i. (k t refl).at s i }

      check_response-Triple :
          (r : InvokeResponse) → Triple I (λ u s. IsExpected r × I s) Stops (check_response P W r)
      unfolding check_response
      check_response-Triple r = decode-Triple (P.decode r.payload) _ λ t d.
          Triple-branch (r.function_error == "") _ _
            (λ fine. check_json-Triple r t (P.loads t) d ((eq_iff r.function_error "").0 fine) refl)
            λ _. Triple-exit 1 λ s i. tt

    -- the deletion is the last call, whatever it answers
    clean_up-Triple :
        {I : Session W → Type 0}
        → Triple I
            (λ u s. (t : Session W) × I t × (s ≡ after (delete_function function_name) t))
            Stops
            (recover any_exception (clean_up P W) (pure tt))
    unfolding clean_up
    clean_up-Triple {I} =
        Triple-weaken
          {S = λ n s. (t : Session W) × I t × (s ≡ after (delete_function function_name) t)}
          (Triple-recover any_exception _ _
            (Triple-call (delete_function function_name) _
              (λ _ s. (t : Session W) × I t × (s ≡ after (delete_function function_name) t))
              (λ s i. (s, i, refl)) λ a. Triple-or_throw a (λ s i. i) λ _ _ s i. i)
            (Triple-pure tt λ s i. i))
          (λ s i. i) λ n s h. tt

    Post-EndsIn : (r : Ended (Unit {0}) × Session W) → Post Passed Stops r → EndsIn Passed r
    Post-EndsIn (returned u, s) h = h
    Post-EndsIn (exited n, s) h = tt
    Post-EndsIn (raised e, s) h = tt
    Post-EndsIn (no_fuel, s) h = h

    invoking-Triple :
        Triple
          (λ s. Unit)
          Passed
          Stops
          (perform request >>= λ invoked. or_throw invoked >>= λ response.
            check_response P W response >>= λ _. recover any_exception (clean_up P W) (pure tt))
    invoking-Triple =
        Triple-call request _ Invoked (λ s i. (s, refl, refl))
          λ a.
            Triple-given a _ (λ s i. tt)
              λ r e.
                Triple-bind (λ _ s. IsExpected r × Invoked a s) (check_response-Triple r)
                  λ _.
                    Triple-after clean_up-Triple
                      λ u s (t, (x, (s₀, q, l)), m). (r, x, (t, (s₀, q ∙ e, l), m))

    pub invoking-Ends : Ends Passed (
        perform request >>= λ invoked. or_throw invoked >>= λ response.
        check_response P W response >>= λ _. recover any_exception (clean_up P W) (pure tt))
    invoking-Ends = record { at = λ s. Post-EndsIn _ (invoking-Triple.at s tt) }
