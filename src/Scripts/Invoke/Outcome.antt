-- ===== src/Scripts/Invoke/Outcome.antt =====
-- When invoke.py succeeds.
use lambpie.Common.{◌≡◌, refl, true, Option, none, some, ◌==◌, eq_iff}
use lambpie.Scripts.Effects.{Answer, given, refused, World, Session, pure}
use lambpie.Scripts.Calls.{InvokeResponse, Call, new_client, Reply}
use lambpie.Scripts.Json.{Json, Python}
use lambpie.Scripts.Deploy.{present}
use lambpie.Scripts.Verify.Passing.{decode-then}
use lambpie.Scripts.Invoke.{Args, is_good_status, invoked, check_response, send, send_if_json, main}
use lambpie.Scripts.Ends.{
  Ends, Ends-exit, Ends-throw, Ends-branch, Ends-branch-eq, Ends-call, Ends-answer, Ends-given,
  Ends-result, Ends-weaken,
}

module _ (P : Python) (args : Args) where
  module _ (W : World Reply) where
    -- The request was answered by a response without error, of status 200, 202 or 204.
    abbrev pub Succeeded : Unit {0} → Session W → Type 0
    Succeeded u s =
        (w : W.State) × (v : Json) × (r : InvokeResponse) × (P.loads args.payload ≡ some v)
        × ((W.answer
              (Call.invoke args.function_name (P.encode (P.dumps v)) (present args.qualifier)) w).0
            ≡ given r)
        × (r.function_error ≡ "")
        × (is_good_status r.status_code ≡ true)

    check-Ends :
        (r : InvokeResponse)
        → Ends {W = W}
            (λ u s. (r.function_error ≡ "") × (is_good_status r.status_code ≡ true))
            (check_response P W r)
    unfolding check_response pure
    check-Ends r = decode-then P (P.decode r.payload) _ λ t d.
        Ends-branch-eq (r.function_error == "") _ _
          (λ fine.
            Ends-branch-eq (is_good_status r.status_code) _ _
              (λ good. record { at = λ s. ((eq_iff r.function_error "").0 fine, good) })
              (λ _. Ends-exit 1))
          (λ _. Ends-exit 1)

    invoked-Ends : (a : Answer InvokeResponse) → Ends {W = W} (λ r s. a ≡ given r) (invoked P W a)
    unfolding invoked pure
    invoked-Ends (given r) = record { at = λ s. refl }
    invoked-Ends (refused e) = Ends-branch _ _ _ (Ends-exit 1) (Ends-throw e)

    send-Ends :
        (o : Option Json) → P.loads args.payload ≡ o → Ends Succeeded (send_if_json P W args o)
    unfolding send_if_json send
    send-Ends none e = Ends-exit 1
    send-Ends (some v) e = Ends-call (new_client "lambda" _) _ λ c. Ends-given c _ λ _.
        Ends-answer (Call.invoke args.function_name _ _) _ λ w.
          Ends-result (invoked-Ends _)
            λ r _ q. Ends-weaken (check-Ends r) λ u s (f, g). (w, v, r, e, q, f, g)

    -- invoke.py returns, so that its exit status is 0, only where `--payload` is JSON and the request
    -- for it was answered without FunctionError and with status 200, 202 or 204.
    pub main-Succeeded : Ends Succeeded (main P W args)
    unfolding main
    main-Succeeded = send-Ends (P.loads args.payload) refl
