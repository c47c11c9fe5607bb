-- ===== src/Scripts/Polls.antt =====
-- The calls of the polling loop of deploy.py and verify.py.
use lambpie.Common.{ℕ, zero, suc, refl, String, []}
use lambpie.Scripts.Effects.{
  Exn, Answer, given, refused, World, Act, ◌>>=◌, pure, exit, throw, branch, perform, or_throw,
}
use lambpie.Scripts.Calls.{
  FunctionInfo, Call, get_function, monotonic, sleep, Reply, check_state, poll_state, wait_active,
}
use lambpie.Scripts.Makes.{
  Always, Makes, Makes-pure, Makes-exit, Makes-branch, Makes-call, Makes-given,
}

-- polling for one function's state only asks for that and reads the clock
module _ {W : World Reply} {P : Call → Type 0} (name : String) (ask : P (get_function name))
    (read : P monotonic) (rest : (d : ℕ) → P (sleep d)) where
  check_state-Makes :
      (interval deadline : ℕ) (again : Act W (Unit {0})) (info : FunctionInfo)
      → Makes P Always again
      → Makes P Always (check_state W interval deadline again info)
  unfolding check_state
  check_state-Makes interval deadline again info k =
      Makes-branch _ _ _ (λ _. Makes-pure _ tt)
        λ _.
          Makes-branch _ _ _ (λ _. Makes-exit 1)
            λ _. Makes-call monotonic _ read λ now.
              Makes-branch _ _ _ (λ _. Makes-exit 1)
                λ _. Makes-call (sleep interval) _ (rest interval) λ _. k

  poll_state-Makes :
      (n interval deadline : ℕ) → Makes P Always (poll_state W n interval deadline name)
  unfolding poll_state lambpie.Scripts.Effects.out_of_fuel
  poll_state-Makes zero interval deadline = record { at = λ s. (([], refl, tt), tt) }
  poll_state-Makes (suc n) interval deadline = Makes-call (get_function name) _ ask λ r.
      Makes-given r _
        λ info. check_state-Makes interval deadline _ info (poll_state-Makes n interval deadline)

  pub wait_active-Makes :
      (n interval timeout : ℕ) → Makes P Always (wait_active W n interval timeout name)
  unfolding wait_active
  wait_active-Makes n interval timeout =
      Makes-call monotonic _ read λ t. poll_state-Makes n interval _
