-- ===== src/Scripts/Deploy/Creating.antt =====
-- `wait_for_iam_propagation` and `wait_for_function_active` of deploy.py.
use lambpie.Common.{
  ℕ, zero, suc, ◌+◌, ◌*◌, ◌≤◌, ◌<◌, ◌≡◌, refl, leb, String, true, false, Bool-cases, inl, inr, ◌∷◌,
  arith,
}
use lambpie.Scripts.Effects.{
  Exn, Answer, given, refused, Ended, returned, exited, raised, no_fuel, World, Session, Act, ◌>>=◌,
  pure, exit, throw, branch, perform,
}
use lambpie.Scripts.Calls.{FunctionSpec, create_function, monotonic, sleep, Reply, second}
use lambpie.Scripts.Deploy.{
  iam_propagation_poll_interval, iam_propagation_max_wait, is_unassumable, retry_create,
  poll_create, wait_for_iam_propagation, wait_for_function_active,
}
use lambpie.Scripts.Waiting.{IsClock, Waited, wait_active-Waited, more}

leb-true : (a b : ℕ) → leb a b ≡ true → a ≤ b
leb-true a b e = ground arith

leb-false : (a b : ℕ) → leb a b ≡ false → b < a
leb-false a b e = ground arith

module _ {W : World Reply} where
  -- `create_function` was the last call, and answered with `r`.
  pub record LastCreate (spec : FunctionSpec) (r : Answer (Unit {0})) (s : Session W) : Type 0 where
    pub before : W.State
    pub reply : (W.answer (create_function spec) before).0 ≡ r
    pub after : s.world ≡ (W.answer (create_function spec) before).1

  -- The role could not be assumed, and two readings of the clock later it was past `limit`.
  pub record GaveUp (spec : FunctionSpec) (limit : ℕ) (s : Session W) : Type 0 where
    pub before : W.State
    pub error : Exn
    pub reply : (W.answer (create_function spec) before).0 ≡ refused error
    pub after :
        s.world
        ≡ (W.answer monotonic (W.answer monotonic (W.answer (create_function spec) before).1).1).1
    pub unassumable : is_unassumable error ≡ true
    pub late :
        limit
        ≤ (W.answer monotonic (W.answer monotonic (W.answer (create_function spec) before).1).1).0

  abbrev pub Created : FunctionSpec → ℕ → Ended (Unit {0}) × Session W → Type 0
  Created spec limit (returned u, s) = LastCreate spec (given tt) s
  Created spec limit (exited n, s) = (n ≡ 1) × GaveUp spec limit s
  Created spec limit (raised e, s) = LastCreate spec (refused e) s × (is_unassumable e ≡ false)
  Created spec limit (no_fuel, s) = ⊥

module _ {W : World Reply} (K : IsClock W) (spec : FunctionSpec) (limit deadline : ℕ)
    (h : limit ≤ deadline) where
  round :
      (again : Act W (Unit {0})) (s : Session W)
      → ((t : Session W)
          → K.now s.world + iam_propagation_poll_interval ≤ K.now t.world
          → (deadline ≤ K.now s.world → ⊥)
          → Created spec limit (again t))
      → (r : Answer (Unit {0})) → (W.answer (create_function spec) s.world).0 ≡ r
      → Created spec limit (
          retry_create W deadline again r (record {
            world = (W.answer (create_function spec) s.world).1;
            calls = create_function spec ∷ s.calls;
          }))
  unfolding retry_create pure throw perform exit ◌>>=◌ branch
  round again s k (given u) q = record { before = s.world; reply = q; after = refl }
  round again s k (refused e) q = elim (Bool-cases (is_unassumable e)) [
    | inl retry ↦ rw retry (
        let w₁ = (W.answer (create_function spec) s.world).1 in
        let w₂ = (W.answer monotonic w₁).1 in
        let w₃ = (W.answer monotonic w₂).1 in
        let f₁ = K.forward (create_function spec) s.world in
        let f₂ = K.forward monotonic w₁ in
        let read = K.read_after w₂ in
        elim (Bool-cases (leb deadline (W.answer monotonic w₂).0)) [
          | inl over ↦
              let late = leb-true deadline (W.answer monotonic w₂).0 over in
              rw over (
                refl,
                record {
                  before = s.world;
                  error = e;
                  reply = q;
                  after = refl;
                  unassumable = retry;
                  late = omega (arith, h, late);
                },
              )
          | inr early ↦
              let le = leb-false deadline (W.answer monotonic w₂).0 early in
              rw early (
                k
                  (record {
                    world = (W.answer (sleep iam_propagation_poll_interval) w₃).1;
                    calls =
                        sleep iam_propagation_poll_interval
                        ∷ monotonic
                        ∷ monotonic
                        ∷ create_function spec
                        ∷ s.calls;
                  })
                  (omega (
                    arith,
                    f₁,
                    f₂,
                    K.forward monotonic w₂,
                    K.slept iam_propagation_poll_interval w₃,
                  ))
                  (λ p. omega (arith, p, le, f₁, f₂, read)))
        ])
    | inr other ↦ rw other (record { before = s.world; reply = q; after = refl }, other)
  ]

  poll-Created :
      (n : ℕ) (s : Session W)
      → deadline ≤ K.now s.world + n * iam_propagation_poll_interval
      → Created spec limit (poll_create W (suc n) deadline spec s)
  unfolding poll_create ◌>>=◌ perform
  poll-Created zero s p =
      round _ s (λ t q no. absurd (no (omega (arith, p))))
        (W.answer (create_function spec) s.world).0 refl
  poll-Created (suc n) s p =
      round _ s
        (λ t q no. poll-Created n t (omega (arith, p, q, more n iam_propagation_poll_interval)))
        (W.answer (create_function spec) s.world).0 refl

module _ {W : World Reply} (K : IsClock W) (s : Session W) where
  -- With a clock that does not run backwards and sleeps as long as it is asked to,
  -- `wait_for_iam_propagation` ends: it returns where the last `create_function` succeeded; it raises
  -- what that raised, where it is another error than a role that cannot be assumed; it exits with
  -- status 1 only after such an error and not before 60 s are over.
  pub wait_for_iam_propagation-Created :
      (spec : FunctionSpec)
      → Created spec (K.now s.world + 60 * second) (wait_for_iam_propagation W spec s)
  unfolding wait_for_iam_propagation ◌>>=◌ perform
  wait_for_iam_propagation-Created spec =
      let after = K.read_after s.world in
      let before = K.read_before s.world in
      poll-Created K spec (K.now s.world + 60 * second)
        ((W.answer monotonic s.world).0 + iam_propagation_max_wait) (omega (arith, after)) 12
        (record { world = (W.answer monotonic s.world).1; calls = monotonic ∷ s.calls })
        (omega (arith, before))

  -- With such a clock `wait_for_function_active` ends: it returns where the last `get_function`
  -- answered Active; it exits with status 1 where that answered Failed, or answered another state
  -- when more than 120 s were over; it raises what `get_function` raised.
  pub wait_for_function_active-Waited :
      (name : String)
      → Waited name (K.now s.world + 120 * second) (wait_for_function_active W name s)
  unfolding wait_for_function_active
  wait_for_function_active-Waited name =
      wait_active-Waited K 61 (2 * second) (120 * second) name s (omega arith)
