-- ===== src/Scripts/Waiting.antt =====
-- The polling loops: how each of them ends, and that it does.
use lambpie.Common.{
  ℕ, zero, suc, ◌+◌, ◌*◌, ◌≤◌, ◌<◌, ◌≡◌, ◌⊎◌, inl, inr, refl, ltb, String, true, false, Bool-cases,
  ◌∷◌, arith, ◌==◌, eq_iff,
}
use lambpie.Scripts.Effects.{
  Answer, given, refused, Ended, returned, exited, raised, no_fuel, World, Session, Act, ◌>>=◌,
  pure, exit, throw, branch, perform, or_throw, continue,
}
use lambpie.Scripts.Calls.{
  FunctionInfo, Call, get_function, monotonic, sleep, Reply, check_state, poll_state, wait_active,
}

-- What the loops rely on of `time`: no call turns the clock back, `monotonic` reads it, and `sleep`
-- takes the time that it is asked for.
pub record IsClock (W : World Reply) : Type 0 where
  pub now : W.State → ℕ
  pub forward : (c : Call) (w : W.State) → now w ≤ now (W.answer c w).1
  pub read_after : (w : W.State) → now w ≤ (W.answer monotonic w).0
  pub read_before : (w : W.State) → (W.answer monotonic w).0 ≤ now (W.answer monotonic w).1
  pub slept : (d : ℕ) (w : W.State) → now w + d ≤ now (W.answer (sleep d) w).1

module _ {W : World Reply} where
  -- `get_function` was the last call, and answered with this state.
  pub record LastState (name state : String) (s : Session W) : Type 0 where
    pub before : W.State
    pub info : FunctionInfo
    pub reply : (W.answer (get_function name) before).0 ≡ given info
    pub after : s.world ≡ (W.answer (get_function name) before).1
    pub state_is : info.state ≡ state

  -- The state was neither Active nor Failed, and then the clock read more than `limit`.
  pub record TimedOut (name : String) (limit : ℕ) (s : Session W) : Type 0 where
    pub before : W.State
    pub info : FunctionInfo
    pub reply : (W.answer (get_function name) before).0 ≡ given info
    pub not_active : (info.state == "Active") ≡ false
    pub not_failed : (info.state == "Failed") ≡ false
    pub late : limit < (W.answer monotonic (W.answer (get_function name) before).1).0

  -- How `wait_for_function_active` ends.
  abbrev pub Waited : String → ℕ → Ended (Unit {0}) × Session W → Type 0
  Waited name limit (returned u, s) = LastState name "Active" s
  Waited name limit (exited n, s) = (n ≡ 1) × (LastState name "Failed" s ⊎ TimedOut name limit s)
  Waited name limit (raised e, s) =
      (w : W.State) × ((W.answer (get_function name) w).0 ≡ refused e)
      × (s.world ≡ (W.answer (get_function name) w).1)
  Waited name limit (no_fuel, s) = ⊥

ltb-true : (a b : ℕ) → ltb a b ≡ true → a < b
ltb-true a b e = ground arith

ltb-false : (a b : ℕ) → ltb a b ≡ false → b ≤ a
ltb-false a b e = ground arith

pub more : (n k : ℕ) → suc n * k ≡ k + n * k
more n k = grind arith

module _ {W : World Reply} (K : IsClock W) (interval limit deadline : ℕ) (name : String)
    (h : limit ≤ deadline) where
  -- one round, where the next one is as it should be
  round :
      (again : Act W (Unit {0})) (s : Session W)
      → ((t : Session W)
          → K.now s.world + interval ≤ K.now t.world
          → (deadline < K.now s.world → ⊥)
          → Waited name limit (again t))
      → (r : Answer FunctionInfo) → (W.answer (get_function name) s.world).0 ≡ r
      → Waited name limit (
          continue
            (
              returned r,
              record {
                world = (W.answer (get_function name) s.world).1;
                calls = get_function name ∷ s.calls;
              },
            )
            (λ answer. or_throw answer >>= λ info. check_state W interval deadline again info))
  unfolding or_throw pure throw check_state perform exit ◌>>=◌ branch
  round again s k (refused e) q = (s.world, q, refl)
  round again s k (given info) q = elim (Bool-cases (info.state == "Active")) [
    | inl active ↦ rw active record {
      before = s.world;
      info = info;
      reply = q;
      after = refl;
      state_is = (eq_iff info.state "Active").0 active;
    }
    | inr not_active ↦ rw not_active (elim (Bool-cases (info.state == "Failed")) [
      | inl failed ↦ rw failed (
        refl,
        inl (record {
          before = s.world;
          info = info;
          reply = q;
          after = refl;
          state_is = (eq_iff info.state "Failed").0 failed;
        }),
      )
      | inr not_failed ↦ rw not_failed (
          let w₁ = (W.answer (get_function name) s.world).1 in
          let later = K.forward (get_function name) s.world in
          let read = K.read_after w₁ in
          elim (Bool-cases (ltb deadline (W.answer monotonic w₁).0)) [
            | inl over ↦
                let late = ltb-true deadline (W.answer monotonic w₁).0 over in
                rw over (
                  refl,
                  inr (record {
                    before = s.world;
                    info = info;
                    reply = q;
                    not_active = not_active;
                    not_failed = not_failed;
                    late = omega (arith, h, late);
                  }),
                )
            | inr early ↦
                let t = (W.answer monotonic w₁).1 in
                let le = ltb-false deadline (W.answer monotonic w₁).0 early in
                rw early (
                  k
                    (record {
                      world = (W.answer (sleep interval) t).1;
                      calls = sleep interval ∷ monotonic ∷ get_function name ∷ s.calls;
                    })
                    (omega (arith, later, K.forward monotonic w₁, K.slept interval t))
                    (λ p. omega (arith, p, le, later, read)))
          ])
    ])
  ]

  poll-Waited :
      (n : ℕ) (s : Session W)
      → deadline < K.now s.world + n * interval
      → Waited name limit (poll_state W (suc n) interval deadline name s)
  unfolding poll_state ◌>>=◌ perform
  poll-Waited zero s p =
      round _ s (λ t q no. absurd (no (omega (arith, p)))) (W.answer (get_function name) s.world).0
        refl
  poll-Waited (suc n) s p =
      round _ s (λ t q no. poll-Waited n t (omega (arith, p, q, more n interval)))
        (W.answer (get_function name) s.world).0 refl

-- With more rounds than fit between the start and the deadline the loop ends, and as it should.
pub wait_active-Waited :
    {W : World Reply} (K : IsClock W) (n interval timeout : ℕ) (name : String) (s : Session W)
    → timeout < n * interval
    → Waited name (K.now s.world + timeout) (wait_active W (suc n) interval timeout name s)
unfolding wait_active ◌>>=◌ perform
wait_active-Waited {W} K n interval timeout name s p =
    let t = (W.answer monotonic s.world).0 in
    let after = K.read_after s.world in
    let before = K.read_before s.world in
    poll-Waited K interval (K.now s.world + timeout) (t + timeout) name (omega (arith, after)) n
      (record { world = (W.answer monotonic s.world).1; calls = monotonic ∷ s.calls })
      (omega (arith, p, before))
