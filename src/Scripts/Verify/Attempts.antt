-- ===== src/Scripts/Verify/Attempts.antt =====
-- How long verify.py tries to reach localstack.
use lambpie.Common.{◌≡◌, refl, ℕ, zero, suc, ◌+◌, ◌*◌, ◌≤◌, length, String, Option, none, some}
use native.Mathlib.Omega.{arith}
use lambpie.Scripts.Effects.{
  Answer, given, refused, runtime_error, other_error, World, Session, Act, ◌>>=◌,
}
use lambpie.Scripts.Calls.{Bytes, open_url, sleep, Reply, second}
use lambpie.Scripts.Json.{Json, Python, get}
use lambpie.Scripts.Verify.{
  load_or_throw, decode_or_throw, check_health, lambda_state, attempt, attempts,
  wait_for_localstack, is_os_error,
}
use lambpie.Scripts.Triples.{
  Post, Triple, Triple-bind, Triple-given, Triple-pure, Triple-throw, Triple-branch, Triple-call,
  Triple-weaken, Triple-after,
}

module _ (P : Python) (W : World Reply) where
  abbrev Has : ℕ → Session W → Type 0
  Has k s = length s.calls ≡ k

  abbrev pub AtMost : ℕ → Session W → Type 0
  AtMost k s = length s.calls ≤ k

  load-Has :
      {B : Type 0} {Q : B → Session W → Type 0} {S : ℕ → Session W → Type 0}
      {I : Session W → Type 0} (o : Option Json) (f : Json → Act W B)
      → ((s : Session W) → I s → S 1 s)
      → ((v : Json) → Triple I Q S (f v))
      → Triple I Q S (load_or_throw P W o >>= f)
  unfolding load_or_throw
  load-Has {I} none f stop k = Triple-bind (λ _. I) (Triple-throw other_error stop) k
  load-Has {I} (some v) f stop k = Triple-bind (λ _. I) (Triple-pure v λ s i. i) k

  decode-Has :
      {B : Type 0} {Q : B → Session W → Type 0} {S : ℕ → Session W → Type 0}
      {I : Session W → Type 0} (o : Option String) (f : String → Act W B)
      → ((s : Session W) → I s → S 1 s)
      → ((v : String) → Triple I Q S (f v))
      → Triple I Q S (decode_or_throw P W o >>= f)
  unfolding decode_or_throw
  decode-Has {I} none f stop k = Triple-bind (λ _. I) (Triple-throw other_error stop) k
  decode-Has {I} (some v) f stop k = Triple-bind (λ _. I) (Triple-pure v λ s i. i) k

  health-Has : (k : ℕ) (b : Bytes) → Triple (Has k) (λ r. Has k) (λ n. Has k) (check_health P W b)
  unfolding check_health
  health-Has k b =
      decode-Has _ _ (λ s i. i)
        λ t.
          load-Has _ _ (λ s i. i)
            λ v.
              Triple-given (get v "services") _ (λ s i. i)
                λ services _.
                  Triple-given (lambda_state services) _ (λ s i. i)
                    λ state _. Triple-pure _ λ s i. i

  attempt-AtMost :
      (k m : ℕ) (again : Act W (Unit {0})) (a : Answer Bytes)
      → k ≤ m
      → Triple (Has k) (λ u. AtMost m) (λ n. AtMost m) again
      → Triple (Has k) (λ u. AtMost m) (λ n. AtMost m) (attempt P W again a)
  unfolding attempt
  attempt-AtMost k m again (given body) le next =
      Triple-bind (λ _. Has k) (Triple-weaken (health-Has k body) (λ s i. i) λ n s i. omega arith)
        λ ready. Triple-branch ready _ _ (λ _. Triple-pure tt λ s i. omega arith) (λ _. next)
  attempt-AtMost k m again (refused e) le next =
      Triple-branch (is_os_error e) _ _ (λ _. next) (λ _. Triple-throw e λ s i. omega arith)

  attempts-AtMost :
      (n k : ℕ) (url : String)
      → Triple (Has k) (λ u. AtMost (k + 2 * n)) (λ i. AtMost (k + 2 * n)) (attempts P W n url)
  unfolding attempts
  attempts-AtMost zero k url = Triple-throw runtime_error λ s i. omega arith
  attempts-AtMost (suc n) k url =
      Triple-call (open_url url) _ (λ _. Has (1 + k)) (λ s i. omega arith)
        λ a. attempt-AtMost (1 + k) (k + 2 * suc n) _ a (omega arith) (
          Triple-call (sleep second) _ (λ _. Has (2 + k)) (λ s i. omega arith)
            λ _.
              Triple-after
                (Triple-weaken (attempts-AtMost n (2 + k) url) (λ s i. i) (λ i s h. omega arith))
                (λ u s h. omega arith))

  -- Whatever answers, `wait_for_localstack` makes at most 60 calls (30 attempts, each with its pause)
  -- until it returns or raises.
  pub wait_for_localstack-AtMost :
      (endpoint : String) (s : Session W)
      → Post
          (λ u. AtMost (length s.calls + 60))
          (λ n. AtMost (length s.calls + 60))
          (wait_for_localstack P W endpoint s)
  unfolding wait_for_localstack
  wait_for_localstack-AtMost endpoint s = (attempts-AtMost 30 (length s.calls) _).at s refl
