-- ===== src/Scripts/Build/Strip.antt =====
-- The end of build.py: the bootstrap is stripped, and its size is printed.
use lambpie.Common.{◌≡◌, ◌≢◌, refl, ap, suc, Bool, true, false, inl, inr, [], ◌∷◌}
use native.Mathlib.Omega.{arith}
use lambpie.Scripts.Effects.{
  Answer, given, refused, World, Session, ◌>>=◌, ◌>>◌, pure, exit, throw, branch, or_throw, perform,
  recover, handled,
}
use lambpie.Scripts.Calls.{
  file_size, run_command, ReturnCode, finished, killed, is_success, status_of, Reply,
}
use lambpie.Scripts.Build.{Paths, Args, in_output, strip_command, is_missing, run, show_size}
use lambpie.Scripts.Triples.{
  Triple, Triple-given, Triple-pure, Triple-branch, Triple-recover, after, Triple-throw,
  Triple-call, Triple-weaken, Triple-after,
}
use lambpie.Scripts.Build.Stages.{
  copied, stripped, Copied, StripAnswer, Stripped, At, Fails, Behind,
}

pub is_success-finished : (r : ReturnCode) → is_success r ≡ true → r ≡ finished 0
unfolding is_success
is_success-finished (finished n) e = let q : n ≡ 0 = ground arith in ap finished q
is_success-finished (killed n) e = cc

pub status_of-nonzero : (r : ReturnCode) → is_success r ≡ false → status_of r ≢ 0
unfolding is_success status_of
status_of-nonzero (finished n) e = λ z. ground arith
status_of-nonzero (killed n) e = λ z. omega arith

module _ (P : Paths) (args : Args) (W : World Reply) where
  show-At :
      (t : Session W) {B : Type 0}
      → Triple
          (λ s. (At P args W) stripped s × ((Behind P args W) t s × B))
          (λ u s. (At P args W) stripped s × ((Behind P args W) t s × B))
          (λ n s. (n ≢ 0) × ((At P args W) stripped s × ((Behind P args W) t s × B)))
          (show_size W (in_output P args "bootstrap"))
  unfolding show_size
  show-At t {B} =
      Triple-call (file_size (in_output P args "bootstrap")) _
        (λ _ s. (At P args W) stripped s × ((Behind P args W) t s × B))
        (λ s (i, ((k, e), b)).
          (i, ((suc k, ap (after (file_size (in_output P args "bootstrap"))) e), b)))
        λ a. Triple-given a _ (λ s i. (omega arith, i)) λ n _. Triple-pure tt λ s i. i

  shown-At :
      (t : Session W) (X : Type 0)
      → Triple
          (λ s. (At P args W) stripped s × ((Behind P args W) t s × X))
          (λ u s. (At P args W) stripped s × ((Behind P args W) t s × X))
          ((Fails P args W) stripped)
          (recover is_missing
            (show_size W (in_output P args "bootstrap"))
            (show_size W (in_output P args "bootstrap")))
  shown-At t X =
      Triple-weaken
        (Triple-recover is_missing _ _ (show-At t)
          (Triple-weaken (show-At t) (λ s (_, i). i) λ n s h. h))
        (λ s i. i) λ n s (ne, (i, _)). (ne, i)

  -- what is (done P args) with strip's status
  decided-At :
      (t : Session W) (B : Type 0) (code : ReturnCode) (b : Bool)
      → is_success code ≡ b
      → Triple
          (λ s. (At P args W) stripped s × ((Behind P args W) t s × B))
          (λ u s.
            (At P args W) stripped s
            × ((Behind P args W) t s × (B × (StripAnswer P args W) (given code))))
          ((Fails P args W) stripped)
          (recover is_missing
            (branch b (pure tt) (exit (status_of code))
              >> show_size W (in_output P args "bootstrap"))
            (show_size W (in_output P args "bootstrap")))
  unfolding recover handled ◌>>=◌ pure exit branch
  decided-At t B code true ok = record {
    at = λ s (i, (k, b)).
        (shown-At t (B × (StripAnswer P args W) (given code))).at s
          (i, (k, (b, inl (ap given (is_success-finished code ok)))));
  }
  decided-At t B code false bad = record { at = λ s (i, b). (status_of-nonzero code bad, i) }

  -- what is (done P args) with strip's answer
  stripped-At :
      (t : Session W) (B : Type 0) (a : Answer ReturnCode)
      → Triple
          (λ s. (At P args W) stripped s × ((Behind P args W) t s × B))
          (λ u s.
            (At P args W) stripped s × ((Behind P args W) t s × (B × (StripAnswer P args W) a)))
          ((Fails P args W) stripped)
          (recover is_missing
            ((or_throw a >>= λ code. branch (is_success code) (pure tt) (exit (status_of code)))
              >> show_size W (in_output P args "bootstrap"))
            (show_size W (in_output P args "bootstrap")))
  unfolding recover handled or_throw ◌>>=◌ pure throw exit branch
  stripped-At t B (refused e) = record {
    at = λ s (i, b).
        (Triple-branch {I = λ s. (At P args W) stripped s × ((Behind P args W) t s × B)}
            (is_missing e) _ _
            (λ none.
              Triple-weaken (show-At t {B = B × (StripAnswer P args W) (refused e)})
                (λ s (i, (k, b)). (i, (k, (b, inr (e, refl, none))))) λ n s (ne, (i, _)). (ne, i))
            (λ other. Triple-throw e λ s (i, b). (omega arith, i))).at
          s (i, b);
  }
  stripped-At t B (given code) = record { at = (decided-At t B code (is_success code) refl).at }

  pub strip-At :
      Triple
        (λ s. (At P args W) copied s × (Copied P args W) s)
        (λ u s. (At P args W) stripped s × (Stripped P args W) s)
        ((Fails P args W) stripped)
        (recover is_missing
          (run W (strip_command P args) [] >> show_size W (in_output P args "bootstrap"))
          (show_size W (in_output P args "bootstrap")))
  unfolding recover run perform ◌>>=◌
  strip-At = record {
    at = λ s (i, c).
        (Triple-after
            (stripped-At (after (run_command (strip_command P args) []) s) ((Copied P args W) s)
              (W.answer (run_command (strip_command P args) []) s.world).0)
            λ u t (j, (k, (c, r))). (j, (s, c, r, k))).at
          (after (run_command (strip_command P args) []) s)
          (ap (λ l. run_command (strip_command P args) [] ∷ l) i, ((0, refl), c));
  }
