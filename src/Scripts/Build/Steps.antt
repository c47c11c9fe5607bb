-- ===== src/Scripts/Build/Steps.antt =====
-- What build.py runs, in which order, and with which status it stops.
use lambpie.Common.{◌≡◌, refl, ap, ℕ, String, true, false, List, [], ◌∷◌, not, ◌∙◌}
use native.Mathlib.Omega.{arith}
use mathlib.Core.Path.{subst}
use lambpie.Common.Dict.{Dict}
use lambpie.Scripts.Effects.{given, World, Session, Act}
use lambpie.Scripts.Calls.{
  path_exists, make_dirs, copy_file, run_command, is_success, status_of, Reply,
}
use lambpie.Scripts.Build.{Paths, Args, in_output, bootstrap_src, run, copy_bootstrap, link, main}
use lambpie.Scripts.Triples.{
  Post, Triple, Triple-bind, Triple-given, Triple-pure, Triple-exit, Triple-branch, after,
  Triple-call, Triple-weaken, Triple-after,
}
use lambpie.Scripts.Build.Stages.{
  Stage, none_run, compiled, assembled, linked, copied, stripped, done, Succeeded, Compiled,
  Assembled, Linked, Sought, Stripped, At, Stopped, Finished, Fails, steps,
}
use lambpie.Scripts.Build.Strip.{strip-At, is_success-finished, status_of-nonzero}

module _ (P : Paths) (args : Args) (W : World Reply) where
  run-At :
      (g h : Stage) (c : List String) (env : Dict String) (B : (Session W → Type 0))
      → (run_command c env ∷ (done P args) g ≡ (done P args) h)
      → Triple
          (λ s. (At P args W) g s × B s)
          (λ u s. (At P args W) h s × (Succeeded P args W) c env B s)
          ((Fails P args W) h)
          (run W c env)
  unfolding run
  run-At g h c env B e =
      Triple-call (run_command c env) _
        (λ a s.
          (At P args W) h s
          × ((s₀ : Session W) × B s₀
              × ((W.answer (run_command c env) s₀.world).0 ≡ a)
              × (s ≡ after (run_command c env) s₀)))
        (λ s (i, b). (ap (λ l. run_command c env ∷ l) i ∙ e, (s, b, refl, refl)))
        λ a.
          Triple-given a _ (λ s (i, _). (omega arith, i))
            λ code q.
              Triple-branch (is_success code) _ _
                (λ ok. Triple-pure tt λ s (i, (s₀, b, r, t)).
                  (i, (s₀, b, r ∙ q ∙ ap given (is_success-finished code ok), t)))
                (λ no. Triple-exit (status_of code) λ s (i, _). (status_of-nonzero code no, i))

  fails : (g : Stage) (n : ℕ) (s : Session W) → (Fails P args W) g n s → (Stopped P args W) n s
  fails g n s (ne, i) = (ne, (g, i))

  stopping :
      {A : Type 0} (g h : Stage) {B : (Session W → Type 0)} {Q : A → (Session W → Type 0)}
      {m : Act W A}
      → Triple B Q ((Fails P args W) h) m
      → Triple B Q (Stopped P args W) m
  stopping g h k = Triple-weaken k (λ s i. i) (fails h)

  copy-At :
      Triple
        (λ s. (At P args W) linked s × (Sought P args W) true s)
        (λ u s. (At P args W) stripped s × (Stripped P args W) s)
        (Stopped P args W)
        (copy_bootstrap W P args)
  unfolding copy_bootstrap
  copy-At =
      Triple-call (copy_file (bootstrap_src P args) (in_output P args "bootstrap")) _
        (λ a s.
          (At P args W) copied s
          × ((s₀ : Session W) × (Sought P args W) true s₀
              × ((W.answer (copy_file (bootstrap_src P args) (in_output P args "bootstrap"))
                    s₀.world).0
                  ≡ a)
              × (s ≡ after (copy_file (bootstrap_src P args) (in_output P args "bootstrap")) s₀)))
        (λ s (i, q). (
          ap (λ l. copy_file (bootstrap_src P args) (in_output P args "bootstrap") ∷ l) i,
          (s, q, refl, refl),
        ))
        λ a.
          Triple-given a _ (λ s (i, _). (omega arith, (copied, i)))
            λ _ g.
              Triple-weaken (strip-At P args W) (λ s (i, (s₀, q, r, t)). (i, (s₀, q, r ∙ g, t)))
                (fails stripped)

  link-Finished :
      (args.ir_only ≡ false)
      → Triple
          (λ s. (At P args W) compiled s × (Compiled P args W) s)
          (Finished P args W)
          (Stopped P args W)
          (link W P args)
  unfolding link
  link-Finished full =
      Triple-bind (λ _ s. (At P args W) assembled s × (Assembled P args W) s)
        (stopping compiled assembled (run-At compiled assembled _ _ _ refl))
        λ _.
          Triple-bind (λ _ s. (At P args W) linked s × (Linked P args W) s)
            (stopping assembled linked (run-At assembled linked _ _ _ refl))
            λ _.
              Triple-call (path_exists _) _
                (λ found s. (At P args W) linked s × (Sought P args W) found s)
                (λ s (i, l). (i, (s, l, refl, refl)))
                λ found.
                  Triple-branch found _ _
                    (λ e.
                      Triple-weaken
                        (Triple-after copy-At λ u s (i, q). (stripped, ap not full, i, q))
                        (λ s (i, q). (i, subst (λ b. (Sought P args W) b s) e q)) λ n s h. h)
                    (λ e.
                      Triple-pure tt λ s (i, q).
                        (linked, ap not full, i, subst (λ b. (Sought P args W) b s) e q))

  -- build.py runs compiler.py, llc, cargo and strip with these arguments, and copies the bootstrap
  -- between the last two, each once and in this order, with no other step. If it returns, which is
  -- status 0, then with `--ir-only` it has run only compiler.py, whose status was 0. Without it, it
  -- has run compiler.py, llc and cargo, each with status 0; then the bootstrap was either not there,
  -- and these were all, or it was there, the copy succeeded, and strip had status 0 or is not
  -- installed. If build.py stops, it is with another status, after some first part of these steps.
  pub main-Finished :
      (s : Session W)
      → steps s.calls ≡ []
      → Post (Finished P args W) (Stopped P args W) (main W P args s)
  unfolding main
  main-Finished = Triple.at (
      Triple-call (make_dirs _) _ (λ _. (At P args W) none_run) (λ s i. i)
        λ made.
          Triple-given made _ (λ s i. (omega arith, (none_run, i)))
            λ _ _.
              Triple-bind (λ _ s. (At P args W) compiled s × (Compiled P args W) s)
                (Triple-weaken
                  (stopping none_run compiled (run-At none_run compiled _ _ (λ s. Unit) refl))
                  (λ s i. (i, tt)) λ n s h. h)
                λ _.
                  Triple-branch args.ir_only _ _
                    (λ only. Triple-pure tt λ s (i, c). (compiled, only, i, c)) link-Finished)
