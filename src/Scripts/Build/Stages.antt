-- ===== src/Scripts/Build/Stages.antt =====
-- How far a run of build.py has come: its steps, and what they have answered.
use lambpie.Common.{◌≡◌, ◌≢◌, ℕ, zero, suc, String, Bool, true, false, ◌⊎◌, List, [], ◌∷◌, not}
use lambpie.Common.Dict.{Dict}
use lambpie.Scripts.Effects.{Exn, Answer, given, refused, World, Session}
use lambpie.Scripts.Calls.{
  Call, path_exists, file_size, copy_file, run_command, ReturnCode, finished, Reply,
}
use lambpie.Scripts.Build.{
  Paths, Args, in_output, obj_file, bootstrap_src, compile_command, assemble_command, link_command,
  strip_command, is_missing,
}
use lambpie.Scripts.Triples.{after}

-- The calls that build: the programs run and the copy; the latest first, like the calls.
abbrev pub steps : List Call → List Call
steps [] = []
steps (run_command c env ∷ l) = run_command c env ∷ steps l
steps (copy_file p q ∷ l) = copy_file p q ∷ steps l
steps (_ ∷ l) = steps l

-- How far a build has come.
pub data Stage : Type 0 where
  none_run compiled assembled linked copied stripped : Stage

module _ (P : Paths) (args : Args) where
  abbrev compiling : List Call
  compiling = run_command (compile_command P args) [] ∷ []

  abbrev assembling : List Call
  assembling = run_command (assemble_command P args) [] ∷ compiling

  abbrev linking : List Call
  linking =
      run_command (link_command P args) (("LAMBPIE_HANDLER_OBJ", obj_file P args) ∷ []) ∷ assembling

  abbrev copying : List Call
  copying = copy_file (bootstrap_src P args) (in_output P args "bootstrap") ∷ linking

  -- the steps so far
  abbrev pub done : Stage → List Call
  done none_run = []
  done compiled = compiling
  done assembled = assembling
  done linked = linking
  done copied = copying
  done stripped = run_command (strip_command P args) [] ∷ copying

  -- whether a build that returns may have come so far and no further
  abbrev pub is_finished : Stage → Bool
  is_finished compiled = args.ir_only
  is_finished linked = not args.ir_only
  is_finished stripped = not args.ir_only
  is_finished _ = false

  module _ (W : World Reply) where
    abbrev pub Held : Type 1
    Held = Session W → Type 0

    -- the command was the last call, from a session with `B`, and its status was 0
    abbrev pub Succeeded : List String → Dict String → Held → Held
    Succeeded c env B s =
        (s₀ : Session W) × B s₀
        × ((W.answer (run_command c env) s₀.world).0 ≡ given (finished 0))
        × (s ≡ after (run_command c env) s₀)

    abbrev pub Compiled : Held
    Compiled = Succeeded (compile_command P args) [] (λ s. Unit)

    abbrev pub Assembled : Held
    Assembled = Succeeded (assemble_command P args) [] Compiled

    abbrev pub Linked : Held
    Linked =
        Succeeded (link_command P args) (("LAMBPIE_HANDLER_OBJ", obj_file P args) ∷ []) Assembled

    -- cargo was followed by the question for its binary, answered so
    abbrev pub Sought : Bool → Held
    Sought found s =
        (s₀ : Session W) × Linked s₀
        × ((W.answer (path_exists (bootstrap_src P args)) s₀.world).0 ≡ found)
        × (s ≡ after (path_exists (bootstrap_src P args)) s₀)

    -- the binary was there, and was copied
    abbrev pub Copied : Held
    Copied s =
        (s₀ : Session W) × Sought true s₀
        × ((W.answer (copy_file (bootstrap_src P args) (in_output P args "bootstrap")) s₀.world).0
            ≡ given tt)
        × (s ≡ after (copy_file (bootstrap_src P args) (in_output P args "bootstrap")) s₀)

    -- there is no program strip, or its status was 0
    abbrev pub StripAnswer : Answer ReturnCode → Type 0
    StripAnswer a = (a ≡ given (finished 0)) ⊎ ((e : Exn) × (a ≡ refused e) × (is_missing e ≡ true))

    -- behind so many questions for the size of the copy
    abbrev pub sizes : ℕ → Session W → Session W
    sizes zero t = t
    sizes (suc k) t = after (file_size (in_output P args "bootstrap")) (sizes k t)

    abbrev pub Behind : Session W → Held
    Behind t s = (k : ℕ) × (s ≡ sizes k t)

    -- The binary was copied, and stripped if there is a strip; only its size was asked for since.
    abbrev pub Stripped : Held
    Stripped s =
        (s₀ : Session W) × Copied s₀
        × StripAnswer (W.answer (run_command (strip_command P args) []) s₀.world).0
        × Behind (after (run_command (strip_command P args) []) s₀) s

    -- what the steps of a build that came so far have answered
    abbrev pub Outcome : Stage → Held
    Outcome compiled = Compiled
    Outcome linked = Sought false
    Outcome stripped = Stripped
    Outcome _ = λ s. ⊥

    abbrev pub At : Stage → Held
    At g s = steps s.calls ≡ done g

    -- stopped, with a status that is not 0, after some of the steps
    abbrev pub Stopped : ℕ → Held
    Stopped n s = (n ≢ 0) × ((g : Stage) × (steps s.calls ≡ done g))

    abbrev pub Finished : Unit {0} → Held
    Finished u s = (g : Stage) × (is_finished g ≡ true) × (steps s.calls ≡ done g) × Outcome g s

    abbrev pub Fails : Stage → ℕ → Held
    Fails g n s = (n ≢ 0) × At g s
