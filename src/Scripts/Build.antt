-- ===== src/Scripts/Build.antt =====
-- scripts/build.py. Printing is left out.
pub mod Stages
pub mod Strip
pub mod Steps
use lambpie.Common.{concat, String, Bool, true, false, List, [], ◌∷◌}
use lambpie.Common.Dict.{Dict}
use lambpie.Scripts.Effects.{
  Exn, file_not_found, World, Act, ◌>>=◌, ◌>>◌, pure, exit, branch, perform, or_throw, recover,
}
use lambpie.Scripts.Calls.{
  path_exists, file_size, make_dirs, copy_file, run_command, is_success, status_of, Reply,
}

-- the functions of `os.path`, which only compute, and `sys.executable`
pub record Paths : Type 0 where
  pub join : String → String → String
  pub abspath : String → String
  pub basename : String → String
  -- the first part of `splitext`
  pub stem : String → String
  pub executable : String
  pub repo_root : String

pub record Args : Type 0 where
  pub source_file : String
  pub output_dir : String
  pub target : String
  pub ir_only : Bool

unfoldable pub is_missing : Exn → Bool
is_missing file_not_found = true
is_missing _ = false

module _ (P : Paths) (args : Args) where
  -- the output directory, and the file of this extension in it
  abbrev pub output : String
  output = P.abspath args.output_dir

  abbrev pub base : String
  base = P.stem (P.basename (P.abspath args.source_file))

  abbrev pub in_output : String → String
  in_output name = P.join output name

  abbrev pub obj_file : String
  obj_file = in_output (concat base ".o")

  abbrev pub bootstrap_src : String
  bootstrap_src =
      P.join (P.join (P.join (in_output "cargo-target") args.target) "release") "bootstrap"

  -- compiler.py, llc, cargo and strip
  abbrev pub compile_command : List String
  compile_command =
      P.executable
      ∷ P.join P.repo_root "compiler.py"
      ∷ P.abspath args.source_file
      ∷ "-o"
      ∷ in_output base
      ∷ []

  abbrev pub assemble_command : List String
  assemble_command =
      "llc"
      ∷ in_output (concat base ".ll")
      ∷ "-filetype=obj"
      ∷ "-o"
      ∷ obj_file
      ∷ concat "-mtriple=" args.target
      ∷ "-relocation-model=pic"
      ∷ []

  abbrev pub link_command : List String
  link_command =
      "cargo"
      ∷ "build"
      ∷ "--release"
      ∷ "--target"
      ∷ args.target
      ∷ "--manifest-path"
      ∷ P.join (P.join (P.join P.repo_root "runtime") "shim") "Cargo.toml"
      ∷ "--target-dir"
      ∷ in_output "cargo-target"
      ∷ []

  abbrev pub strip_command : List String
  strip_command = "strip" ∷ "-s" ∷ in_output "bootstrap" ∷ []

module _ (W : World Reply) where
  -- `run`
  unfoldable pub run : List String → Dict String → Act W (Unit {0})
  run command env = do
    answer ← perform (run_command command env)
    returncode ← or_throw answer
    branch (is_success returncode) (pure tt) (exit (status_of returncode))

  -- `os.path.getsize`, for printing
  unfoldable pub show_size : String → Act W (Unit {0})
  show_size path = do answer ← perform (file_size path); size ← or_throw answer; pure tt

module _ (W : World Reply) (P : Paths) (args : Args) where
  -- the copy of the binary, stripped if there is a `strip`
  unfoldable pub copy_bootstrap : Act W (Unit {0})
  copy_bootstrap = do
    copied ← perform (copy_file (bootstrap_src P args) (in_output P args "bootstrap"))
    or_throw copied
    recover is_missing
        (do run W (strip_command P args) []; show_size W (in_output P args "bootstrap"))
        (show_size W (in_output P args "bootstrap"))

  -- steps 2 and 3
  unfoldable pub link : Act W (Unit {0})
  link = do
    run W (assemble_command P args) []
    run W (link_command P args) (("LAMBPIE_HANDLER_OBJ", obj_file P args) ∷ [])
    found ← perform (path_exists (bootstrap_src P args))
    branch found copy_bootstrap (pure tt)

  unfoldable pub main : Act W (Unit {0})
  main = do
    made ← perform (make_dirs (output P args))
    or_throw made
    run W (compile_command P args) []
    branch args.ir_only (pure tt) link
