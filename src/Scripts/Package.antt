-- ===== src/Scripts/Package.antt =====
-- scripts/package.py. Printing is left out.
pub mod Archive
use lambpie.Common.{String, []}
use lambpie.Scripts.Effects.{
  Answer, given, refused, throw, World, Act, ◌>>=◌, ◌>>◌, exit, branch, perform, or_throw,
}
use lambpie.Scripts.Calls.{
  Bytes, path_exists, read_file, make_dirs, write_file, Reply, ZipEntry, bootstrap_entry,
}
use lambpie.Scripts.Build.{show_size}

pub record Args : Type 0 where
  pub bootstrap : String
  pub output : String

-- `zip_of` is what zipfile writes for one entry and `empty_zip` for none, `directory` is
-- `os.path.dirname` of the `abspath`.
module _ (W : World Reply) (zip_of : ZipEntry → Bytes) (empty_zip : Bytes)
    (directory : String → String) where
  unfoldable pub write_or_throw : String → Bytes → Act W (Unit {0})
  write_or_throw path bytes = do written ← perform (write_file path bytes); or_throw written

  -- The `with` block: where the bootstrap cannot be read, an archive of no entry is left.
  unfoldable pub write_entry : Args → Answer Bytes → Act W (Unit {0})
  write_entry args (given content) = write_or_throw args.output (zip_of (bootstrap_entry content))
  write_entry args (refused e) = do write_or_throw args.output empty_zip; throw e

  unfoldable pub pack : Args → Act W (Unit {0})
  pack args = do
    made ← perform (make_dirs (directory args.output))
    or_throw made
    write_or_throw args.output []
    answer ← perform (read_file args.bootstrap)
    write_entry args answer
    show_size W args.output

  unfoldable pub main : Args → Act W (Unit {0})
  main args = do found ← perform (path_exists args.bootstrap); branch found (pack args) (exit 1)
