-- ===== src/Scripts/Package/Archive.antt =====
-- What package.py leaves in the files.
use lambpie.Common.{◌≡◌, ◌≢◌, refl, sym, ◌∙◌, ap, ℕ, String, Option, some, []}
use native.Mathlib.Omega.{arith}
use lambpie.Scripts.Effects.{Answer, given, refused, World, Session, ◌>>=◌, ◌>>◌, perform}
use lambpie.Scripts.Calls.{
  Bytes, path_exists, read_file, make_dirs, file_size, write_file, Reply, ZipEntry, bootstrap_entry,
}
use lambpie.Scripts.Build.{show_size}
use lambpie.Scripts.Package.{Args, write_or_throw, write_entry, pack, main}
use lambpie.Scripts.Triples.{
  Post, Triple, Triple-bind, Triple-given, Triple-pure, Triple-exit, Triple-throw, Triple-or_throw,
  Triple-branch, Triple-call, Triple-after, Triple-fact,
}

-- What package.py relies on of the file system: a write that succeeds is what is read next, and it
-- changes no other file, where `Same p q` says that two paths are of one file; the calls that do not
-- write change none.
pub record IsDisk (W : World Reply) : Type 1 where
  pub content : W.State → String → Option Bytes
  pub Same : String → String → Type 0
  pub read :
      (p : String) (b : Bytes) (w : W.State)
      → ((W.answer (read_file p) w).0 ≡ given b)
      → (content w p ≡ some b)
  pub read-keeps :
      (p q : String) (w : W.State) → content (W.answer (read_file p) w).1 q ≡ content w q
  pub written :
      (p : String) (b : Bytes) (w : W.State)
      → ((W.answer (write_file p b) w).0 ≡ given tt)
      → (content (W.answer (write_file p b) w).1 p ≡ some b)
  pub write-keeps :
      (p q : String) (b : Bytes) (w : W.State)
      → ¬ Same p q
      → (content (W.answer (write_file p b) w).1 q ≡ content w q)
  pub exists-keeps :
      (p q : String) (w : W.State) → content (W.answer (path_exists p) w).1 q ≡ content w q
  pub size-keeps :
      (p q : String) (w : W.State) → content (W.answer (file_size p) w).1 q ≡ content w q
  pub make-keeps :
      (p q : String) (w : W.State) → content (W.answer (make_dirs p) w).1 q ≡ content w q

module _ (W : World Reply) (D : IsDisk W) (zip_of : ZipEntry → Bytes) (empty_zip : Bytes)
    (directory : String → String) (args : Args) (start : W.State) where
  -- every file but the output has the content that it had
  abbrev pub Kept : Session W → Type 0
  Kept s = (q : String) → ¬ D.Same args.output q → (D.content s.world q ≡ D.content start q)

  -- the output is the archive of the bootstrap
  abbrev pub Packed : Unit {0} → Session W → Type 0
  Packed u s =
      (b : Bytes) × (D.content start args.bootstrap ≡ some b)
      × (D.content s.world args.output ≡ some (zip_of (bootstrap_entry b)))
      × Kept s

  abbrev pub Stopped : ℕ → Session W → Type 0
  Stopped n s = (n ≢ 0) × Kept s

  stop : (s : Session W) → Kept s → Stopped 1 s
  stop s k = (omega arith, k)

  write-Kept :
      (b : Bytes)
      → Triple Kept
          (λ u s. (D.content s.world args.output ≡ some b) × Kept s)
          Stopped
          (write_or_throw W zip_of empty_zip directory args.output b)
  unfolding write_or_throw
  write-Kept b =
      Triple-call (write_file args.output b) _
        (λ a s. (a ≡ given tt → (D.content s.world args.output ≡ some b)) × Kept s)
        (λ s k.
          (D.written args.output b s.world, λ q n. D.write-keeps args.output q b s.world n ∙ k q n))
        λ a. Triple-or_throw a (λ s (_, k). stop s k) (λ u e s (h, k). (h e, k))

  show-Packed : (path : String) → Triple (Packed tt) Packed Stopped (show_size W path)
  unfolding show_size
  show-Packed path =
      Triple-call (file_size path) _ (λ _. Packed tt)
        (λ s (b, i, o, k). (
          b,
          i,
          D.size-keeps path args.output s.world ∙ o,
          λ q n. D.size-keeps path q s.world ∙ k q n,
        ))
        λ a. Triple-given a _ (λ s (b, i, o, k). stop s k) λ n _. Triple-pure tt λ s h. h

  -- The answer is the bootstrap, if it is one.
  abbrev IsBootstrap : Answer Bytes → Type 0
  IsBootstrap a = (b : Bytes) → (a ≡ given b) → (D.content start args.bootstrap ≡ some b)

  entry-Packed :
      (a : Answer Bytes)
      → IsBootstrap a
      → Triple Kept Packed Stopped (write_entry W zip_of empty_zip directory args a)
  unfolding write_entry
  entry-Packed (given b) i = Triple-after (write-Kept _) λ u s (o, k). (b, i b refl, o, k)
  entry-Packed (refused e) i = Triple-bind _ (write-Kept _) λ u. Triple-throw e λ s (o, k). stop s k

  module _ (apart : ¬ D.Same args.output args.bootstrap) where
    -- with the `read_file` that the archive is made of
    read-Packed : Triple Kept Packed Stopped (
        perform (read_file args.bootstrap) >>= λ a.
        write_entry W zip_of empty_zip directory args a >> show_size W args.output)
    read-Packed =
        Triple-call (read_file args.bootstrap) _ (λ a s. IsBootstrap a × Kept s)
          (λ s k. (
            λ b e. sym (k args.bootstrap apart) ∙ D.read args.bootstrap b s.world e,
            λ q n. D.read-keeps args.bootstrap q s.world ∙ k q n,
          ))
          λ a. Triple-fact λ i. Triple-bind Packed (entry-Packed a i) λ u. show-Packed args.output

    pack-Packed : Triple Kept Packed Stopped (pack W zip_of empty_zip directory args)
    unfolding pack
    pack-Packed =
        Triple-call (make_dirs _) _ (λ _. Kept) (λ s k q n. D.make-keeps _ q s.world ∙ k q n)
          λ a. Triple-given a _ stop λ _ _.
            Triple-bind (λ _. Kept) (Triple-after (write-Kept []) λ u s (_, k). k) λ _. read-Packed

    -- package.py returns, so that its status is 0, only where the output is then the archive of one
    -- entry: the content that the bootstrap had, named `bootstrap` and with mode 0755. However it
    -- ends, it changes no other file; this is where the bootstrap is not itself the output.
    pub main-Packed :
        (s : Session W)
        → s.world ≡ start
        → Post Packed Stopped (main W zip_of empty_zip directory args s)
    unfolding main
    main-Packed = Triple.at (
        Triple-call (path_exists args.bootstrap) _ (λ _. Kept)
          (λ s e q n. D.exists-keeps _ q s.world ∙ ap (λ w. D.content w q) e)
          λ found. Triple-branch found _ _ (λ _. pack-Packed) (λ _. Triple-exit 1 stop))
