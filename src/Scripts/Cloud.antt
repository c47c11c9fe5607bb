-- ===== src/Scripts/Cloud.antt =====
-- A small world for the tests: roles, functions that answer the test event, files and a clock.
use lambpie.Common.{
  ◌≡◌, refl, sym, ap, ℕ, ◌+◌, ◌≤◌, String, Bool, true, false, Option, none, some, [], ◌∷◌, ◌==◌,
  eq_iff, if◌then◌else◌, Bool-cases, inl, inr,
}
use native.Mathlib.Omega.{arith}
use lambpie.Scripts.Effects.{client_error, file_not_found, Answer, given, refused, World}
use lambpie.Scripts.Calls.{
  Bytes, Call, new_client, get_role, create_role, attach_role_policy, get_function, delete_function,
  create_function, update_function_code, monotonic, sleep, open_url, path_exists, read_file,
  file_size, make_dirs, write_file, copy_file, run_command, finished, Reply,
}
use lambpie.Scripts.Waiting.{IsClock}
use lambpie.Scripts.Package.Archive.{IsDisk}

pub record Cloud : Type 0 where
  pub now : ℕ
  pub has_role : Bool
  pub has_function : Bool
  pub files : String → Option Bytes

abbrev pub arn : String
arn = "arn:aws:iam::1:role/r"

abbrev read_reply : Option Bytes → Answer Bytes
read_reply none = refused file_not_found
read_reply (some b) = given b

abbrev is_some : Option Bytes → Bool
is_some none = false
is_some (some b) = true

abbrev get_reply : {A : Type 0} → Bool → String → A → Answer A
get_reply true code a = given a
get_reply false code a = refused (client_error code "")

abbrev reply : (c : Call) → Cloud → Reply c
reply (new_client s k) w = given tt
reply (get_role n) w = get_reply w.has_role "NoSuchEntity" arn
reply (create_role n) w = given arn
reply (attach_role_policy n p) w = given tt
reply (get_function n) w =
    get_reply w.has_function "ResourceNotFoundException" (record { state = "Active" })
reply (delete_function n) w = get_reply w.has_function "ResourceNotFoundException" tt
reply (create_function spec) w = given tt
reply (update_function_code n z a) w = given tt
reply (Call.invoke n p q) w =
    given (record { status_code = 200; function_error = ""; payload = 1 ∷ [] })
reply monotonic w = w.now
reply (sleep t) w = tt
reply (open_url u) w = given []
reply (path_exists p) w = is_some (w.files p)
reply (read_file p) w = read_reply (w.files p)
reply (file_size p) w = given 0
reply (make_dirs p) w = given tt
reply (write_file p b) w = given tt
reply (copy_file p q) w = given tt
reply (run_command c e) w = given (finished 0)

abbrev later : Call → ℕ → ℕ
later (sleep d) t = t + d
later _ t = t

abbrev gives_role : Call → Bool → Bool
gives_role (create_role n) b = true
gives_role _ b = b

abbrev gives_function : Call → Bool → Bool
gives_function (create_function s) b = true
gives_function (delete_function n) b = false
gives_function _ b = b

abbrev writes : Call → (String → Option Bytes) → String → Option Bytes
writes (write_file p b) files q = if q == p then some b else files q
writes _ files q = files q

abbrev pub cloud : World Reply
cloud = record {
  State = Cloud;
  answer = λ c w. (
    reply c w,
    record {
      now = later c w.now;
      has_role = gives_role c w.has_role;
      has_function = gives_function c w.has_function;
      files = writes c w.files;
    },
  );
}

pub later-forward : (c : Call) (t : ℕ) → t ≤ later c t
later-forward (sleep d) t = omega arith
later-forward _ t = omega arith

abbrev pub cloud_clock : IsClock cloud
cloud_clock = record {
  now = λ w. w.now;
  forward = λ c w. later-forward c w.now;
  read_after = λ w. omega arith;
  read_before = λ w. omega arith;
  slept = λ d w. omega arith;
}

pub reply-read : (o : Option Bytes) (b : Bytes) → read_reply o ≡ given b → o ≡ some b
reply-read none b e = cc
reply-read (some x) b e = let q : x ≡ b = cc in ap some q

pub write-read :
    (files : String → Option Bytes) (p : String) (b : Bytes)
    → writes (write_file p b) files p ≡ some b
write-read files p b = rw ((eq_iff p p).1 refl) refl

pub write-other :
    (files : String → Option Bytes) (p q : String) (b : Bytes)
    → ¬ (p ≡ q)
    → writes (write_file p b) files q ≡ files q
write-other files p q b n = elim (Bool-cases (q == p)) [
  | inl e ↦ absurd (n (sym ((eq_iff q p).0 e)))
  | inr e ↦ rw e refl
]

abbrev pub cloud_disk : IsDisk cloud
cloud_disk = record {
  content = λ w. w.files;
  Same = λ p q. p ≡ q;
  read = λ p b w e. reply-read (w.files p) b e;
  read-keeps = λ p q w. refl;
  written = λ p b w e. write-read w.files p b;
  write-keeps = λ p q b w n. write-other w.files p q b n;
  exists-keeps = λ p q w. refl;
  size-keeps = λ p q w. refl;
  make-keeps = λ p q w. refl;
}
