-- ===== src/Compiler/Tests/Bench.antt =====
-- A small machine of i64 values, at which the theorem on integer expressions is applied.
use lambpie.Common.{
  ℕ, ◌+◌, ◌-◌, ◌*◌, ◌<◌, ◌≡◌, refl, Bool, true, false, eqb, if◌then◌else◌, Option, none, some, [],
  ◌∷◌, length, arith, inl, inr, Bool-cases,
}
use lambpie.Llvm.{
  LlType, pointer_type, nat_val, bool_val, minus_one, Initial, Obj, result, constant, Arith, Instr,
  ApiCall, build, Log, Llvm,
}
use lambpie.Compiler.Meaning.Source.{modulus, wrap}
use lambpie.Compiler.Meaning.Machine.{i64, IsBefore, IsPure, next}

-- the type of what the call returns, `t` the type of an arithmetic operand
unfoldable pub returned : Option LlType → ApiCall → Option LlType
returned t (build b (Instr.alloca u n)) = some (pointer_type u)
returned t (build b (Instr.load p n)) = some i64
returned t (build b (Instr.arith_op f x y n)) = some i64
returned t _ = none

unfoldable pub type_at : Log → Obj → Option LlType
unfolding returned
type_at log (constant t v) = some t
type_at [] (result k) = none
type_at (c ∷ log) (result k) =
    if eqb k (length log) then returned none c else type_at log (result k)
type_at log _ = none

abbrev pub bench : Llvm
bench = record {
  accepts = λ log c. true;
  type_of = type_at;
  is_terminated = λ log b. false;
  param_types = λ log f. none;
}

unfoldable pub initial_value : Initial → ℕ
initial_value (nat_val n) = wrap n
initial_value (bool_val b) = if b then 1 else 0
initial_value minus_one = modulus - 1
initial_value _ = 0

unfoldable pub is_minus_one : Obj → Bool
is_minus_one (constant t minus_one) = true
is_minus_one _ = false

-- the instructions that the theorem speaks of
unfoldable pub run_arith : Arith → Bool → ℕ → ℕ → ℕ
run_arith Arith.add m a b = wrap (a + b)
run_arith Arith.sub m a b = wrap (a + (modulus - b))
run_arith Arith.mul m a b = wrap (a * b)
run_arith Arith.xor true a b = modulus - 1 - a
run_arith _ m a b = 0

same : Obj → Obj → Bool
same (result m) (result n) = eqb m n
same _ _ = false

unfoldable mutual
  unfolding initial_value is_minus_one run_arith same

  pub value_at : Log → Obj → ℕ
  value_at log (constant t v) = initial_value v
  value_at (build b (Instr.load p n) ∷ log) (result k) =
      if eqb k (length log) then memory_at log p else value_at log (result k)
  value_at (build b (Instr.arith_op f x y n) ∷ log) (result k) =
      if eqb k (length log)
      then run_arith f (is_minus_one y) (value_at log x) (value_at log y)
      else value_at log (result k)
  value_at (_ ∷ log) (result k) = value_at log (result k)
  value_at log _ = 0

  pub memory_at : Log → Obj → ℕ
  memory_at [] p = 0
  memory_at (build b (Instr.store v q) ∷ log) p =
      if same p q then value_at log v else memory_at log p
  memory_at (_ ∷ log) p = memory_at log p

pub eqb_refl : (n : ℕ) → eqb n n ≡ true
eqb_refl n = ground arith

eqb_below : (k n : ℕ) → k < n → eqb k n ≡ false
eqb_below k n h = ground arith

bound_of : (log : Log) (k : ℕ) (t : LlType) → type_at log (result k) ≡ some t → k < length log
unfolding type_at
bound_of [] k t e = cc
bound_of (c ∷ log) k t e = elim (Bool-cases (eqb k (length log))) [
  | inl hit ↦ ground arith
  | inr miss ↦ let h = bound_of log k t (rw miss at e) in omega (arith, h)
]

pub type_kept :
    (log : Log) (b : Obj) (i : Instr) (o : Obj) (t : LlType)
    → type_at log o ≡ some t
    → type_at (next b i log) o ≡ some t
unfolding type_at
type_kept log b i (constant u v) t e = e
type_kept log b i (result k) t e = rw (eqb_below k (length log) (bound_of log k t e)) e
type_kept [] b i _ t e = cc
type_kept (c ∷ log) b i _ t e = cc

pub value_kept :
    (log : Log) (b : Obj) (i : Instr) (o : Obj)
    → IsBefore (length log) o
    → value_at (next b i log) o ≡ value_at log o
unfolding value_at
value_kept log b i (constant u v) h = refl
value_kept log b (Instr.load p n) (result k) h = rw (eqb_below k (length log) h) refl
value_kept log b (Instr.arith_op f x y n) (result k) h = rw (eqb_below k (length log) h) refl
value_kept log b _ (result k) h = refl
value_kept log b i _ h = absurd h

pub memory_kept :
    (log : Log) (b : Obj) (i : Instr) (p : Obj)
    → IsPure i
    → memory_at (next b i log) p ≡ memory_at log p
unfolding memory_at
memory_kept log b (Instr.load q n) p h = refl
memory_kept log b (Instr.arith_op f x y n) p h = refl
memory_kept log b _ p h = absurd h
