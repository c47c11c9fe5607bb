-- ===== src/Compiler/Meaning/Machine.antt =====
-- What LLVM and llvmlite document about code for i64 values. Nothing else is assumed of them.
use lambpie.Common.{ℕ, ◌+◌, ◌-◌, ◌*◌, ◌<◌, ◌≡◌, true, some, ◌∷◌, length, String}
use lambpie.Llvm.{
  LlType, int_type, pointer_type, nat_val, minus_one, Obj, result, constant, Arith, Instr, build,
  Log, Llvm,
}
use lambpie.Compiler.Meaning.Source.{modulus, wrap}

abbrev pub i64 : LlType
i64 = int_type 64

-- A constant, or what one of the first `n` calls returned.
abbrev pub IsBefore : ℕ → Obj → Type 0
IsBefore n (constant t v) = Unit
IsBefore n (result k) = k < n
IsBefore n _ = ⊥

-- It computes a value and changes no memory.
abbrev pub IsPure : Instr → Type 0
IsPure (Instr.load p n) = Unit
IsPure (Instr.arith_op f a b n) = Unit
IsPure _ = ⊥

-- The result of the instruction `i`, if it comes next.
abbrev pub next : Obj → Instr → Log → Log
next b i log = build b i ∷ log

abbrev pub new : Log → Obj
new log = result (length log)

-- What the emitted code, run from its start to the end of the log, does: `value` is an i64 object's
-- value, modulo 2 ^ 64, and `memory` what an i64 variable holds.
pub record Machine (L : Llvm) : Type 0 where
  pub value : Log → Obj → ℕ
  pub memory : Log → Obj → ℕ
  -- `ir.Constant`
  pub constant_type : (log : Log) (t : LlType) (v : _) → L.type_of log (constant t v) ≡ some t
  pub nat_value : (log : Log) (n : ℕ) → value log (constant i64 (nat_val n)) ≡ wrap n
  -- an object keeps its type, and its value too, since the code is in SSA form
  pub type_kept :
      (log : Log) (b : Obj) (i : Instr) (o : Obj) (t : LlType)
      → L.type_of log o ≡ some t
      → L.type_of (next b i log) o ≡ some t
  pub value_kept :
      (log : Log) (b : Obj) (i : Instr) (o : Obj)
      → IsBefore (length log) o
      → value (next b i log) o ≡ value log o
  pub memory_kept :
      (log : Log) (b : Obj) (i : Instr) (p : Obj)
      → IsPure i
      → memory (next b i log) p ≡ memory log p
  -- `load` takes a pointer to i64
  pub load_accepted :
      (log : Log) (b p : Obj) (n : String)
      → L.type_of log p ≡ some (pointer_type i64)
      → L.accepts log (build b (Instr.load p n)) ≡ true
  pub load_type :
      (log : Log) (b p : Obj) (n : String)
      → L.type_of log p ≡ some (pointer_type i64)
      → L.type_of (next b (Instr.load p n) log) (new log) ≡ some i64
  pub load_value :
      (log : Log) (b p : Obj) (n : String)
      → value (next b (Instr.load p n) log) (new log) ≡ memory log p
  -- the binary instructions take two values of one integer type and wrap around
  pub arith_accepted :
      (log : Log) (b : Obj) (f : Arith) (x y : Obj) (n : String)
      → L.type_of log x ≡ some i64
      → L.type_of log y ≡ some i64
      → L.accepts log (build b (Instr.arith_op f x y n)) ≡ true
  pub arith_type :
      (log : Log) (b : Obj) (f : Arith) (x y : Obj) (n : String)
      → L.type_of log x ≡ some i64
      → L.type_of log y ≡ some i64
      → L.type_of (next b (Instr.arith_op f x y n) log) (new log) ≡ some i64
  pub add_value :
      (log : Log) (b x y : Obj) (n : String)
      → value (next b (Instr.arith_op Arith.add x y n) log) (new log)
        ≡ wrap (value log x + value log y)
  pub sub_value :
      (log : Log) (b x y : Obj) (n : String)
      → value (next b (Instr.arith_op Arith.sub x y n) log) (new log)
        ≡ wrap (value log x + (modulus - value log y))
  pub mul_value :
      (log : Log) (b x y : Obj) (n : String)
      → value (next b (Instr.arith_op Arith.mul x y n) log) (new log)
        ≡ wrap (value log x * value log y)
  -- exclusive or with all bits set
  pub complement_value :
      (log : Log) (b x : Obj) (n : String)
      → value (next b (Instr.arith_op Arith.xor x (constant i64 minus_one) n) log) (new log)
        ≡ modulus - 1 - value log x
