-- ===== src/Llvm.antt =====
-- The llvmlite API as compiler.py uses it. Nothing of llvmlite is defined here: an object that
-- llvmlite returns is named by the call that returned it, the calls are kept in a log, and what
-- llvmlite answers when it is asked (whether a call raises, `.type`, `.is_terminated`, the
-- parameter types of a function) is the parameter `Llvm`.
use lambpie.Common.{ℕ, String, Bool, Option, List}

-- The expressions for LLVM types in compiler.py: `ir.IntType(n)`, `ir.DoubleType()`,
-- `ir.VoidType()`, `t.as_pointer()`, `ir.ArrayType(t, n)` and `get_identified_type(name)`.
-- `function_type` is any `ir.FunctionType`, which the compiler builds and never takes apart.
pub data LlType : Type 0 where
  int_type : ℕ → LlType
  double_type void_type function_type : LlType
  pointer_type : LlType → LlType
  array_type : LlType → ℕ → LlType
  identified_type : String → LlType

-- The second argument of `ir.Constant`.
pub data Initial : Type 0 where
  nat_val : ℕ → Initial
  bool_val : Bool → Initial
  minus_one null_val : Initial
  -- `bytearray(s + '\0', 'utf8')`
  c_string : String → Initial
  byte_vals : List ℕ → Initial

-- The objects that the compiler handles: Python values, and llvmlite's by the calls they come from.
pub data Obj : Type 0 where
  py_none : Obj
  -- what the n-th call of the log returned
  result : ℕ → Obj
  -- `f.args[i]`
  argument : Obj → ℕ → Obj
  -- `builder.function`
  function_of : Obj → Obj
  constant : LlType → Initial → Obj
  type_obj : LlType → Obj
  -- the pair that a method lookup returns
  method : Obj → Obj → Obj

pub record FunctionType : Type 0 where
  pub returns : LlType
  pub params : List LlType
  pub var_arg : Bool

-- The `ir.IRBuilder` method that a binary operator calls.
pub data Arith : Type 0 where
  add sub mul and_ or_ xor shl lshr srem : Arith

pub data Instr : Type 0 where
  alloca : LlType → String → Instr
  store : Obj → Obj → Instr
  load : Obj → String → Instr
  arith_op : Arith → Obj → Obj → String → Instr
  icmp_signed : String → Obj → Obj → String → Instr
  -- pointer, indices, `inbounds`, name
  gep : Obj → List Obj → Bool → String → Instr
  ptrtoint : Obj → LlType → String → Instr
  bitcast : Obj → LlType → String → Instr
  call : Obj → List Obj → String → Instr
  ret : Obj → Instr
  ret_void unreachable : Instr
  branch : Obj → Instr
  cbranch : Obj → Obj → Obj → Instr
  position_at_end : Obj → Instr

-- The name of a global: a text, or an f-string of a text and the value of a counter.
pub data GlobalName : Type 0 where
  fixed : String → GlobalName
  numbered : String → ℕ → GlobalName

pub data ApiCall : Type 0 where
  -- `ir.Function(module, type, name)`
  new_function : FunctionType → String → ApiCall
  -- `ir.GlobalVariable(module, type, name)`
  new_global : LlType → GlobalName → ApiCall
  -- assignments to the attributes of a global: linkage, initializer, global_constant
  set_linkage : Obj → String → ApiCall
  set_initializer : Obj → Obj → ApiCall
  set_constant : Obj → ApiCall
  -- `global.gep(indices)`
  global_gep : Obj → List Obj → ApiCall
  -- `struct.set_body(*types)`
  set_body : LlType → List LlType → ApiCall
  -- `f.append_basic_block(name)`
  append_block : Obj → String → ApiCall
  -- `ir.IRBuilder(block)`
  new_builder : Obj → ApiCall
  -- `value.name = name`
  set_name : Obj → String → ApiCall
  -- a method of the builder, the first argument
  build : Obj → Instr → ApiCall

-- The calls made so far, the latest first.
abbrev pub Log : Type 0
Log = List ApiCall

-- What llvmlite answers, given the calls made so far.
pub record Llvm : Type 0 where
  -- whether the next call is accepted, or raises
  pub accepts : Log → ApiCall → Bool
  -- `obj.type`; `none` where the object has no such attribute
  pub type_of : Log → Obj → Option LlType
  -- `builder.block.is_terminated`
  pub is_terminated : Log → Obj → Bool
  -- `f.type.pointee.args`
  pub param_types : Log → Obj → Option (List LlType)
