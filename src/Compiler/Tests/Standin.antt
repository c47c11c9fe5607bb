-- ===== src/Compiler/Tests/Standin.antt =====
-- A stand-in for llvmlite that accepts every call and types the values by the calls they come from,
-- for tests and for concrete instances of the theorems only.
use lambpie.Common.{
  ℕ, suc, Bool, true, false, Option, none, some, List, [], ◌∷◌, ◌++◌, get_elem?, eqb, if◌then◌else◌,
  ◌==◌, ◌||◌, String,
}
use lambpie.Llvm.{
  LlType, int_type, function_type, pointer_type, array_type, identified_type, nat_val, Obj, result,
  argument, constant, Instr, ApiCall, new_function, new_global, global_gep, set_body, build,
  new_builder, Log, Llvm,
}
use mathlib.Core.List.{reverse}

-- the types of the results, the oldest first
abbrev pub Types : Type 0
Types = List (Option LlType)

join : {A : Type 0} → Option (Option A) → Option A
join none = none
join (some o) = o

nth : Log → ℕ → Option ApiCall
nth log n = get_elem? (reverse log) n

params_of : Option ApiCall → Option (List LlType)
params_of (some (new_function t n)) = some t.params
params_of _ = none

unfoldable pub param_types : Log → Obj → Option (List LlType)
unfolding nth params_of
param_types log (result n) = params_of (nth log n)
param_types log _ = none

nth_param : Option (List LlType) → ℕ → Option LlType
nth_param none i = none
nth_param (some ts) i = get_elem? ts i

unfoldable pub type_in : Log → Types → Obj → Option LlType
unfolding join nth_param param_types
type_in log ts (result n) = join (get_elem? ts n)
type_in log ts (argument f i) = nth_param (param_types log f) i
type_in log ts (constant t v) = some t
type_in log ts _ = none

pointee : Option LlType → Option LlType
pointee (some (pointer_type t)) = some t
pointee _ = none

-- the body of a named struct
body_of : Log → String → List LlType
body_of [] n = []
body_of (set_body (identified_type m) ts ∷ log) n = if m == n then ts else body_of log n
body_of (_ ∷ log) n = body_of log n

as_pointer : Option LlType → Option LlType
as_pointer none = none
as_pointer (some t) = some (pointer_type t)

-- the type of a field or an element
element : Log → Option LlType → Obj → Option LlType
unfolding body_of as_pointer
element log (some (pointer_type (identified_type n))) (constant t (nat_val i)) =
    as_pointer (get_elem? (body_of log n) i)
element log (some (pointer_type (array_type t n))) i = some (pointer_type t)
element log t i = t

returned : Option ApiCall → Option LlType
returned (some (new_function t n)) = some t.returns
returned _ = none

callee : Log → Obj → Option LlType
unfolding nth returned
callee log (result n) = returned (nth log n)
callee log _ = none

type_of_instr : Log → Types → Instr → Option LlType
unfolding type_in pointee element callee
type_of_instr log ts (Instr.alloca t n) = some (pointer_type t)
type_of_instr log ts (Instr.load p n) = pointee (type_in log ts p)
type_of_instr log ts (Instr.arith_op f a b n) = type_in log ts a
type_of_instr log ts (Instr.icmp_signed p a b n) = some (int_type 1)
type_of_instr log ts (Instr.gep p (i ∷ j ∷ []) b n) = element log (type_in log ts p) j
type_of_instr log ts (Instr.gep p _ b n) = type_in log ts p
type_of_instr log ts (Instr.ptrtoint p t n) = some t
type_of_instr log ts (Instr.bitcast p t n) = some t
type_of_instr log ts (Instr.call f vs n) = callee log f
type_of_instr log ts _ = none

type_of_call : Log → Types → ApiCall → Option LlType
unfolding type_of_instr
type_of_call log ts (new_function t n) = some (pointer_type function_type)
type_of_call log ts (new_global t n) = some (pointer_type t)
type_of_call log ts (global_gep g is) = some (pointer_type (int_type 8))
type_of_call log ts (build b i) = type_of_instr log ts i
type_of_call log ts _ = none

unfoldable pub types_of : Log → Types
unfolding type_of_call
types_of [] = []
types_of (c ∷ log) = let ts = types_of log in ts ++ type_of_call log ts c ∷ []

-- The number of a block, or of a builder.
number : Obj → ℕ
number (result n) = suc n
number _ = 0

is_terminator : Instr → Bool
is_terminator (Instr.ret v) = true
is_terminator Instr.ret_void = true
is_terminator Instr.unreachable = true
is_terminator (Instr.branch b) = true
is_terminator (Instr.cbranch c t e) = true
is_terminator _ = false

unfoldable pub mem : ℕ → List ℕ → Bool
mem n [] = false
mem n (m ∷ ms) = eqb n m || mem n ms

pub record Position : Type 0 where
  pub block : ℕ
  pub closed : List ℕ

move : Position → ApiCall → Position
unfolding number is_terminator
move p (new_builder b) = record p { block = number b }
move p (build b (Instr.position_at_end t)) = record p { block = number t }
move p (build b i) = if is_terminator i then record p { closed = p.block ∷ p.closed } else p
move p _ = p

unfoldable pub position : Log → Position
unfolding move
position [] = record { block = 0; closed = [] }
position (c ∷ log) = move (position log) c

abbrev pub standin : Llvm
unfolding type_in types_of position mem param_types
standin = record {
  accepts = λ log c. true;
  type_of = λ log o. type_in log (types_of log) o;
  is_terminated = λ log b. let p = position log in mem p.block p.closed;
  param_types = param_types;
}
