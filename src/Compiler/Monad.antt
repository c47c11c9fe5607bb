-- ===== src/Compiler/Monad.antt =====
-- The state of a `Compiler` object and the methods' effects: they may change the object, call
-- llvmlite, and raise. No method catches an exception, so a raise ends the compilation.
use lambpie.Common.{
  true, false, ℕ, Bool, Option, none, some, List, ◌∷◌, length, String, if◌then◌else◌,
}
use lambpie.Common.Dict.{Dict, lookup}
use lambpie.Ast.{Signature, Stmt, Stmts}
use lambpie.Llvm.{LlType, Obj, result, ApiCall, build, Instr, Log, Llvm}

-- The class of the exception; messages are not modelled. `llvm_error` is whatever llvmlite raises.
pub data Error : Type 0 where
  type_error name_error not_implemented runtime_error import_error : Error
  attribute_error key_error index_error llvm_error : Error

pub data Result {ℓ} (A : Type ℓ) : Type ℓ where
  ok : A → Result A
  err : Error → Result A

-- name ↦ (index, type), in the order of declaration
abbrev pub Layout : Type 0
Layout = Dict (ℕ × LlType)

pub record State : Type 0 where
  pub types : Dict LlType
  pub global_scope : Dict Obj
  pub local_scope : Dict Obj
  pub class_layouts : Dict Layout
  pub builder : Option Obj
  pub current_arena : ℕ
  pub arena_tags : Dict ℕ
  pub name_counter : ℕ
  pub handle_node : Option (Signature × Stmts)
  pub init_stmts : List Stmt
  pub log : Log

abbrev pub M : Type 0 → Type 0
M A = State → Result (A × State)

abbrev pub continue : {A B : Type 0} → Result (A × State) → (A → M B) → Result (B × State)
continue (ok (a, s)) f = f a s
continue (err e) f = err e

unfoldable pub pure : {A : Type 0} → A → M A
pure a s = ok (a, s)

unfoldable pub raise : {A : Type 0} → Error → M A
raise e s = err e

unfoldable pub gets : {A : Type 0} → (State → A) → M A
gets f s = ok (f s, s)

unfoldable pub modify : (State → State) → M (Unit {0})
modify f s = ok (tt, f s)

-- an `if` statement
unfoldable pub branch : {A : Type 0} → Bool → M A → M A → M A
branch true m n = m
branch false m n = n

-- a missing key or attribute raises `e`
unfoldable pub or_raise : {A : Type 0} → Error → Option A → M A
or_raise e none s = err e
or_raise e (some a) s = ok (a, s)

-- d[k]
unfoldable pub item : {V : Type 0} → String → Dict V → M V
item k d = or_raise key_error (lookup k d)

infixl 10 ◌>>=◌ ◌>>◌
-- opening this opens the actions above
unfoldable pub ◌>>=◌ : {A B : Type 0} → M A → (A → M B) → M B
unfolding pure raise gets modify branch or_raise item
◌>>=◌ m f s = continue (m s) f

abbrev pub ◌>>◌ : {A B : Type 0} → M A → M B → M B
m >> k = m >>= λ _. k

-- self.types[k], self.global_scope[k]
unfoldable pub type_item : String → M LlType
type_item k = do d ← gets (λ s. s.types); item k d

unfoldable pub global_item : String → M Obj
global_item k = do d ← gets (λ s. s.global_scope); item k d

module _ (L : Llvm) where
  -- A call of llvmlite, whose result is named by its place in the log.
  unfoldable pub emit : ApiCall → M Obj
  emit c s =
      if L.accepts s.log c
      then ok (result (length s.log), record s { log = c ∷ s.log })
      else err llvm_error

  -- `self.builder.f(...)`; before the first function `self.builder` is None
  unfoldable pub instr : Instr → M Obj
  instr i = do b ← gets (λ s. s.builder); b ← or_raise attribute_error b; emit (build b i)

  -- `self.builder.block.is_terminated`
  unfoldable pub block_terminated : M Bool
  block_terminated = do
    b ← gets (λ s. s.builder)
    b ← or_raise attribute_error b
    gets (λ s. L.is_terminated s.log b)

  -- `value.type`; None and the pair of a method lookup have no such attribute
  unfoldable pub type_of : Obj → M LlType
  type_of Obj.py_none = raise attribute_error
  type_of (Obj.method o f) = raise attribute_error
  type_of o = do t ← gets (λ s. L.type_of s.log o); or_raise attribute_error t
