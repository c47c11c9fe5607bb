-- ===== src/Compiler/Entry/Init.antt =====
-- compiler.py: `Compiler.__init__`.
use lambpie.Common.{String, false, Option, none, some, List, [], ◌∷◌, if◌then◌else◌, ◌==◌}
use lambpie.Llvm.{
  LlType, int_type, double_type, void_type, pointer_type, array_type, c_string, constant, fixed,
  FunctionType, ApiCall, Llvm,
}
use lambpie.Compiler.Monad.{State, M, ◌>>=◌, ◌>>◌, modify, emit}
use lambpie.Compiler.Objects.{field_indices}
use lambpie.Compiler.Class.{set_global}
use lambpie.Compiler.Stmt.{arena_static}

abbrev pub lambda_triple : String
lambda_triple = "x86_64-unknown-linux-gnu"

abbrev pub lambda_data_layout : String
lambda_data_layout =
    "e-m:e-p270:32:32-p271:32:32-p272:64:64-i64:64-i128:128-f80:128-n8:16:32:64-S128"

-- `module.triple` and `module.data_layout`; the layout of another triple is llvmlite's
unfoldable pub target : Option String → (String → String) → String × String
target none target_data = (lambda_triple, lambda_data_layout)
target (some t) target_data =
    if t == ""
    then (lambda_triple, lambda_data_layout)
    else if t == lambda_triple
    then (t, lambda_data_layout)
    else (t, target_data t)

abbrev pub i8_ptr : LlType
i8_ptr = pointer_type (int_type 8)

-- an object before `__init__` has set its fields
abbrev pub blank : State
blank = record {
  types = [];
  global_scope = [];
  local_scope = [];
  class_layouts = [];
  builder = none;
  current_arena = arena_static;
  arena_tags = [];
  name_counter = 0;
  handle_node = none;
  init_stmts = [];
  log = [];
}

abbrev pub function : LlType → List LlType → FunctionType
function r ps = record { returns = r; params = ps; var_arg = false }

module _ (L : Llvm) where
  -- `ir.Function(self.module, type, name=name)`, entered in the global scope
  unfoldable pub declare : String → FunctionType → M (Unit {0})
  declare n t = do f ← emit L (ApiCall.new_function t n); set_global n f

  unfoldable pub init : M (Unit {0})
  init = do
    modify (λ s. record s {
      types =
          ("int", int_type 64)
          ∷ ("float", double_type)
          ∷ ("None", void_type)
          ∷ ("__ptr__", i8_ptr)
          ∷ [];
    })
    g ← emit L (ApiCall.new_global (array_type (int_type 8) 9) (fixed ".str.__main__"))
    emit L (ApiCall.set_linkage g "private")
    emit L (ApiCall.set_initializer g (constant (array_type (int_type 8) 9) (c_string "__main__")))
    n ← emit L (ApiCall.global_gep g (field_indices 0))
    set_global "__name__" n
    declare "malloc" (function i8_ptr (int_type 64 ∷ []))
    declare "memcpy" (function i8_ptr (i8_ptr ∷ i8_ptr ∷ int_type 64 ∷ []))
    declare "lambpie_arena_alloc" (function i8_ptr (int_type 32 ∷ int_type 64 ∷ []))
