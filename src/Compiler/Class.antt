-- ===== src/Compiler/Class.antt =====
-- compiler.py: the layout of a class and its generated `__init__`.
use lambpie.Common.{
  concat, ℕ, ◌+◌, String, Bool, true, false, some, List, [], ◌∷◌, map, ltb, if◌then◌else◌, ◌==◌,
}
use lambpie.Common.Dict.{insert}
use lambpie.Ast.{Expr, ann_assign, function_def, Stmts, end, seq}
use lambpie.Llvm.{
  LlType, int_type, void_type, pointer_type, identified_type, Obj, argument, Instr, ApiCall, Llvm,
}
use lambpie.Compiler.Monad.{
  branch, Layout, M, ◌>>=◌, ◌>>◌, pure, raise, gets, modify, item, emit, instr, attribute_error,
}
use lambpie.Compiler.Types.{get_type}
use lambpie.Compiler.Objects.{i32, store_field}
use lambpie.Compiler.Expr.{mangle}

-- `(name, idx, typ)` of the lists `fields`, `event_fields` and `response_fields`
abbrev pub Field : Type 0
Field = String × (ℕ × LlType)

-- `fields.sort(key=lambda f: f[1])`, a stable sort
unfoldable pub insert_field : Field → List Field → List Field
insert_field f [] = f ∷ []
insert_field (m, (i, t)) ((n, (j, u)) ∷ fs) =
    if ltb j i then (n, (j, u)) ∷ insert_field (m, (i, t)) fs else (m, (i, t)) ∷ (n, (j, u)) ∷ fs

unfoldable pub sort_fields : List Field → List Field
sort_fields [] = []
sort_fields (f ∷ fs) = insert_field f (sort_fields fs)

-- the items of a layout but `__ref_count__`
unfoldable pub declared : Layout → List Field
declared [] = []
declared ((n, (i, t)) ∷ l) = if n == "__ref_count__" then declared l else (n, (i, t)) ∷ declared l

unfoldable pub fields_of : Layout → List Field
fields_of l = sort_fields (declared l)

-- `node.target.id`
unfoldable pub target_id : Expr → M String
target_id (Expr.name id) = pure id
target_id _ = raise attribute_error

-- `attributes`, `attribute_types` (the latest first) and `attr_index` of `visit_ClassDef`
pub record Attributes : Type 0 where
  pub layout : Layout
  pub types : List LlType
  pub next : ℕ

unfoldable pub add_attribute : String → LlType → Attributes → Attributes
add_attribute n t a = record {
  layout = insert n (a.next, t) a.layout;
  types = t ∷ a.types;
  next = a.next + 1;
}

abbrev pub ref_count_only : Attributes
ref_count_only = record {
  layout = ("__ref_count__", (0, int_type 32)) ∷ [];
  types = int_type 32 ∷ [];
  next = 1;
}

-- the loop over `node.body`
unfoldable pub class_fields : Stmts → Attributes → M Attributes
class_fields end a = pure a
class_fields (seq (ann_assign target annotation _) rest) a = do
  n ← target_id target
  t ← get_type annotation
  class_fields rest (add_attribute n t a)
class_fields (seq _ rest) a = class_fields rest a

-- whether the class has an explicit `__init__`
unfoldable pub has_init : Stmts → Bool
has_init end = false
has_init (seq (function_def sig _) rest) = if sig.name == "__init__" then true else has_init rest
has_init (seq _ rest) = has_init rest

abbrev pub struct_pointer : String → LlType
struct_pointer class_name = pointer_type (identified_type class_name)

unfoldable pub set_global : String → Obj → M (Unit {0})
set_global k o = modify (λ s. record s { global_scope = insert k o s.global_scope })

module _ (L : Llvm) where
  -- a block `entry` of `f`, and a builder there
  unfoldable pub enter_function : Obj → M (Unit {0})
  enter_function f = do
    block ← emit L (ApiCall.append_block f "entry")
    b ← emit L (ApiCall.new_builder block)
    modify (λ s. record s { builder = some b })

  -- the loop over `enumerate(fields)`, from argument `i`
  unfoldable pub store_args : Obj → Obj → ℕ → List Field → M (Unit {0})
  store_args f self_ptr i [] = pure tt
  store_args f self_ptr i ((n, (idx, _)) ∷ fs) = do
    emit L (ApiCall.set_name (argument f i) n)
    store_field L self_ptr idx (concat n ".ptr") (argument f i)
    store_args f self_ptr (i + 1) fs

  -- `_generate_auto_init`
  unfoldable pub generate_auto_init : String → Layout → M (Unit {0})
  generate_auto_init class_name attributes = do
    let fields = fields_of attributes
    let self_type = struct_pointer class_name
    let func_name = mangle class_name "__init__"
    f ← emit L (
        ApiCall.new_function
          (record {
            returns = void_type;
            params = self_type ∷ map (λ fd. fd.1.1) fields;
            var_arg = false;
          })
          func_name)
    set_global func_name f
    saved_builder ← gets (λ s. s.builder)
    saved_local ← gets (λ s. s.local_scope)
    enter_function f
    modify (λ s. record s { local_scope = [] })
    emit L (ApiCall.set_name (argument f 0) "self")
    self_alloc ← instr L (Instr.alloca self_type "self")
    instr L (Instr.store (argument f 0) self_alloc)
    self_ptr ← instr L (Instr.load self_alloc "self.val")
    (ref_idx, _) ← item "__ref_count__" attributes
    store_field L self_ptr ref_idx "ref_count.ptr" (i32 1)
    store_args f self_ptr 1 fields
    instr L Instr.ret_void
    modify (λ s. record s { builder = saved_builder; local_scope = saved_local })

  -- `visit_ClassDef` up to the loop over its methods
  unfoldable pub declare_class : String → Stmts → M (Unit {0})
  declare_class class_name body = do
    a ← class_fields body ref_count_only
    emit L (ApiCall.set_body (identified_type class_name) (mathlib.Core.List.reverse a.types))
    modify (λ s. record s {
      types = insert class_name (struct_pointer class_name) s.types;
      class_layouts = insert class_name a.layout s.class_layouts;
    })
    branch (has_init body) (pure tt) (generate_auto_init class_name a.layout)
