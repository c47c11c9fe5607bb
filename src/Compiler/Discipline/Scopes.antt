-- ===== src/Compiler/Discipline/Scopes.antt =====
-- The discipline of functions and classes: scopes, arguments, the generated `__init__`.
use lambpie.Common.{
  Bool, true, false, if◌then◌else◌, ℕ, ◌+◌, String, Option, none, some, List, [], ◌∷◌,
}
use lambpie.Common.Dict.{Dict, All-insert}
use lambpie.Ast.{Expr, Param, Signature, ann_assign, Stmts, end, seq}
use lambpie.Llvm.{LlType, Obj, Instr, Log, Llvm}
use lambpie.Compiler.Monad.{Layout, M, modify, block_terminated}
use lambpie.Compiler.Class.{
  Field, target_id, Attributes, class_fields, struct_pointer, set_global, enter_function,
  store_args, generate_auto_init, declare_class,
}
use lambpie.Compiler.Stmt.{
  is_void, param_types, self_types, set_local, import_names, declare_c, visit_import_from,
  bind_args, close_function, compile_function,
}
use lambpie.Compiler.Hoare.{
  Keeps, Any, Keeps-pure, Keeps-raise, Keeps-gets, Keeps-bind, Keeps-modify, Keeps-branch,
}
use lambpie.Compiler.Discipline.Inv.{
  InstrTagIs, Inv, IsValue, IsNotI32, Values, instr-Inv, emit-Inv,
}
use lambpie.Compiler.Discipline.Objects.{
  steps, gets-Any, item-Any, bind-Any, store_field-Inv, type_of-Inv, get_type-Inv,
  get_annotation-Inv,
}

module _ {arena : ℕ} {old : Log} where
  pub set_global-Inv :
      (k : String) (o : Obj) → IsValue o → Keeps (Inv arena old) Any (set_global k o)
  unfolding set_global
  set_global-Inv k o v = Keeps-modify _ λ s h. record {
    arena_is = h.arena_is;
    deferred = h.deferred;
    handler = h.handler;
    tags = h.tags;
    numbers = h.numbers;
    globals = All-insert IsValue k o s.global_scope v h.globals;
    locals = h.locals;
    types_ok = h.types_ok;
  }

  pub set_local-Inv : (k : String) (o : Obj) → IsValue o → Keeps (Inv arena old) Any (set_local k o)
  unfolding set_local
  set_local-Inv k o v = Keeps-modify _ λ s h. record {
    arena_is = h.arena_is;
    deferred = h.deferred;
    handler = h.handler;
    tags = h.tags;
    numbers = h.numbers;
    globals = h.globals;
    locals = All-insert IsValue k o s.local_scope v h.locals;
    types_ok = h.types_ok;
  }

  pub target_id-Inv : (e : Expr) → Keeps (Inv arena old) Any (target_id e)
  unfolding target_id
  target_id-Inv (Expr.name id) = Keeps-pure _ tt
  target_id-Inv _ = Keeps-raise _

  class_fields-Inv : (ss : Stmts) (a : Attributes) → Keeps (Inv arena old) Any (class_fields ss a)
  unfolding class_fields
  class_fields-Inv end a = Keeps-pure _ tt
  class_fields-Inv (seq (ann_assign t n v) rest) a =
      bind-Any _ _ (target_id-Inv t) λ k. Keeps-bind (get_type-Inv n) λ u _. class_fields-Inv rest _
  class_fields-Inv (seq _ rest) a = class_fields-Inv rest a

  param_types-Inv : (ps : List Param) → Keeps (Inv arena old) Any (param_types ps)
  unfolding param_types
  param_types-Inv [] = Keeps-pure _ tt
  param_types-Inv (p ∷ ps) =
      Keeps-bind (get_annotation-Inv p.annotation)
        λ t _. Keeps-bind (param_types-Inv ps) λ ts _. Keeps-pure _ tt

  self_types-Inv : (c : Option String) → Keeps (Inv arena old) Any (self_types c)
  unfolding self_types
  self_types-Inv none = Keeps-pure _ tt
  self_types-Inv (some c) = search steps

  -- a new local scope, of values
  new_scope-Inv :
      (d : Dict Obj)
      → Values d
      → Keeps (Inv arena old) Any (modify (λ s. record s { local_scope = d }))
  new_scope-Inv d v = Keeps-modify _ λ s h. record {
    arena_is = h.arena_is;
    deferred = h.deferred;
    handler = h.handler;
    tags = h.tags;
    numbers = h.numbers;
    globals = h.globals;
    locals = v;
    types_ok = h.types_ok;
  }

  -- an empty one, with no arena tags
  clear_scope-Inv :
      Keeps (Inv arena old) Any (modify (λ s. record s { local_scope = []; arena_tags = [] }))
  clear_scope-Inv = Keeps-modify _ λ s h. record {
    arena_is = h.arena_is;
    deferred = h.deferred;
    handler = h.handler;
    tags = h.tags;
    numbers = h.numbers;
    globals = h.globals;
    locals = tt;
    types_ok = h.types_ok;
  }

-- A terminator is no call.
terminator-tag :
    (arena : ℕ) (b : Bool) → InstrTagIs arena (if b then Instr.ret_void else Instr.unreachable)
terminator-tag arena true = tt
terminator-tag arena false = tt

module _ (L : Llvm) {arena : ℕ} {old : Log} where
  pub block_terminated-Inv : Keeps (Inv arena old) Any (block_terminated L)
  unfolding block_terminated
  block_terminated-Inv = search steps depth 8

  pub enter_function-Inv : (f : Obj) → Keeps (Inv arena old) Any (enter_function L f)
  unfolding enter_function
  enter_function-Inv f = Keeps-bind (emit-Inv L _ tt tt) λ b _.
      Keeps-bind (emit-Inv L _ tt tt) λ r _. Keeps-modify _ λ s h. record {
        arena_is = h.arena_is;
        deferred = h.deferred;
        handler = h.handler;
        tags = h.tags;
        numbers = h.numbers;
        globals = h.globals;
        locals = h.locals;
        types_ok = h.types_ok;
      }

  store_args-Inv :
      (f p : Obj) (i : ℕ) (fs : List Field) → Keeps (Inv arena old) Any (store_args L f p i fs)
  unfolding store_args
  store_args-Inv f p i [] = Keeps-pure _ tt
  store_args-Inv f p i (fd ∷ fs) =
      Keeps-bind (emit-Inv L _ tt tt)
        λ b _. Keeps-bind (store_field-Inv L _ _ _ _) λ r _. store_args-Inv f p (i + 1) fs

  bind_args-Inv :
      (f : Obj) (i : ℕ) (ns : List String) → Keeps (Inv arena old) Any (bind_args L f i ns)
  unfolding bind_args
  bind_args-Inv f i [] = Keeps-pure _ tt
  bind_args-Inv f i (n ∷ ns) = Keeps-bind (emit-Inv L _ tt tt) λ _ _.
      Keeps-bind (type_of-Inv L _) λ t _. Keeps-bind (instr-Inv L _ tt) λ a ha.
        Keeps-bind (instr-Inv L _ tt)
          λ _ _. Keeps-bind (set_local-Inv n a ha) λ _ _. bind_args-Inv f (i + 1) ns

  generate_auto_init-Inv :
      (c : String) (l : Layout) → Keeps (Inv arena old) Any (generate_auto_init L c l)
  unfolding generate_auto_init
  generate_auto_init-Inv c l = Keeps-bind (emit-Inv L _ tt tt) λ f hf.
      Keeps-bind (set_global-Inv _ f hf) λ _ _. bind-Any _ _ (gets-Any _) λ b.
        Keeps-bind (Keeps-gets {Q = Values} _ (λ s h. h.locals)) λ saved hs.
          Keeps-bind (enter_function-Inv f) λ _ _. Keeps-bind (new_scope-Inv [] tt) λ _ _.
            Keeps-bind (emit-Inv L _ tt tt) λ _ _. Keeps-bind (instr-Inv L _ tt) λ _ _.
              Keeps-bind (instr-Inv L _ tt) λ _ _. Keeps-bind (instr-Inv L _ tt) λ _ _.
                bind-Any _ _ (item-Any _ _) λ r. Keeps-bind (store_field-Inv L _ _ _ _) λ _ _.
                  Keeps-bind (store_args-Inv _ _ _ _) λ _ _. Keeps-bind (instr-Inv L _ tt) λ _ _.
                    Keeps-modify _ λ s h. record {
                      arena_is = h.arena_is;
                      deferred = h.deferred;
                      handler = h.handler;
                      tags = h.tags;
                      numbers = h.numbers;
                      globals = h.globals;
                      locals = hs;
                      types_ok = h.types_ok;
                    }

  pub declare_class-Inv :
      (c : String) (ss : Stmts) → Keeps (Inv arena old) Any (declare_class L c ss)
  unfolding declare_class
  declare_class-Inv c ss = Keeps-bind (class_fields-Inv ss _) λ a _.
      Keeps-bind (emit-Inv L _ tt tt) λ _ _.
        Keeps-bind
          (Keeps-modify _ λ s h. record {
            arena_is = h.arena_is;
            deferred = h.deferred;
            handler = h.handler;
            tags = h.tags;
            numbers = h.numbers;
            globals = h.globals;
            locals = h.locals;
            types_ok = All-insert IsNotI32 c (struct_pointer c) s.types tt h.types_ok;
          })
          λ _ _. search (steps, generate_auto_init-Inv)

  declare_c-Inv : (n : String) → Keeps (Inv arena old) Any (declare_c L n)
  unfolding declare_c
  declare_c-Inv n = search (steps, set_global-Inv) depth 12

  import_names-Inv : (ns : List String) → Keeps (Inv arena old) Any (import_names L ns)
  unfolding import_names
  import_names-Inv [] = Keeps-pure _ tt
  import_names-Inv (n ∷ ns) =
      bind-Any _ _ (gets-Any _)
        λ g. Keeps-bind {Q = Any} (search (steps, declare_c-Inv)) λ _ _. import_names-Inv ns

  pub visit_import_from-Inv :
      (m : Option String) (ns : List String) → Keeps (Inv arena old) Any (visit_import_from L m ns)
  unfolding visit_import_from
  visit_import_from-Inv none ns = Keeps-raise _
  visit_import_from-Inv (some m) ns = search (steps, import_names-Inv)

  pub close_function-Inv : (t : LlType) → Keeps (Inv arena old) Any (close_function L t)
  unfolding close_function
  close_function-Inv t = Keeps-bind block_terminated-Inv λ b _.
      Keeps-branch b _ _ (λ _. Keeps-pure _ tt)
        λ _. Keeps-bind (instr-Inv L _ (terminator-tag arena (is_void t))) λ _ _. Keeps-pure _ tt

  -- The prologue, a body that keeps the discipline, and the terminator.
  pub compile_function-Inv :
      (c : Option String) (sig : Signature) (body : M (Unit {0}))
      → Keeps (Inv arena old) Any body
      → Keeps (Inv arena old) Any (compile_function L c sig body)
  unfolding compile_function
  compile_function-Inv c sig body k = Keeps-bind (get_annotation-Inv sig.returns) λ t _.
      Keeps-bind (self_types-Inv c) λ u _. Keeps-bind (param_types-Inv _) λ ts _.
        Keeps-bind (emit-Inv L _ tt tt) λ f hf. Keeps-bind (set_global-Inv _ f hf) λ _ _.
          Keeps-bind (enter_function-Inv f) λ _ _.
            Keeps-bind clear_scope-Inv λ _ _.
              Keeps-bind (bind_args-Inv f 0 _) λ _ _. Keeps-bind k λ _ _. close_function-Inv t
