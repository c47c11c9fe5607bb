-- ===== src/Compiler/Discipline/Entry.antt =====
-- The discipline of whole modules, and the arenas of a compilation.
use lambpie.Common.{
  Bool, true, false, some, List, [], ◌∷◌, ◌≡◌, refl, All, All-append, if◌then◌else◌, ◌==◌,
}
use lambpie.Ast.{
  Signature, Stmt, expr_stmt, pass_stmt, return_stmt, ann_assign, assign, if_stmt, while_stmt,
  function_def, class_def, import_from, generic_stmt, Stmts, end, seq,
}
use lambpie.Llvm.{LlType, Obj, Log, Llvm}
use lambpie.Compiler.Monad.{Layout, modify}
use lambpie.Compiler.Stmt.{arena_static, arena_req}
use lambpie.Compiler.Entry.Module.{is_main_block, defer_init, visit_top, visit_module}
use lambpie.Compiler.Entry.Json.{JsonApi}
use lambpie.Compiler.Entry.Lambda.{
  start_scope, declare_json, visit_each, emit_init, declare_handle, handle_code,
}
use lambpie.Compiler.Hoare.{
  Keeps, Any, Keeps-pure, Keeps-bind, Keeps-gets, Keeps-modify, Keeps-branch,
}
use lambpie.Compiler.Discipline.Inv.{Inv, IsDeferred, emit-Inv, global_item-Inv}
use lambpie.Compiler.Discipline.Scopes.{enter_function-Inv, close_function-Inv}
use lambpie.Compiler.Discipline.Stmt.{StmtKeepsArena, visit_stmt-Inv}
use lambpie.Compiler.Discipline.Json.{emit_handler-Inv}

-- No function but a top-level `handle` has an arena of its own. A main block is skipped, and the
-- top-level `handle` and the statements of `lambpie_init` are left for later.
unfoldable pub TopKeepsArena : Stmt → Type 0
TopKeepsArena (function_def sig body) =
    if sig.name == "handle" then Unit else StmtKeepsArena arena_static (function_def sig body)
TopKeepsArena (ann_assign t a v) = Unit
TopKeepsArena (assign t ts v) = Unit
TopKeepsArena (expr_stmt e) = Unit
TopKeepsArena st = StmtKeepsArena arena_static st

unfoldable pub ModuleKeepsArena : Stmts → Type 0
ModuleKeepsArena end = Unit
ModuleKeepsArena (seq st rest) =
    (if is_main_block st then Unit else TopKeepsArena st) × ModuleKeepsArena rest

module _ {old : Log} where
  defer_init-Inv : (st : Stmt) → IsDeferred st → Keeps (Inv arena_static old) Any (defer_init st)
  unfolding defer_init
  defer_init-Inv st d = Keeps-modify _ λ s h. record {
    deferred = All-append IsDeferred s.init_stmts (st ∷ []) h.deferred (d, tt);
    handler = h.handler;
    arena_is = h.arena_is;
    tags = h.tags;
    numbers = h.numbers;
    globals = h.globals;
    locals = h.locals;
    types_ok = h.types_ok;
  }

  save_handle-Inv :
      (sig : Signature) (body : Stmts)
      → (sig.name == "handle") ≡ true
      → Keeps (Inv arena_static old) Any (modify (λ s. record s { handle_node = some (sig, body) }))
  save_handle-Inv sig body e = Keeps-modify _ λ s h. record {
    deferred = h.deferred;
    handler = e;
    arena_is = h.arena_is;
    tags = h.tags;
    numbers = h.numbers;
    globals = h.globals;
    locals = h.locals;
    types_ok = h.types_ok;
  }

  start_scope-Inv : Keeps (Inv arena_static old) Any (start_scope arena_static)
  unfolding start_scope
  start_scope-Inv = Keeps-modify _ λ s h. record {
    deferred = h.deferred;
    handler = h.handler;
    arena_is = refl;
    tags = h.tags;
    numbers = h.numbers;
    globals = h.globals;
    locals = tt;
    types_ok = h.types_ok;
  }

-- A choice of types by a test, at the outcome of the test.
on_false : (b : Bool) (A B : Type 0) → (if b then A else B) → b ≡ false → B
on_false true A B h e = cc
on_false false A B h e = h

Deferred-KeepsArena : (st : Stmt) → IsDeferred st → StmtKeepsArena arena_static st
unfolding StmtKeepsArena
Deferred-KeepsArena (ann_assign t a v) d = tt
Deferred-KeepsArena (assign t ts v) d = tt
Deferred-KeepsArena (expr_stmt e) d = tt
Deferred-KeepsArena _ d = absurd d

module _ (L : Llvm) {old : Log} where
  visit_top-Inv : (st : Stmt) → TopKeepsArena st → Keeps (Inv arena_static old) Any (visit_top L st)
  unfolding visit_top TopKeepsArena
  visit_top-Inv (function_def sig body) h =
      Keeps-branch (sig.name == "handle") _ _ (save_handle-Inv sig body)
        λ e. visit_stmt-Inv L (function_def sig body) (on_false _ _ _ h e)
  visit_top-Inv (ann_assign t a v) h = defer_init-Inv _ tt
  visit_top-Inv (assign t ts v) h = defer_init-Inv _ tt
  visit_top-Inv (expr_stmt e) h = defer_init-Inv _ tt
  visit_top-Inv (pass_stmt) h = visit_stmt-Inv L _ h
  visit_top-Inv (return_stmt e) h = visit_stmt-Inv L _ h
  visit_top-Inv (if_stmt t b o) h = visit_stmt-Inv L _ h
  visit_top-Inv (while_stmt t b o) h = visit_stmt-Inv L _ h
  visit_top-Inv (class_def c b) h = visit_stmt-Inv L _ h
  visit_top-Inv (import_from m ns) h = visit_stmt-Inv L _ h
  visit_top-Inv (generic_stmt es ss) h = visit_stmt-Inv L _ h

  pub visit_module-Inv :
      (ss : Stmts) → ModuleKeepsArena ss → Keeps (Inv arena_static old) Any (visit_module L ss)
  unfolding visit_module ModuleKeepsArena
  visit_module-Inv end h = Keeps-pure _ tt
  visit_module-Inv (seq st rest) h =
      Keeps-bind {Q = Any}
        (Keeps-branch (is_main_block st) _ _ (λ _. Keeps-pure _ tt)
          λ e. visit_top-Inv st (on_false _ _ _ h.0 e))
        λ _ _. visit_module-Inv rest h.1

  visit_each-Inv :
      (sts : List Stmt) → All IsDeferred sts → Keeps (Inv arena_static old) Any (visit_each L sts)
  unfolding visit_each
  visit_each-Inv [] h = Keeps-pure _ tt
  visit_each-Inv (st ∷ sts) h =
      Keeps-bind (visit_stmt-Inv L st (Deferred-KeepsArena st h.0)) λ _ _. visit_each-Inv sts h.1

  pub declare_json-Inv : (p i : LlType) → Keeps (Inv arena_static old) Any (declare_json L p i)
  unfolding declare_json
  declare_json-Inv p i = Keeps-bind (emit-Inv L _ tt tt) λ _ _.
      Keeps-bind (emit-Inv L _ tt tt) λ _ _. Keeps-bind (emit-Inv L _ tt tt) λ _ _.
        Keeps-bind (emit-Inv L _ tt tt) λ _ _.
          Keeps-bind (emit-Inv L _ tt tt)
            λ _ _. Keeps-bind (emit-Inv L _ tt tt) λ _ _. Keeps-pure _ tt

  pub emit_init-Inv : Keeps (Inv arena_static old) Any (emit_init L)
  unfolding emit_init
  emit_init-Inv = Keeps-bind (emit-Inv L _ tt tt) λ f _. Keeps-bind (enter_function-Inv L f) λ _ _.
      Keeps-bind start_scope-Inv λ _ _.
        Keeps-bind (Keeps-gets {Q = All IsDeferred} _ (λ s h. h.deferred))
          λ sts hs. Keeps-bind (visit_each-Inv sts hs) λ _ _. close_function-Inv L _

  pub declare_handle-Inv : (p i : LlType) → Keeps (Inv arena_static old) Any (declare_handle L p i)
  unfolding declare_handle
  declare_handle-Inv p i = Keeps-bind (emit-Inv L _ tt tt) λ f _.
      Keeps-bind (emit-Inv L _ tt tt) λ _ _. Keeps-bind (emit-Inv L _ tt tt) λ _ _.
        Keeps-bind (emit-Inv L _ tt tt) λ _ _.
          Keeps-bind (emit-Inv L _ tt tt)
            λ _ _. Keeps-bind (enter_function-Inv L f) λ _ _. Keeps-pure _ tt

  pub handle_code-Inv :
      (f : Obj) (api : JsonApi) (i t : LlType) (a b : Layout)
      → Keeps (Inv arena_req old) Any (handle_code L f api i t a b)
  unfolding handle_code
  handle_code-Inv f api i t a b =
      Keeps-bind (global_item-Inv "lambpie_arena_alloc") λ g _. emit_handler-Inv L _ (tt, tt) t a b
