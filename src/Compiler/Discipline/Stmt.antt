-- ===== src/Compiler/Discipline/Stmt.antt =====
-- The discipline of statements: code of a body asks for the arena of the body.
use lambpie.Common.{ℕ, String, Option, none, some, ◌≡◌, refl}
use lambpie.Ast.{
  Expr, Signature, Stmt, expr_stmt, pass_stmt, return_stmt, ann_assign, assign, if_stmt, while_stmt,
  function_def, class_def, import_from, generic_stmt, Stmts, end, seq,
}
use lambpie.Llvm.{LlType, Obj, Log, Llvm}
use lambpie.Compiler.Monad.{M, modify}
use lambpie.Compiler.Stmt.{
  body_arena, initialise, visit_ann_assign, visit_assign, visit_return, current_function,
  branch_if_open, arm, visit_if, visit_if_else, visit_while, visit_function, visit_stmt,
  visit_stmts, visit_methods,
}
use lambpie.Compiler.Hoare.{
  Keeps, Any, Keeps-pure, Keeps-raise, Keeps-gets, Keeps-bind, Keeps-modify,
}
use lambpie.Compiler.Discipline.Inv.{Inv, IsValue, instr-Inv}
use lambpie.Compiler.Discipline.Objects.{steps, bind-Any, get_type-Inv}
use lambpie.Compiler.Discipline.Expr.{visit_expr-Inv, visit_exprs-Inv, element_ptr-Inv}
use lambpie.Compiler.Discipline.Scopes.{
  set_local-Inv, target_id-Inv, block_terminated-Inv, declare_class-Inv, visit_import_from-Inv,
  compile_function-Inv,
}

-- No function inside has another arena than `arena`: none is a nested `def handle`, unless `arena`
-- is the request arena.
unfoldable mutual
  pub StmtKeepsArena : ℕ → Stmt → Type 0
  StmtKeepsArena arena (if_stmt test body orelse) = KeepsArena arena body × KeepsArena arena orelse
  StmtKeepsArena arena (while_stmt test body orelse) = KeepsArena arena body
  StmtKeepsArena arena (function_def sig body) =
      (body_arena none sig.name arena ≡ arena) × KeepsArena arena body
  StmtKeepsArena arena (class_def c body) = MethodsKeepArena arena body
  StmtKeepsArena arena (generic_stmt es ss) = KeepsArena arena ss
  StmtKeepsArena arena _ = Unit

  pub KeepsArena : ℕ → Stmts → Type 0
  KeepsArena arena end = Unit
  KeepsArena arena (seq s ss) = StmtKeepsArena arena s × KeepsArena arena ss

  pub MethodsKeepArena : ℕ → Stmts → Type 0
  MethodsKeepArena arena end = Unit
  MethodsKeepArena arena (seq (function_def sig body) ss) =
      KeepsArena arena body × MethodsKeepArena arena ss
  MethodsKeepArena arena (seq _ ss) = MethodsKeepArena arena ss

module _ {arena : ℕ} {old : Log} where
  current_function-Inv : Keeps (Inv arena old) IsValue current_function
  unfolding current_function
  current_function-Inv = search steps depth 8

module _ (L : Llvm) {arena : ℕ} {old : Log} where
  branch_if_open-Inv : (o : Obj) → Keeps (Inv arena old) Any (branch_if_open L o)
  unfolding branch_if_open
  branch_if_open-Inv o = search (steps, block_terminated-Inv) depth 8

  arm-Inv :
      (o m : Obj) (body : M (Unit {0}))
      → Keeps (Inv arena old) Any body
      → Keeps (Inv arena old) Any (arm L o body m)
  unfolding arm
  arm-Inv o m body k = search (steps, branch_if_open-Inv) depth 8

  visit_if-Inv :
      (test : M Obj) (body : M (Unit {0}))
      → Keeps (Inv arena old) IsValue test
      → Keeps (Inv arena old) Any body
      → Keeps (Inv arena old) Any (visit_if L test body)
  unfolding visit_if
  visit_if-Inv test body kt kb = search (steps, current_function-Inv, arm-Inv) depth 20

  visit_if_else-Inv :
      (test : M Obj) (body orelse : M (Unit {0}))
      → Keeps (Inv arena old) IsValue test
      → Keeps (Inv arena old) Any body
      → Keeps (Inv arena old) Any orelse
      → Keeps (Inv arena old) Any (visit_if_else L test body orelse)
  unfolding visit_if_else
  visit_if_else-Inv test body orelse kt kb ko =
      search (steps, current_function-Inv, arm-Inv) depth 24

  visit_while-Inv :
      (test : M Obj) (body : M (Unit {0}))
      → Keeps (Inv arena old) IsValue test
      → Keeps (Inv arena old) Any body
      → Keeps (Inv arena old) Any (visit_while L test body)
  unfolding visit_while
  visit_while-Inv test body kt kb =
      search (steps, current_function-Inv, branch_if_open-Inv) depth 24

  visit_return-Inv : (e : Option Expr) → Keeps (Inv arena old) Any (visit_return L e)
  unfolding visit_return
  visit_return-Inv none = search steps
  visit_return-Inv (some e) = search (steps, visit_expr-Inv) depth 8

  initialise-Inv :
      (t : LlType) (o : Obj) (e : Option Expr) → Keeps (Inv arena old) Any (initialise L t o e)
  unfolding initialise
  initialise-Inv t o none = Keeps-pure _ tt
  initialise-Inv t o (some e) = search (steps, visit_expr-Inv) depth 8

  visit_ann_assign-Inv :
      (t a : Expr) (v : Option Expr) → Keeps (Inv arena old) Any (visit_ann_assign L t a v)
  unfolding visit_ann_assign
  visit_ann_assign-Inv t a v = bind-Any _ _ (target_id-Inv t) λ k.
      Keeps-bind (get_type-Inv a) λ u _. Keeps-bind (instr-Inv L _ tt) λ o ho.
        Keeps-bind (set_local-Inv k o ho) λ _ _. Keeps-bind (initialise-Inv u o v) λ _ _.
          Keeps-modify _ λ s h. record {
            arena_is = h.arena_is;
            deferred = h.deferred;
            handler = h.handler;
            tags = h.tags;
            numbers = h.numbers;
            globals = h.globals;
            locals = h.locals;
            types_ok = h.types_ok;
          }

  visit_assign-Inv : (t v : Expr) → Keeps (Inv arena old) Any (visit_assign L t v)
  unfolding visit_assign
  visit_assign-Inv (Expr.subscript e i) v = search (steps, visit_expr-Inv, element_ptr-Inv) depth 14
  visit_assign-Inv (Expr.name k) v = search (steps, visit_expr-Inv) depth 12
  visit_assign-Inv _ v = Keeps-raise _

  set_arena-Inv :
      (a : ℕ) → a ≡ arena → Keeps (Inv arena old) Any (modify (λ s. record s { current_arena = a }))
  set_arena-Inv a e = Keeps-modify _ λ s h. record {
    arena_is = e;
    deferred = h.deferred;
    handler = h.handler;
    tags = h.tags;
    numbers = h.numbers;
    globals = h.globals;
    locals = h.locals;
    types_ok = h.types_ok;
  }

  visit_function-Inv :
      (c : Option String) (sig : Signature) (body : M (Unit {0}))
      → body_arena c sig.name arena ≡ arena
      → Keeps (Inv arena old) Any body
      → Keeps (Inv arena old) Any (visit_function L c sig body)
  unfolding visit_function
  visit_function-Inv c sig body e k =
      Keeps-bind (Keeps-gets {Q = λ a. a ≡ arena} _ (λ s h. h.arena_is)) λ saved hs.
        Keeps-bind (set_arena-Inv _ (rw hs e))
          λ _ _. Keeps-bind (compile_function-Inv L c sig body k) λ _ _. set_arena-Inv saved hs

  mutual
    unfolding visit_stmt StmtKeepsArena body_arena

    visit_stmt-Keeps :
        (s : Stmt) → StmtKeepsArena arena s → Keeps (Inv arena old) Any (visit_stmt L s)
    visit_stmt-Keeps (expr_stmt e) h = Keeps-bind (visit_expr-Inv L e) λ _ _. Keeps-pure _ tt
    visit_stmt-Keeps pass_stmt h = Keeps-pure _ tt
    visit_stmt-Keeps (return_stmt e) h = visit_return-Inv e
    visit_stmt-Keeps (ann_assign t a v) h = visit_ann_assign-Inv t a v
    visit_stmt-Keeps (assign t ts v) h = visit_assign-Inv t v
    visit_stmt-Keeps (if_stmt test body end) h =
        visit_if-Inv _ _ (visit_expr-Inv L test) (visit_stmts-Keeps body h.0)
    visit_stmt-Keeps (if_stmt test body (seq s ss)) h =
        visit_if_else-Inv _ _ _ (visit_expr-Inv L test) (visit_stmts-Keeps body h.0)
          (visit_stmts-Keeps (seq s ss) h.1)
    visit_stmt-Keeps (while_stmt test body orelse) h =
        visit_while-Inv _ _ (visit_expr-Inv L test) (visit_stmts-Keeps body h)
    visit_stmt-Keeps (function_def sig body) h =
        visit_function-Inv none sig _ h.0 (visit_stmts-Keeps body h.1)
    visit_stmt-Keeps (class_def c body) h =
        Keeps-bind (declare_class-Inv L c body) λ _ _. visit_methods-Keeps c body h
    visit_stmt-Keeps (import_from m ns) h = visit_import_from-Inv L m ns
    visit_stmt-Keeps (generic_stmt es ss) h =
        Keeps-bind (visit_exprs-Inv L es) λ _ _. visit_stmts-Keeps ss h

    visit_stmts-Keeps :
        (ss : Stmts) → KeepsArena arena ss → Keeps (Inv arena old) Any (visit_stmts L ss)
    visit_stmts-Keeps end h = Keeps-pure _ tt
    visit_stmts-Keeps (seq s ss) h =
        Keeps-bind (visit_stmt-Keeps s h.0) λ _ _. visit_stmts-Keeps ss h.1

    visit_methods-Keeps :
        (c : String) (ss : Stmts)
        → MethodsKeepArena arena ss
        → Keeps (Inv arena old) Any (visit_methods L c ss)
    visit_methods-Keeps c end h = Keeps-pure _ tt
    visit_methods-Keeps c (seq (function_def sig body) ss) h =
        Keeps-bind (visit_function-Inv (some c) sig _ refl (visit_stmts-Keeps body h.0))
          λ _ _. visit_methods-Keeps c ss h.1
    visit_methods-Keeps c (seq _ ss) h = visit_methods-Keeps c ss h

  pub visit_stmt-Inv :
      (s : Stmt) → StmtKeepsArena arena s → Keeps (Inv arena old) Any (visit_stmt L s)
  visit_stmt-Inv s h = visit_stmt-Keeps s h

  pub visit_stmts-Inv :
      (ss : Stmts) → KeepsArena arena ss → Keeps (Inv arena old) Any (visit_stmts L ss)
  visit_stmts-Inv ss h = visit_stmts-Keeps ss h
