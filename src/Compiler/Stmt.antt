-- ===== src/Compiler/Stmt.antt =====
-- compiler.py: the visitors of statements.
use lambpie.Common.{
  ℕ, ◌+◌, String, Bool, true, false, Option, none, some, List, [], ◌∷◌, ◌++◌, map, if◌then◌else◌,
  ◌==◌,
}
use lambpie.Common.Dict.{insert, lookup, contains}
use lambpie.Ast.{
  Expr, Param, Signature, Stmt, expr_stmt, pass_stmt, return_stmt, ann_assign, assign, if_stmt,
  while_stmt, function_def, class_def, import_from, generic_stmt, Stmts, end, seq,
}
use lambpie.Llvm.{
  LlType, int_type, void_type, array_type, Obj, argument, function_of, FunctionType, Instr, ApiCall,
  Llvm,
}
use lambpie.Compiler.Monad.{
  branch, M, ◌>>=◌, ◌>>◌, pure, raise, gets, modify, or_raise, type_item, emit, instr, type_of,
  block_terminated, type_error, name_error, not_implemented, import_error, attribute_error,
}
use lambpie.Compiler.Types.{get_type, get_annotation}
use lambpie.Compiler.Expr.{mangle, element_ptr, visit_expr, visit_exprs}
use lambpie.Compiler.Class.{target_id, set_global, enter_function, declare_class}

abbrev pub arena_static : ℕ
arena_static = 0

abbrev pub arena_req : ℕ
arena_req = 1

unfoldable pub is_void : LlType → Bool
is_void void_type = true
is_void _ = false

unfoldable pub is_array : LlType → Bool
is_array (array_type t n) = true
is_array _ = false

-- `C_SIGNATURES` of `visit_ImportFrom`, from the types of `__ptr__` and `int`
unfoldable pub c_signature : LlType → LlType → String → Option FunctionType
c_signature p i n =
    if n == "printf"
    then some (record { returns = int_type 32; params = p ∷ []; var_arg = true })
    else if n == "atoi"
    then some (record { returns = i; params = p ∷ []; var_arg = false })
    else if n == "strlen"
    then some (record { returns = i; params = p ∷ []; var_arg = false })
    else if n == "free"
    then some (record { returns = void_type; params = p ∷ []; var_arg = false })
    else none

-- the parameters but `self`
unfoldable pub without_self : List Param → List Param
without_self [] = []
without_self (p ∷ ps) = if p.arg == "self" then without_self ps else p ∷ without_self ps

unfoldable pub param_types : List Param → M (List LlType)
param_types [] = pure []
param_types (p ∷ ps) = do t ← get_annotation p.annotation; ts ← param_types ps; pure (t ∷ ts)

-- `[self.types[class_name]]` for a method, else no type
unfoldable pub self_types : Option String → M (List LlType)
self_types none = pure []
self_types (some c) = do t ← type_item c; pure (t ∷ [])

-- the names of the arguments of the function, with `self` first in a method
unfoldable pub arg_names : Option String → List Param → List String
arg_names none ps = map (λ p. p.arg) ps
arg_names (some c) ps = "self" ∷ map (λ p. p.arg) ps

unfoldable pub qualified : Option String → String → String
qualified none f = f
qualified (some c) f = mangle c f

-- the arena that a function's body allocates from, where `arena` is the current one
unfoldable pub body_arena : Option String → String → ℕ → ℕ
body_arena none f arena = if f == "handle" then arena_req else arena
body_arena (some c) f arena = arena

unfoldable pub set_local : String → Obj → M (Unit {0})
set_local k o = modify (λ s. record s { local_scope = insert k o s.local_scope })

-- `self.builder.function`
unfoldable pub current_function : M Obj
current_function = do
  b ← gets (λ s. s.builder)
  b ← or_raise attribute_error b
  pure (function_of b)

module _ (L : Llvm) where
  -- a C function that is not declared yet
  unfoldable pub declare_c : String → M (Unit {0})
  declare_c n = do
    p ← type_item "__ptr__"
    i ← type_item "int"
    ft ← or_raise type_error (c_signature p i n)
    f ← emit L (ApiCall.new_function ft n)
    set_global n f

  -- the loop over `node.names`
  unfoldable pub import_names : List String → M (Unit {0})
  import_names [] = pure tt
  import_names (n ∷ ns) = do
    globals ← gets (λ s. s.global_scope)
    branch (contains n globals) (pure tt) (declare_c n)
    import_names ns

  -- `visit_ImportFrom`
  unfoldable pub visit_import_from : Option String → List String → M (Unit {0})
  visit_import_from none names = raise import_error
  visit_import_from (some m) names = branch (m == "C") (import_names names) (raise import_error)

  -- the loop over `enumerate(llvm_func.args)`, from argument `i`
  unfoldable pub bind_args : Obj → ℕ → List String → M (Unit {0})
  bind_args f i [] = pure tt
  bind_args f i (n ∷ ns) = do
    emit L (ApiCall.set_name (argument f i) n)
    t ← type_of L (argument f i)
    alloc ← instr L (Instr.alloca t n)
    instr L (Instr.store (argument f i) alloc)
    set_local n alloc
    bind_args f (i + 1) ns

  -- the terminator that a body without one gets
  unfoldable pub close_function : LlType → M (Unit {0})
  close_function return_type = do
    terminated ← block_terminated L
    branch terminated (pure tt)
        (do instr L (if is_void return_type then Instr.ret_void else Instr.unreachable); pure tt)

  -- `visit_FunctionDef` between the two settings of the arena, given the visit of the body
  unfoldable pub compile_function : Option String → Signature → M (Unit {0}) → M (Unit {0})
  compile_function class_name sig body = do
    return_type ← get_annotation sig.returns
    self_type ← self_types class_name
    arg_types ← param_types (without_self sig.args)
    let func_name = qualified class_name sig.name
    let arg_list = self_type ++ arg_types
    f ← emit L (
        ApiCall.new_function (record { returns = return_type; params = arg_list; var_arg = false })
          func_name)
    set_global func_name f
    enter_function L f
    modify (λ s. record s { local_scope = []; arena_tags = [] })
    bind_args f 0 (arg_names class_name (without_self sig.args))
    body
    close_function return_type

  -- `visit_FunctionDef`: an allocation in the body is from the arena of the function
  unfoldable pub visit_function : Option String → Signature → M (Unit {0}) → M (Unit {0})
  visit_function class_name sig body = do
    saved_arena ← gets (λ s. s.current_arena)
    modify (λ s. record s { current_arena = body_arena class_name sig.name saved_arena })
    compile_function class_name sig body
    modify (λ s. record s { current_arena = saved_arena })

  -- `visit_AnnAssign`, after the alloca: the initializer
  unfoldable pub initialise : LlType → Obj → Option Expr → M (Unit {0})
  initialise t alloc none = pure tt
  initialise t alloc (some e) =
      branch (is_array t) (raise not_implemented)
        (do v ← visit_expr L e; instr L (Instr.store v alloc); pure tt)

  unfoldable pub visit_ann_assign : Expr → Expr → Option Expr → M (Unit {0})
  visit_ann_assign target annotation value = do
    var ← target_id target
    t ← get_type annotation
    alloc ← instr L (Instr.alloca t var)
    set_local var alloc
    initialise t alloc value
    modify (λ s. record s { arena_tags = insert var s.current_arena s.arena_tags })

  -- `visit_Assign`: only the first target is looked at
  unfoldable pub visit_assign : Expr → Expr → M (Unit {0})
  visit_assign (Expr.subscript e i) value = do
    ptr ← visit_expr L e
    idx ← visit_expr L i
    addr ← element_ptr L ptr idx
    v ← visit_expr L value
    instr L (Instr.store v addr)
    pure tt
  visit_assign (Expr.name id) value = do
    locals ← gets (λ s. s.local_scope)
    alloc ← or_raise name_error (lookup id locals)
    v ← visit_expr L value
    instr L (Instr.store v alloc)
    pure tt
  visit_assign _ value = raise not_implemented

  unfoldable pub visit_return : Option Expr → M (Unit {0})
  visit_return none = do instr L Instr.ret_void; pure tt
  visit_return (some e) = do v ← visit_expr L e; instr L (Instr.ret v); pure tt

  -- `if not self.builder.block.is_terminated: self.builder.branch(target)`
  unfoldable pub branch_if_open : Obj → M (Unit {0})
  branch_if_open target = do
    terminated ← block_terminated L
    branch terminated (pure tt) (do instr L (Instr.branch target); pure tt)

  -- the arms of `visit_If`: the statements at the end of a block, then the branch to `merge`
  unfoldable pub arm : Obj → M (Unit {0}) → Obj → M (Unit {0})
  arm block body merge = do instr L (Instr.position_at_end block); body; branch_if_open merge

  -- `visit_If` without an else
  unfoldable pub visit_if : M Obj → M (Unit {0}) → M (Unit {0})
  visit_if test body = do
    f ← current_function
    entry ← emit L (ApiCall.append_block f "if.entry")
    then_block ← emit L (ApiCall.append_block f "if.then")
    merge ← emit L (ApiCall.append_block f "if.end")
    instr L (Instr.branch entry)
    instr L (Instr.position_at_end entry)
    c ← test
    instr L (Instr.cbranch c then_block merge)
    arm then_block body merge
    instr L (Instr.position_at_end merge)
    pure tt

  -- `visit_If` with an else
  unfoldable pub visit_if_else : M Obj → M (Unit {0}) → M (Unit {0}) → M (Unit {0})
  visit_if_else test body orelse = do
    f ← current_function
    entry ← emit L (ApiCall.append_block f "if.entry")
    then_block ← emit L (ApiCall.append_block f "if.then")
    else_block ← emit L (ApiCall.append_block f "if.else")
    merge ← emit L (ApiCall.append_block f "if.end")
    instr L (Instr.branch entry)
    instr L (Instr.position_at_end entry)
    c ← test
    instr L (Instr.cbranch c then_block else_block)
    arm then_block body merge
    arm else_block orelse merge
    instr L (Instr.position_at_end merge)
    pure tt

  unfoldable pub visit_while : M Obj → M (Unit {0}) → M (Unit {0})
  visit_while test body = do
    f ← current_function
    header ← emit L (ApiCall.append_block f "loop.header")
    body_block ← emit L (ApiCall.append_block f "loop.body")
    exit ← emit L (ApiCall.append_block f "loop.exit")
    instr L (Instr.branch header)
    instr L (Instr.position_at_end header)
    c ← test
    instr L (Instr.cbranch c body_block exit)
    instr L (Instr.position_at_end body_block)
    body
    branch_if_open header
    instr L (Instr.position_at_end exit)
    pure tt

  -- `visit` of a statement, of a body, and the loop of `visit_ClassDef` over the methods
  unfoldable mutual
    pub visit_stmt : Stmt → M (Unit {0})
    visit_stmt (expr_stmt e) = do visit_expr L e; pure tt
    visit_stmt pass_stmt = pure tt
    visit_stmt (return_stmt e) = visit_return e
    visit_stmt (ann_assign target annotation value) = visit_ann_assign target annotation value
    visit_stmt (assign target others value) = visit_assign target value
    visit_stmt (if_stmt test body end) = visit_if (visit_expr L test) (visit_stmts body)
    visit_stmt (if_stmt test body (seq s ss)) =
        visit_if_else (visit_expr L test) (visit_stmts body) (visit_stmts (seq s ss))
    visit_stmt (while_stmt test body orelse) = visit_while (visit_expr L test) (visit_stmts body)
    visit_stmt (function_def sig body) = visit_function none sig (visit_stmts body)
    visit_stmt (class_def c body) = do declare_class L c body; visit_methods c body
    visit_stmt (import_from m names) = visit_import_from m names
    visit_stmt (generic_stmt es ss) = do visit_exprs L es; visit_stmts ss

    pub visit_stmts : Stmts → M (Unit {0})
    visit_stmts end = pure tt
    visit_stmts (seq s ss) = do visit_stmt s; visit_stmts ss

    pub visit_methods : String → Stmts → M (Unit {0})
    visit_methods c end = pure tt
    visit_methods c (seq (function_def sig body) ss) = do
      visit_function (some c) sig (visit_stmts body)
      visit_methods c ss
    visit_methods c (seq _ ss) = visit_methods c ss
