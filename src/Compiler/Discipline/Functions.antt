-- ===== src/Compiler/Discipline/Functions.antt =====
-- The arena of a function's code, and that the compiler is back in the arena it was in.
use lambpie.Common.{
  All, ℕ, suc, String, Bool, true, false, if◌then◌else◌, Option, none, [], ◌≡◌, refl, ◌==◌,
}
use mathlib.Core.Path.{subst}
use lambpie.Ast.{
  Signature, Stmt, if_stmt, while_stmt, function_def, class_def, generic_stmt, Stmts, end, seq,
}
use lambpie.Llvm.{Log, Llvm}
use lambpie.Compiler.Monad.{Result, ok, err, State, continue, gets, modify, ◌>>=◌}
use lambpie.Compiler.Stmt.{arena_req, body_arena, visit_function, visit_stmts}
use lambpie.Compiler.Hoare.{Ensures, Any}
use lambpie.Compiler.Discipline.Inv.{
  IsDeferred, IsHandle, Inv, Descends, global_numbers, Values, NoI32, Emitted, CallTagIs,
}
use lambpie.Compiler.Discipline.Scopes.{compile_function-Inv}
use lambpie.Compiler.Discipline.Stmt.{StmtKeepsArena, KeepsArena, MethodsKeepArena, visit_stmts-Inv}

-- The numbered globals have different numbers, up to the counter, and no name stands for an i32
-- constant or for the type i32.
pub record IsSound (s : State) : Type 0 where
  pub deferred : All IsDeferred s.init_stmts
  pub handler : IsHandle s.handle_node
  pub numbers : Descends (suc s.name_counter) (global_numbers s.log)
  pub globals : Values s.global_scope
  pub locals : Values s.local_scope
  pub types_ok : NoI32 s.types

-- The calls since `old` ask for `arena`, and the compiler is sound and in the arena `back`.
abbrev pub InArena : ℕ → Log → ℕ → State → Type 0
InArena arena old back s = Emitted old s (CallTagIs arena) × (s.current_arena ≡ back) × IsSound s

pub start-Inv : (arena : ℕ) (s : State) → s.current_arena ≡ arena → IsSound s → Inv arena s.log s
start-Inv arena s e h = record {
  arena_is = e;
  deferred = h.deferred;
  handler = h.handler;
  tags = ([], refl, tt);
  numbers = h.numbers;
  globals = h.globals;
  locals = h.locals;
  types_ok = h.types_ok;
}

pub Inv-InArena : (arena : ℕ) (old : Log) (s : State) → Inv arena old s → InArena arena old arena s
Inv-InArena arena old s h = (
  h.tags,
  h.arena_is,
  record {
    deferred = h.deferred;
    handler = h.handler;
    numbers = h.numbers;
    globals = h.globals;
    locals = h.locals;
    types_ok = h.types_ok;
  },
)

-- the last step of `visit_FunctionDef`
restored :
    (arena back : ℕ) (old : Log) (r : Result (Unit {0} × State))
    → Ensures (Inv arena old) Any r
    → Ensures
        (InArena arena old back)
        Any
        (continue r (λ _. modify (λ s. record s { current_arena = back })))
unfolding modify
restored arena back old (err e) h = tt
restored arena back old (ok (u, s)) (h, _) = (
  (
    h.tags,
    refl,
    record {
      deferred = h.deferred;
      handler = h.handler;
      numbers = h.numbers;
      globals = h.globals;
      locals = h.locals;
      types_ok = h.types_ok;
    },
  ),
  tt,
)

either_way : (b : Bool) → (if b then arena_req else arena_req) ≡ arena_req
either_way true = refl
either_way false = refl

mutual
  unfolding StmtKeepsArena body_arena

  Stmt-req : (s : Stmt) → StmtKeepsArena arena_req s
  Stmt-req (if_stmt test body orelse) = (Stmts-req body, Stmts-req orelse)
  Stmt-req (while_stmt test body orelse) = Stmts-req body
  Stmt-req (function_def sig body) = (either_way (sig.name == "handle"), Stmts-req body)
  Stmt-req (class_def c body) = Methods-req body
  Stmt-req (generic_stmt es ss) = Stmts-req ss
  Stmt-req _ = tt

  Stmts-req : (ss : Stmts) → KeepsArena arena_req ss
  Stmts-req end = tt
  Stmts-req (seq s ss) = (Stmt-req s, Stmts-req ss)

  Methods-req : (ss : Stmts) → MethodsKeepArena arena_req ss
  Methods-req end = tt
  Methods-req (seq (function_def sig body) ss) = (Stmts-req body, Methods-req ss)
  Methods-req (seq _ ss) = Methods-req ss

-- Below the request arena no function has another.
pub KeepsArena-req : (ss : Stmts) → KeepsArena arena_req ss
KeepsArena-req ss = Stmts-req ss

module _ (L : Llvm) (c : Option String) (sig : Signature) (body : Stmts) (s : State) where
  pub function-Ensures :
      (arena : ℕ)
      → body_arena c sig.name s.current_arena ≡ arena
      → IsSound s
      → KeepsArena arena body
      → Ensures
          (InArena arena s.log s.current_arena)
          Any
          (visit_function L c sig (visit_stmts L body) s)
  unfolding visit_function ◌>>=◌ gets modify
  function-Ensures arena e h k = restored arena s.current_arena s.log _ (
      (compile_function-Inv L c sig _ (visit_stmts-Inv L body k)).at _ (
        start-Inv arena (record s { current_arena = body_arena c sig.name s.current_arena }) e
          (record {
            deferred = h.deferred;
            handler = h.handler;
            numbers = h.numbers;
            globals = h.globals;
            locals = h.locals;
            types_ok = h.types_ok;
          })))

  -- Where no function nested in the body has another arena: if `visit_FunctionDef` returns, then of
  -- the llvmlite calls that it made each call instruction whose first argument is an i32 constant
  -- has the function's arena there, and the compiler is sound and in the arena it was in.
  pub function_arena :
      (s' : State)
      → IsSound s
      → KeepsArena (body_arena c sig.name s.current_arena) body
      → visit_function L c sig (visit_stmts L body) s ≡ ok (tt, s')
      → InArena (body_arena c sig.name s.current_arena) s.log s.current_arena s'
  function_arena s' h k e =
      (subst (Ensures (InArena _ s.log s.current_arena) Any) e (function-Ensures _ refl h k)).0

module _ (L : Llvm) (sig : Signature) (body : Stmts) (s s' : State) where
  -- Whatever stands in its body, nested functions and classes included: if `visit_FunctionDef` of a
  -- top-level `handle` returns, then of the llvmlite calls that it made each call instruction whose
  -- first argument is an i32 constant has the request arena there, and the compiler is sound and in
  -- the arena it was in.
  pub handle_arena :
      (sig.name == "handle") ≡ true
      → IsSound s
      → visit_function L none sig (visit_stmts L body) s ≡ ok (tt, s')
      → InArena arena_req s.log s.current_arena s'
  unfolding body_arena
  handle_arena n h e =
      (subst (Ensures (InArena _ s.log s.current_arena) Any) e
        (function-Ensures L none sig body s arena_req (rw n) h (KeepsArena-req body))).0
