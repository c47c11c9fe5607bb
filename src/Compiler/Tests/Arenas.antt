-- ===== src/Compiler/Tests/Arenas.antt =====
-- The theorems about arenas at echo.pie and at small functions.
use lambpie.Common.{arith, refl, String, none, some, [], ◌∷◌}
use lambpie.Ast.{BinOp, Expr, name, int_lit, return_stmt, Signature, Stmts, end, seq}
use lambpie.Compiler.Stmt.{arena_req, visit_function, visit_stmts}
use lambpie.Compiler.Discipline.Stmt.{KeepsArena}
use lambpie.Compiler.Discipline.Functions.{InArena, IsSound, handle_arena, function_arena}
use lambpie.Compiler.Tests.Programs.{param}
use lambpie.Compiler.Entry.Module.{combine}
use lambpie.Compiler.Discipline.Stmt.{StmtKeepsArena}
use lambpie.Compiler.Discipline.Entry.{TopKeepsArena, ModuleKeepsArena}
use lambpie.Compiler.Discipline.Start.{RunPlan, run_arenas}
use lambpie.Compiler.Tests.Standin.{standin}
use lambpie.Compiler.Tests.Programs.{builtins, echo_classes}
use lambpie.Compiler.Tests.Runs.{everything, run, final, fresh}

run_arenas_example : RunPlan standin (combine builtins echo_classes) (final (run echo_classes))
unfolding everything ModuleKeepsArena TopKeepsArena StmtKeepsArena
run_arenas_example =
    run_arenas standin (combine builtins echo_classes) (final (run echo_classes)) (omega arith) refl

fresh-IsSound : IsSound fresh
unfolding everything
fresh-IsSound = omega arith

abbrev int_signature : String → Signature
int_signature n = record {
  name = n;
  args = param "n" (name "int") ∷ [];
  returns = some (name "int");
}

-- return n + 1
abbrev successor : Stmts
successor =
    seq (return_stmt (some (Expr.bin_op BinOp.add (name "n") (Expr.constant (int_lit 1))))) end

handle_arena_example : InArena arena_req fresh.log 0 (
    final
      (visit_function standin none (int_signature "handle") (visit_stmts standin successor) fresh))
unfolding everything
handle_arena_example =
    handle_arena standin (int_signature "handle") successor fresh
      (final (
        visit_function standin none (int_signature "handle") (visit_stmts standin successor) fresh))
      refl fresh-IsSound refl

function_arena_example : InArena 0 fresh.log 0 (
    final
      (visit_function standin none (int_signature "next") (visit_stmts standin successor) fresh))
unfolding everything KeepsArena
function_arena_example =
    function_arena standin none (int_signature "next") successor fresh
      (final
        (visit_function standin none (int_signature "next") (visit_stmts standin successor) fresh))
      fresh-IsSound (omega arith) refl
