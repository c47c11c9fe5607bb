-- ===== src/Compiler/Tests/Meanings.antt =====
-- The theorem on integer expressions at `-(x * 3) + ~x`, where x is 5.
use lambpie.Common.{length, ℕ, String, Bool, ◌==◌, refl, some, [], ◌∷◌}
use lambpie.Common.Dict.{lookup}
use lambpie.Compiler.Tests.Runs.{everything}
use lambpie.Common.{arith}
use lambpie.Ast.{int_lit, BinOp, UnaryOp, Expr}
use lambpie.Llvm.{result, constant, nat_val, Instr, new_builder, build}
use lambpie.Compiler.Monad.{State}
use lambpie.Compiler.Expr.{visit_expr}
use lambpie.Compiler.Entry.Init.{blank}
use lambpie.Compiler.Meaning.Source.{
  meaning, binary_meaning, unary_meaning, literal_meaning, IsInteger,
}
use lambpie.Compiler.Meaning.Machine.{Machine, i64}
use lambpie.Compiler.Meaning.Steps.{IsReady, Computes}
use lambpie.Compiler.Meaning.Correct.{visit_expr-Computes}
use lambpie.Compiler.Tests.Bench.{
  bench, type_kept, value_kept, memory_kept, eqb_refl, initial_value, run_arith, is_minus_one,
  returned, type_at, value_at, memory_at,
}

abbrev bench_machine : Machine bench
unfolding type_at value_at initial_value run_arith is_minus_one returned
bench_machine = record {
  value = value_at;
  memory = memory_at;
  constant_type = λ log t v. refl;
  nat_value = λ log n. refl;
  type_kept = type_kept;
  value_kept = value_kept;
  memory_kept = memory_kept;
  load_accepted = λ log b p n e. refl;
  load_type = λ log b p n e. rw (eqb_refl (length log)) refl;
  load_value = λ log b p n. rw (eqb_refl (length log)) refl;
  arith_accepted = λ log b f x y n e e'. refl;
  arith_type = λ log b f x y n e e'. rw (eqb_refl (length log)) refl;
  add_value = λ log b x y n. rw (eqb_refl (length log)) refl;
  sub_value = λ log b x y n. rw (eqb_refl (length log)) refl;
  mul_value = λ log b x y n. rw (eqb_refl (length log)) refl;
  complement_value = λ log b x n. rw (eqb_refl (length log)) refl;
}

abbrev declared : String → Bool
declared id = "x" == id

abbrev env : String → ℕ
env id = 5

-- x = 5, behind `ir.IRBuilder` and `alloca`
abbrev stored : State
stored = record blank {
  types = ("int", i64) ∷ [];
  local_scope = ("x", result 1) ∷ [];
  builder = some (result 0);
  log =
      build (result 0) (Instr.store (constant i64 (nat_val 5)) (result 1))
      ∷ build (result 0) (Instr.alloca i64 "x")
      ∷ new_builder (result 0)
      ∷ [];
}

abbrev sample : Expr
sample =
    Expr.bin_op BinOp.add
      (Expr.unary_op UnaryOp.u_sub
        (Expr.bin_op BinOp.mult (Expr.name "x") (Expr.constant (int_lit 3))))
      (Expr.unary_op UnaryOp.invert (Expr.name "x"))

stored-IsReady : IsReady bench bench_machine declared env (result 0) stored
unfolding lookup type_at value_at memory_at
stored-IsReady = record {
  int_is = refl;
  builder_is = refl;
  slots = λ id d. record {
    slot = result 1;
    bound = rw d refl;
    before = omega arith;
    pointer = refl;
    content = refl;
  };
}

visit_expr-Computes_example :
    Computes bench bench_machine declared env
      (result 0)
      stored
      18446744073709551595
      (visit_expr bench sample stored)
unfolding everything IsInteger meaning binary_meaning unary_meaning literal_meaning
visit_expr-Computes_example =
    visit_expr-Computes bench_machine sample stored (tt, (tt, (tt, refl, tt)), (tt, refl))
      stored-IsReady
