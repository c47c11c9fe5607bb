-- ===== src/Compiler/Entry/Module.antt =====
-- compiler.py: `visit_Module`, and what `main` compiles: the builtins before the source.
use lambpie.Common.{Bool, false, ◌&&◌, some, [], ◌∷◌, ◌++◌, ◌==◌}
use lambpie.Ast.{
  str_lit, eq, Expr, constant, name, compare, Stmt, expr_stmt, ann_assign, assign, if_stmt,
  function_def, Stmts, end, seq,
}
use lambpie.Llvm.{Llvm}
use lambpie.Compiler.Monad.{branch, M, ◌>>◌, pure, modify}
use lambpie.Compiler.Stmt.{visit_stmt}

-- `__name__ == '__main__'`
unfoldable pub is_main_test : Expr → Bool
is_main_test (compare (name n) eq (constant (str_lit v))) = n == "__name__" && v == "__main__"
is_main_test _ = false

unfoldable pub is_main_block : Stmt → Bool
is_main_block (if_stmt test body orelse) = is_main_test test
is_main_block _ = false

unfoldable pub defer_init : Stmt → M (Unit {0})
defer_init st = modify (λ s. record s { init_stmts = s.init_stmts ++ st ∷ [] })

module _ (L : Llvm) where
  -- one statement of the module, which is no main block
  unfoldable pub visit_top : Stmt → M (Unit {0})
  visit_top (function_def sig body) =
      branch (sig.name == "handle") (modify (λ s. record s { handle_node = some (sig, body) }))
        (visit_stmt L (function_def sig body))
  visit_top (ann_assign target annotation value) = defer_init (ann_assign target annotation value)
  visit_top (assign target others value) = defer_init (assign target others value)
  visit_top (expr_stmt e) = defer_init (expr_stmt e)
  visit_top st = visit_stmt L st

  unfoldable pub visit_module : Stmts → M (Unit {0})
  visit_module end = pure tt
  visit_module (seq st rest) = do
    branch (is_main_block st) (pure tt) (visit_top st)
    visit_module rest

-- `builtin_ast.body + source_ast.body`
unfoldable pub combine : Stmts → Stmts → Stmts
combine end source = source
combine (seq st rest) source = seq st (combine rest source)
