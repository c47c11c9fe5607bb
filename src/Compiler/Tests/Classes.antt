-- ===== src/Compiler/Tests/Classes.antt =====
-- The theorem about layouts at a class of two fields.
use lambpie.Common.{refl}
use lambpie.Ast.{Stmts, end, seq}
use lambpie.Compiler.Class.{declare_class}
use lambpie.Compiler.Layouts.Class.{HasLayout, declare_class-HasLayout}
use lambpie.Compiler.Tests.Standin.{standin}
use lambpie.Compiler.Tests.Programs.{field}
use lambpie.Compiler.Tests.Runs.{everything, final, fresh}

-- name: bytes, count: int
abbrev two_fields : Stmts
two_fields = seq (field "name" "bytes") (seq (field "count" "int") end)

declare_class-HasLayout_example :
    HasLayout "Item" (final (declare_class standin "Item" two_fields fresh))
unfolding everything
declare_class-HasLayout_example =
    declare_class-HasLayout standin "Item" two_fields fresh
      (final (declare_class standin "Item" two_fields fresh)) refl
