-- ===== src/Compiler/Tests/Programs.antt =====
-- builtins.pie, tests/echo.pie and parts of them as syntax trees.
use lambpie.Common.{String, none, some, List, [], ◌∷◌}
use lambpie.Ast.{
  str_lit, none_lit, add, Expr, constant, name, bin_op, attribute, call, nil, cons, Param,
  Signature, Stmt, pass_stmt, return_stmt, ann_assign, function_def, class_def, import_from, Stmts,
  end, seq,
}

abbrev pub param : String → Expr → Param
param n t = record { arg = n; annotation = some t }

abbrev pub self : Param
self = record { arg = "self"; annotation = none }

abbrev pub field : String → String → Stmt
field n t = ann_assign (name n) (name t) none

abbrev nothing : Stmts
nothing = seq pass_stmt end

abbrev procedure : String → List Param → Stmt
procedure n ps =
    function_def (record { name = n; args = ps; returns = some (constant none_lit) }) nothing

-- builtins.pie
abbrev pub builtins : Stmts
builtins = seq (import_from (some "C") ("malloc" ∷ "free" ∷ "strlen" ∷ "memcpy" ∷ [])) (
    seq
      (class_def "str" (
        seq (field "len" "int") (
          seq (field "buffer" "__ptr__") (
            seq (procedure "__init__" (self ∷ param "c_str" (name "__ptr__") ∷ []))
              (seq (procedure "__del__" (self ∷ [])) end)))))
      (seq
        (class_def "bytearray" (
          seq (field "len" "int") (
            seq (field "buffer" "__ptr__") (
              seq (procedure "__init__" (self ∷ param "size" (name "int") ∷ []))
                (seq (procedure "__del__" (self ∷ [])) end)))))
        end))

abbrev pub handle_signature : Signature
handle_signature = record {
  name = "handle";
  args = param "event" (name "Request") ∷ [];
  returns = some (name "Response");
}

abbrev pub handle_body : Stmts
handle_body =
    seq
      (return_stmt (
        some (
          call (name "Response") (
            cons (constant (str_lit "ok")) (
              cons (attribute (name "event") "message") (
                cons
                  (bin_op add (attribute (name "event") "number")
                    (attribute (name "event") "number"))
                  nil))))))
      end

abbrev pub echo_classes : Stmts
echo_classes =
    seq (class_def "Request" (seq (field "message" "str") (seq (field "number" "int") end))) (
      seq
        (class_def "Response"
          (seq (field "status" "str") (seq (field "echo" "str") (seq (field "doubled" "int") end))))
        (seq (function_def handle_signature handle_body) end))
