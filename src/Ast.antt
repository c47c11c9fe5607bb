-- ===== src/Ast.antt =====
-- The nodes of Python's `ast` module as compiler.py reads them. What the compiler never looks at
-- (positions, contexts, decorators, defaults, keyword arguments) has no field here.
use lambpie.Common.{ℕ, String, Bool, Option, List}

-- `ast.Constant.value`
pub data Literal : Type 0 where
  int_lit : ℕ → Literal
  bool_lit : Bool → Literal
  str_lit : String → Literal
  bytes_lit : List ℕ → Literal
  none_lit : Literal
  -- float, complex, Ellipsis
  other_lit : Literal

-- `ast.operator`; `other_op` stands for Div, FloorDiv, Pow and MatMult.
pub data BinOp : Type 0 where
  add sub mult bit_and bit_or bit_xor l_shift r_shift mod_op other_op : BinOp

pub data UnaryOp : Type 0 where
  invert u_sub u_add not_op : UnaryOp

-- `ast.cmpop`; `other_cmp` stands for Is, IsNot, In and NotIn.
pub data CmpOp : Type 0 where
  eq not_eq lt lt_e gt gt_e other_cmp : CmpOp

mutual
  pub data Expr : Type 0 where
    constant : Literal → Expr
    name : String → Expr
    bin_op : BinOp → Expr → Expr → Expr
    unary_op : UnaryOp → Expr → Expr
    compare : Expr → CmpOp → Expr → Expr
    -- a comparison with two or more operators
    compare_chain : Expr → Exprs → Expr
    attribute : Expr → String → Expr
    subscript : Expr → Expr → Expr
    -- `ast.Index`, which Python 3.8 puts round a subscript's slice
    index : Expr → Expr
    call : Expr → Exprs → Expr
    tuple : Exprs → Expr
    -- a node of any other class, with its child expressions in the order of its fields
    generic : Exprs → Expr

  pub data Exprs : Type 0 where
    nil : Exprs
    cons : Expr → Exprs → Exprs

-- `ast.arg`
pub record Param : Type 0 where
  pub arg : String
  pub annotation : Option Expr

-- An `ast.FunctionDef` without its body.
pub record Signature : Type 0 where
  pub name : String
  pub args : List Param
  pub returns : Option Expr

mutual
  pub data Stmt : Type 0 where
    expr_stmt : Expr → Stmt
    pass_stmt : Stmt
    return_stmt : Option Expr → Stmt
    -- target, annotation, value
    ann_assign : Expr → Expr → Option Expr → Stmt
    -- the first target, the other targets of a chained assignment, the value
    assign : Expr → Exprs → Expr → Stmt
    if_stmt : Expr → Stmts → Stmts → Stmt
    -- test, body, the `else` of the loop
    while_stmt : Expr → Stmts → Stmts → Stmt
    function_def : Signature → Stmts → Stmt
    class_def : String → Stmts → Stmt
    import_from : Option String → List String → Stmt
    -- a node of any other class (AugAssign, For, Break, Continue, Assert, Delete, Import, ...): its
    -- child expressions, then its child statements (of a Try, where `generic_visit` has the handlers'
    -- expressions between the statements, this is another order)
    generic_stmt : Exprs → Stmts → Stmt

  pub data Stmts : Type 0 where
    end : Stmts
    seq : Stmt → Stmts → Stmts
