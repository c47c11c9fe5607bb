-- ===== src/Compiler/Expr.antt =====
-- compiler.py: the visitors of expressions.
use lambpie.Common.{
  concat, ℕ, ◌+◌, String, Bool, true, false, Option, none, some, List, [], ◌∷◌, get_elem?, length,
}
use lambpie.Common.Dict.{Dict, lookup}
use lambpie.Ast.{
  Literal, int_lit, bool_lit, str_lit, bytes_lit, BinOp, UnaryOp, CmpOp, Expr, Exprs, nil, cons,
}
use lambpie.Llvm.{
  LlType, int_type, pointer_type, array_type, identified_type, Initial, nat_val, bool_val,
  minus_one, c_string, byte_vals, Obj, py_none, constant, type_obj, method, Arith, Instr, numbered,
  ApiCall, Llvm,
}
use lambpie.Compiler.Monad.{
  branch, M, ◌>>=◌, ◌>>◌, pure, raise, gets, modify, or_raise, type_item, emit, instr, type_of,
  name_error, not_implemented, attribute_error, index_error,
}
use lambpie.Compiler.Objects.{field_indices, allocate, coerce_arg}
use Prim.Native.String.{count}

-- f"{class_name}_{attr_name}"
abbrev pub mangle : String → String → String
mangle c f = concat c (concat "_" f)

-- `t.pointee.name`
unfoldable pub pointee_name : LlType → Option String
pointee_name (pointer_type (identified_type n)) = some n
pointee_name _ = none

-- whether `t` is a pointer to an `ir.ArrayType`
unfoldable pub is_array_pointer : LlType → Bool
is_array_pointer (pointer_type (array_type t n)) = true
is_array_pointer _ = false

-- the builder's method for a binary operator, and the name of its result
unfoldable pub arith_of : BinOp → Option (Arith × String)
arith_of BinOp.add = some (Arith.add, "addtmp")
arith_of BinOp.sub = some (Arith.sub, "subtmp")
arith_of BinOp.mult = some (Arith.mul, "multmp")
arith_of BinOp.bit_and = some (Arith.and_, "andtmp")
arith_of BinOp.bit_or = some (Arith.or_, "ortmp")
arith_of BinOp.bit_xor = some (Arith.xor, "xortmp")
arith_of BinOp.l_shift = some (Arith.shl, "shltmp")
arith_of BinOp.r_shift = some (Arith.lshr, "lshrtmp")
arith_of BinOp.mod_op = some (Arith.srem, "sremtmp")
arith_of BinOp.other_op = none

-- the predicate of `icmp_signed`, and the name of its result
unfoldable pub predicate_of : CmpOp → Option (String × String)
predicate_of CmpOp.eq = some ("==", "eqtmp")
predicate_of CmpOp.not_eq = some ("!=", "netmp")
predicate_of CmpOp.lt = some ("<", "lttmp")
predicate_of CmpOp.lt_e = some ("<=", "letmp")
predicate_of CmpOp.gt = some (">", "gttmp")
predicate_of CmpOp.gt_e = some (">=", "getmp")
predicate_of CmpOp.other_cmp = none

-- the fields of a class, none for an unknown one
abbrev pub layout_of : String → Dict (Dict (ℕ × LlType)) → Dict (ℕ × LlType)
layout_of c d = elim (lookup c d) [ none ↦ [] | some l ↦ l ]

module _ (L : Llvm) where
  -- `_name_counter += 1`, and a global of that number
  unfoldable pub new_numbered_global : String → LlType → M Obj
  new_numbered_global prefix t = do
    modify (λ s. record s { name_counter = s.name_counter + 1 })
    n ← gets (λ s. s.name_counter)
    emit L (ApiCall.new_global t (numbered prefix n))

  -- such a global, private and with its initializer
  unfoldable pub new_private_global : String → LlType → Initial → M Obj
  new_private_global prefix t init = do
    g ← new_numbered_global prefix t
    emit L (ApiCall.set_linkage g "private")
    emit L (ApiCall.set_initializer g (constant t init))
    pure g

  -- `visit_Constant`. The length of a text is its number of characters.
  unfoldable pub visit_constant : Literal → M Obj
  visit_constant (int_lit n) = do t ← type_item "int"; pure (constant t (nat_val n))
  visit_constant (bool_lit b) = do t ← type_item "int"; pure (constant t (bool_val b))
  visit_constant (str_lit v) = do
    g ← new_private_global ".str." (array_type (int_type 8) (count v + 1)) (c_string v)
    emit L (ApiCall.global_gep g (field_indices 0))
  visit_constant (bytes_lit v) = do
    g ← new_private_global ".bytes." (array_type (int_type 8) (length v)) (byte_vals v)
    emit L (ApiCall.set_constant g)
    emit L (ApiCall.global_gep g (field_indices 0))
  visit_constant _ = pure py_none

  -- the value of a local variable: an array stays a pointer, anything else is loaded
  unfoldable pub load_local : String → Obj → M Obj
  load_local id alloc = do
    t ← type_of L alloc
    branch (is_array_pointer t) (pure alloc) (instr L (Instr.load alloc id))

  -- `visit_Name`, by what the three scopes hold
  unfoldable pub resolve : String → Option Obj → Option Obj → Option LlType → M Obj
  resolve id (some alloc) _ _ = load_local id alloc
  resolve id none (some g) _ = pure g
  resolve id none none (some t) = pure (type_obj t)
  resolve id none none none = raise name_error

  unfoldable pub visit_name : String → M Obj
  visit_name id = do
    locals ← gets (λ s. s.local_scope)
    globals ← gets (λ s. s.global_scope)
    types ← gets (λ s. s.types)
    resolve id (lookup id locals) (lookup id globals) (lookup id types)

  -- `visit_BinOp`, after both operands
  unfoldable pub binary : BinOp → Obj → Obj → M Obj
  binary op lhs rhs = do
    (f, label) ← or_raise not_implemented (arith_of op)
    instr L (Instr.arith_op f lhs rhs label)

  -- `visit_UnaryOp`, after the operand
  unfoldable pub unary : UnaryOp → Obj → M Obj
  unary UnaryOp.invert operand = do
    t ← type_of L operand
    instr L (Instr.arith_op Arith.xor operand (constant t minus_one) "nottmp")
  unary UnaryOp.u_sub operand = do
    t ← type_of L operand
    instr L (Instr.arith_op Arith.sub (constant t (nat_val 0)) operand "negtmp")
  unary UnaryOp.u_add operand = pure operand
  unary UnaryOp.not_op operand = raise not_implemented

  -- `visit_Compare`, after both operands
  unfoldable pub comparison : CmpOp → Obj → Obj → M Obj
  comparison op lhs rhs = do
    (p, label) ← or_raise not_implemented (predicate_of op)
    instr L (Instr.icmp_signed p lhs rhs label)

  -- the field access of `visit_Attribute`
  unfoldable pub load_field : Obj → String → Option (ℕ × LlType) → M Obj
  load_field ptr attr none = raise name_error
  load_field ptr attr (some (idx, _)) = do
    p ← instr L (Instr.gep ptr (field_indices idx) true (concat attr ".ptr"))
    instr L (Instr.load p attr)

  -- the two lookups of `visit_Attribute`, a method first
  unfoldable pub method_or_field : Obj → String → Option Obj → Option (ℕ × LlType) → M Obj
  method_or_field ptr attr (some f) field = pure (method ptr f)
  method_or_field ptr attr none field = load_field ptr attr field

  -- `visit_Attribute`, after the object
  unfoldable pub attribute_of : Obj → String → M Obj
  attribute_of ptr attr = do
    t ← type_of L ptr
    class_name ← or_raise attribute_error (pointee_name t)
    globals ← gets (λ s. s.global_scope)
    layouts ← gets (λ s. s.class_layouts)
    method_or_field ptr attr (lookup (mangle class_name attr) globals)
        (lookup attr (layout_of class_name layouts))

  -- `_subscript_ptr`, after the pointer and the index; `visit_Subscript` begins so too
  unfoldable pub element_ptr : Obj → Obj → M Obj
  element_ptr ptr idx = do
    t ← type_of L ptr
    let zero64 = constant (int_type 64) (nat_val 0)
    branch (is_array_pointer t) (instr L (Instr.gep ptr (zero64 ∷ idx ∷ []) true "addr"))
        (instr L (Instr.gep ptr (idx ∷ []) true "addr"))

  -- the loop over `raw_args`, from parameter i + 1 of `__init__`
  unfoldable pub coerce_args : List LlType → ℕ → List Obj → M (List Obj)
  coerce_args params i [] = pure []
  coerce_args params i (arg ∷ args) = do
    expected ← or_raise index_error (get_elem? params (i + 1))
    a ← coerce_arg L arg expected
    rest ← coerce_args params (i + 1) args
    pure (a ∷ rest)

  -- the call of `__init__`, where the class has one
  unfoldable pub call_init : Obj → Option Obj → M (List Obj) → M Obj
  call_init obj none args = pure obj
  call_init obj (some init) args = do
    raw_args ← args
    known ← gets (λ s. L.param_types s.log init)
    params ← or_raise attribute_error known
    coerced ← coerce_args params 0 raw_args
    instr L (Instr.call init (obj ∷ coerced) "")
    pure obj

  -- the branch of `visit_Call` for a class
  unfoldable pub construct : LlType → String → M (List Obj) → M Obj
  construct t class_name args = do
    obj ← allocate L t "size" "arena_call" "obj_ptr"
    globals ← gets (λ s. s.global_scope)
    call_init obj (lookup (mangle class_name "__init__") globals) args

  -- `visit_Call`, after the callee
  unfoldable pub call_of : Obj → M (List Obj) → M Obj
  call_of (method obj f) args = do vs ← args; instr L (Instr.call f (obj ∷ vs) "calltmp")
  call_of (type_obj (pointer_type (identified_type n))) args =
      construct (pointer_type (identified_type n)) n args
  call_of callee args = do vs ← args; instr L (Instr.call callee vs "calltmp")

  -- `visit` of an expression, and of the elements of a list in order
  unfoldable mutual
    pub visit_expr : Expr → M Obj
    visit_expr (Expr.constant v) = visit_constant v
    visit_expr (Expr.name id) = visit_name id
    visit_expr (Expr.bin_op op l r) = do lhs ← visit_expr l; rhs ← visit_expr r; binary op lhs rhs
    visit_expr (Expr.unary_op op e) = do operand ← visit_expr e; unary op operand
    visit_expr (Expr.compare l op r) = do
      lhs ← visit_expr l
      rhs ← visit_expr r
      comparison op lhs rhs
    visit_expr (Expr.compare_chain l rs) = do visit_expr l; raise not_implemented
    visit_expr (Expr.attribute e attr) = do ptr ← visit_expr e; attribute_of ptr attr
    visit_expr (Expr.subscript e i) = do
      ptr ← visit_expr e
      idx ← visit_expr i
      addr ← element_ptr ptr idx
      instr L (Instr.load addr "val")
    visit_expr (Expr.index e) = visit_expr e
    visit_expr (Expr.call f args) = do callee ← visit_expr f; call_of callee (visit_exprs args)
    visit_expr (Expr.tuple es) = do visit_exprs es; pure py_none
    visit_expr (Expr.generic es) = do visit_exprs es; pure py_none

    pub visit_exprs : Exprs → M (List Obj)
    visit_exprs nil = pure []
    visit_exprs (cons e es) = do v ← visit_expr e; vs ← visit_exprs es; pure (v ∷ vs)
