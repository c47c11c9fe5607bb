-- ===== src/Compiler/Types.antt =====
-- compiler.py: `_get_type` and `_is_str_type`.
use lambpie.Common.{ℕ, String, Bool, false, Option, none, some, if◌then◌else◌, ◌==◌}
use lambpie.Common.Dict.{insert, contains}
use lambpie.Ast.{
  int_lit, bool_lit, none_lit, Expr, constant, name, subscript, index, tuple, Exprs, cons, nil,
}
use lambpie.Llvm.{LlType, pointer_type, array_type, identified_type}
use lambpie.Compiler.Monad.{
  branch, M, ◌>>=◌, ◌>>◌, pure, raise, gets, modify, type_item, type_error,
}

-- the branch for a class that has a layout and no entry in `types`
unfoldable pub register_pointer : String → M LlType
register_pointer id = do
  let t = pointer_type (identified_type id)
  modify (λ s. record s { types = insert id t s.types })
  pure t

-- the branch of `_get_type` for a name
unfoldable pub named_type : String → M LlType
named_type id = do
  types ← gets (λ s. s.types)
  layouts ← gets (λ s. s.class_layouts)
  branch (id == "bytes") (type_item "__ptr__") (
      branch (contains id types) (type_item id)
        (branch (contains id layouts) (register_pointer id) (raise type_error)))

-- the N of array[T, N], an integer literal (`True` is an instance of `int` too)
unfoldable pub array_count : Expr → M ℕ
array_count (constant (int_lit n)) = pure n
array_count (constant (bool_lit b)) = pure (if b then 1 else 0)
array_count _ = raise type_error

-- The branch for a subscript, given what its slice is as a type and as `T, N`.
unfoldable pub subscript_type : Expr → M LlType → M LlType → M LlType
subscript_type (name head) inner array =
    branch (head == "ptr") (do t ← inner; pure (pointer_type t))
      (branch (head == "array") array (raise type_error))
subscript_type _ inner array = raise type_error

unfoldable mutual
  pub get_type : Expr → M LlType
  get_type (name id) = named_type id
  get_type (constant none_lit) = type_item "None"
  get_type (subscript head slice) = subscript_type head (get_type slice) (array_slice slice)
  get_type (index value) = get_type value
  get_type _ = raise type_error

  -- the slice of `array[...]`: a tuple, in Python 3.8 inside an `ast.Index`
  pub array_slice : Expr → M LlType
  array_slice (tuple elts) = array_of elts
  array_slice (index value) = array_index value
  array_slice _ = raise type_error

  pub array_index : Expr → M LlType
  array_index (tuple elts) = array_of elts
  array_index _ = raise type_error

  pub array_of : Exprs → M LlType
  array_of (cons elem (cons count nil)) = do
    t ← get_type elem
    n ← array_count count
    pure (array_type t n)
  array_of _ = raise type_error

-- An annotation that may be missing: `ast.dump(None)` raises a TypeError too.
unfoldable pub get_annotation : Option Expr → M LlType
get_annotation none = raise type_error
get_annotation (some a) = get_type a

-- `_is_str_type`
unfoldable pub is_str_type : LlType → Bool
is_str_type (pointer_type (identified_type n)) = n == "str"
is_str_type _ = false
