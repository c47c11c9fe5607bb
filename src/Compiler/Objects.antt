-- ===== src/Compiler/Objects.antt =====
-- compiler.py: allocation of objects on the current arena, `_wrap_cstr_to_str` and `_coerce_arg`.
use lambpie.Common.{ℕ, String, Bool, true, false, List, [], ◌∷◌, eqb}
use lambpie.Llvm.{LlType, int_type, pointer_type, nat_val, null_val, Obj, constant, Instr, Llvm}
use lambpie.Compiler.Monad.{
  branch, M, ◌>>=◌, ◌>>◌, pure, gets, item, type_item, global_item, instr, type_of,
}
use lambpie.Compiler.Types.{is_str_type}

-- `ir.Constant(ir.IntType(32), n)`
abbrev pub i32 : ℕ → Obj
i32 n = constant (int_type 32) (nat_val n)

abbrev pub field_indices : ℕ → List Obj
field_indices i = i32 0 ∷ i32 i ∷ []

-- the test of `_coerce_arg` for an i8*
unfoldable pub is_i8_ptr : LlType → Bool
is_i8_ptr (pointer_type (int_type w)) = eqb w 8
is_i8_ptr _ = false

module _ (L : Llvm) where
  -- The size of the struct that `t` points to, and the arena's memory for it, as a `t`: the
  -- sequence that `_wrap_cstr_to_str` and `visit_Call` begin with.
  unfoldable pub allocate : LlType → String → String → String → M Obj
  allocate t size_name raw_name ptr_name = do
    size_ptr ← instr L (Instr.gep (constant t null_val) (i32 1 ∷ []) false "")
    i64 ← type_item "int"
    size ← instr L (Instr.ptrtoint size_ptr i64 size_name)
    arena_alloc ← global_item "lambpie_arena_alloc"
    arena ← gets (λ s. s.current_arena)
    raw ← instr L (Instr.call arena_alloc (i32 arena ∷ size ∷ []) raw_name)
    instr L (Instr.bitcast raw t ptr_name)

  -- `gep` to a field, and a store to it
  unfoldable pub store_field : Obj → ℕ → String → Obj → M Obj
  store_field ptr idx label value = do
    p ← instr L (Instr.gep ptr (field_indices idx) true label)
    instr L (Instr.store value p)

  -- `_wrap_cstr_to_str`
  unfoldable pub wrap_cstr_to_str : Obj → M Obj
  wrap_cstr_to_str cstr = do
    t ← type_item "str"
    str_ptr ← allocate t "str.size" "str.raw" "str.ptr"
    layouts ← gets (λ s. s.class_layouts)
    layout ← item "str" layouts
    (rc, _) ← item "__ref_count__" layout
    store_field str_ptr rc "str.rc.ptr" (i32 1)
    strlen ← global_item "strlen"
    len ← instr L (Instr.call strlen (cstr ∷ []) "str.len")
    (len_idx, _) ← item "len" layout
    store_field str_ptr len_idx "str.len.ptr" len
    (buf_idx, _) ← item "buffer" layout
    store_field str_ptr buf_idx "str.buf.ptr" cstr
    pure str_ptr

  -- `_coerce_arg`
  unfoldable pub coerce_arg : Obj → LlType → M Obj
  coerce_arg value expected =
      branch (is_str_type expected)
        (do t ← type_of L value; branch (is_i8_ptr t) (wrap_cstr_to_str value) (pure value))
        (pure value)
