-- ===== src/Compiler/Entry/Json.antt =====
-- compiler.py: the code of `lambpie_handle` that reads the event from JSON and writes the response.
use lambpie.Common.{concat, ◌+◌, String, Bool, true, false, ◌&&◌, List, [], ◌∷◌, eqb, ◌==◌}
use Prim.Native.String.{count}
use lambpie.Llvm.{
  LlType, int_type, double_type, void_type, function_type, pointer_type, array_type,
  identified_type, nat_val, null_val, c_string, Obj, constant, Instr, ApiCall, Llvm,
}
use lambpie.Compiler.Monad.{
  branch, M, ◌>>=◌, ◌>>◌, pure, raise, gets, item, type_item, emit, instr, runtime_error,
}
use lambpie.Compiler.Types.{is_str_type}
use lambpie.Compiler.Objects.{i32, field_indices, store_field}
use lambpie.Compiler.Expr.{new_private_global}
use lambpie.Compiler.Class.{Field}
use lambpie.Compiler.Stmt.{arena_req}

-- `==` of LLVM types
unfoldable pub ll_eq : LlType → LlType → Bool
ll_eq (int_type m) (int_type n) = eqb m n
ll_eq double_type double_type = true
ll_eq void_type void_type = true
ll_eq function_type function_type = true
ll_eq (pointer_type t) (pointer_type u) = ll_eq t u
ll_eq (array_type t m) (array_type u n) = ll_eq t u && eqb m n
ll_eq (identified_type m) (identified_type n) = m == n
ll_eq _ _ = false

-- The functions of runtime/src/json.c, as declared in the module.
pub record JsonApi : Type 0 where
  pub get_str : Obj
  pub get_int : Obj
  pub open_object : Obj
  pub write_str : Obj
  pub write_int : Obj
  pub close_object : Obj

-- what the loops over the fields of the event and of the response have in scope
pub record Handler : Type 0 where
  pub api : JsonApi
  pub i64 : LlType
  pub arena_alloc : Obj
  pub event_ptr : Obj
  pub event_len : Obj
  pub response_ptr : Obj

-- `key_len`
abbrev pub key_length : LlType → String → Obj
key_length i64 n = constant i64 (nat_val (count n))

module _ (L : Llvm) where
  -- The sequence of `allocate` with the request tag: for the event, and for each text in it.
  unfoldable pub allocate_req : Handler → LlType → String → String → String → M Obj
  allocate_req h t size_name raw_name ptr_name = do
    size_ptr ← instr L (Instr.gep (constant t null_val) (i32 1 ∷ []) false "")
    size ← instr L (Instr.ptrtoint size_ptr h.i64 size_name)
    raw ← instr L (Instr.call h.arena_alloc (i32 arena_req ∷ size ∷ []) raw_name)
    instr L (Instr.bitcast raw t ptr_name)

  -- the global string of a field's key
  unfoldable pub key_global : String → M Obj
  key_global n = do
    g ← new_private_global L ".key." (array_type (int_type 8) (count n + 1)) (c_string n)
    emit L (ApiCall.global_gep g (field_indices 0))

  -- a `str` field of the event
  unfoldable pub read_str : Handler → Obj → Obj → String → M (Unit {0})
  read_str h key_ptr field_ptr n = do
    out_len ← instr L (Instr.alloca h.i64 (concat n ".len.out"))
    str_data ← instr L (
        Instr.call h.api.get_str
          (h.event_ptr ∷ h.event_len ∷ key_ptr ∷ key_length h.i64 n ∷ out_len ∷ [])
          (concat n ".data"))
    str_len ← instr L (Instr.load out_len (concat n ".len"))
    t ← type_item "str"
    str_struct ← allocate_req h t (concat n ".str.size") (concat n ".str.raw") (concat n ".str")
    layouts ← gets (λ s. s.class_layouts)
    layout ← item "str" layouts
    (rc, _) ← item "__ref_count__" layout
    store_field L str_struct rc "" (i32 1)
    (len_idx, _) ← item "len" layout
    store_field L str_struct len_idx "" str_len
    (buf_idx, _) ← item "buffer" layout
    store_field L str_struct buf_idx "" str_data
    instr L (Instr.store str_struct field_ptr)
    pure tt

  -- an `int` field of the event
  unfoldable pub read_int : Handler → Obj → Obj → String → M (Unit {0})
  read_int h key_ptr field_ptr n = do
    v ← instr L (
        Instr.call h.api.get_int (h.event_ptr ∷ h.event_len ∷ key_ptr ∷ key_length h.i64 n ∷ [])
          (concat n ".val"))
    instr L (Instr.store v field_ptr)
    pure tt

  -- the body of the loop over `event_fields`
  unfoldable pub read_field : Handler → Obj → Field → M (Unit {0})
  read_field h event (n, (idx, t)) = do
    key_ptr ← key_global n
    field_ptr ←
        instr L (Instr.gep event (field_indices idx) true (concat "event." (concat n ".ptr")))
    branch (is_str_type t) (read_str h key_ptr field_ptr n)
        (branch (ll_eq t h.i64) (read_int h key_ptr field_ptr n) (raise runtime_error))

  unfoldable pub read_fields : Handler → Obj → List Field → M (Unit {0})
  read_fields h event [] = pure tt
  read_fields h event (f ∷ fs) = do read_field h event f; read_fields h event fs

  -- a `str` field of the response; the result is the new position
  unfoldable pub write_str_field : Handler → Obj → Obj → Obj → Field → M Obj
  write_str_field h response key_ptr pos (n, (idx, _)) = do
    let label = concat "resp." n
    p ← instr L (Instr.gep response (field_indices idx) true (concat label ".ptr"))
    str_struct ← instr L (Instr.load p label)
    layouts ← gets (λ s. s.class_layouts)
    layout ← item "str" layouts
    (buf_idx, _) ← item "buffer" layout
    buf_ptr ← instr L (Instr.gep str_struct (field_indices buf_idx) true (concat label ".buf.ptr"))
    buf ← instr L (Instr.load buf_ptr (concat label ".buf"))
    (len_idx, _) ← item "len" layout
    len_ptr ← instr L (Instr.gep str_struct (field_indices len_idx) true (concat label ".len.ptr"))
    len ← instr L (Instr.load len_ptr (concat label ".len"))
    instr L (
        Instr.call h.api.write_str
          (h.response_ptr ∷ pos ∷ key_ptr ∷ key_length h.i64 n ∷ buf ∷ len ∷ []) "pos")

  -- an `int` field of the response
  unfoldable pub write_int_field : Handler → Obj → Obj → Obj → Field → M Obj
  write_int_field h response key_ptr pos (n, (idx, _)) = do
    let label = concat "resp." n
    p ← instr L (Instr.gep response (field_indices idx) true (concat label ".ptr"))
    v ← instr L (Instr.load p label)
    instr L (
        Instr.call h.api.write_int (h.response_ptr ∷ pos ∷ key_ptr ∷ key_length h.i64 n ∷ v ∷ [])
          "pos")

  -- the body of the loop over `response_fields`
  unfoldable pub write_field : Handler → Obj → Obj → Field → M Obj
  write_field h response pos (n, (idx, t)) = do
    key_ptr ← key_global n
    branch (is_str_type t) (write_str_field h response key_ptr pos (n, (idx, t))) (
        branch (ll_eq t h.i64) (write_int_field h response key_ptr pos (n, (idx, t)))
          (raise runtime_error))

  unfoldable pub write_fields : Handler → Obj → Obj → List Field → M Obj
  write_fields h response pos [] = pure pos
  write_fields h response pos (f ∷ fs) = do
    pos ← write_field h response pos f
    write_fields h response pos fs
