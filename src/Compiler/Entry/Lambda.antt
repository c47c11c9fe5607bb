-- ===== src/Compiler/Entry/Lambda.antt =====
-- compiler.py: `_synthesize_lambda_entry` and `compile`.
use lambpie.Common.{ℕ, String, Option, none, some, List, [], ◌∷◌}
use lambpie.Common.Dict.{contains}
use lambpie.Ast.{Expr, Param, Signature, Stmt, Stmts}
use lambpie.Llvm.{
  Obj, LlType, void_type, pointer_type, nat_val, constant, argument, Instr, ApiCall, Llvm,
}
use lambpie.Compiler.Monad.{
  branch, or_raise, Layout, M, ◌>>=◌, ◌>>◌, pure, raise, gets, modify, item, type_item, global_item,
  emit, instr, runtime_error,
}
use lambpie.Compiler.Objects.{i32, store_field}
use lambpie.Compiler.Class.{fields_of, target_id, enter_function}
use lambpie.Compiler.Stmt.{
  arena_static, arena_req, close_function, visit_function, visit_stmt, visit_stmts,
}
use lambpie.Compiler.Entry.Init.{function}
use lambpie.Compiler.Entry.Module.{visit_module}
use lambpie.Compiler.Entry.Json.{JsonApi, Handler, allocate_req, read_fields, write_fields}

-- the annotation of the first parameter
unfoldable pub event_annotation : List Param → Option Expr
event_annotation [] = none
event_annotation (p ∷ ps) = p.annotation

-- The names of the event and the response types, with the checks of the annotations.
unfoldable pub entry_types : Signature → M (String × String)
entry_types sig = do
  event ← or_raise runtime_error (event_annotation sig.args)
  response ← or_raise runtime_error sig.returns
  e ← target_id event
  r ← target_id response
  pure (e, r)

-- the check that a type is a class of the module, and its layout
unfoldable pub class_layout : String → M Layout
class_layout c = do
  layouts ← gets (λ s. s.class_layouts)
  branch (contains c layouts) (item c layouts) (raise runtime_error)

-- `self.builder` at the entry of a new function, an empty scope and the arena of its code
unfoldable pub start_scope : ℕ → M (Unit {0})
start_scope arena = modify (λ s. record s { local_scope = []; current_arena = arena })

module _ (L : Llvm) where
  unfoldable pub declare_json : LlType → LlType → M JsonApi
  declare_json p i = do
    get_str ←
        emit L
          (ApiCall.new_function (function p (p ∷ i ∷ p ∷ i ∷ pointer_type i ∷ [])) "json_get_str")
    get_int ← emit L (ApiCall.new_function (function i (p ∷ i ∷ p ∷ i ∷ [])) "json_get_int")
    open_object ← emit L (ApiCall.new_function (function i (p ∷ i ∷ [])) "json_open")
    write_str ←
        emit L (ApiCall.new_function (function i (p ∷ i ∷ p ∷ i ∷ p ∷ i ∷ [])) "json_write_str")
    write_int ← emit L (ApiCall.new_function (function i (p ∷ i ∷ p ∷ i ∷ i ∷ [])) "json_write_int")
    close_object ← emit L (ApiCall.new_function (function i (p ∷ i ∷ [])) "json_close")
    pure (record {
      get_str = get_str;
      get_int = get_int;
      open_object = open_object;
      write_str = write_str;
      write_int = write_int;
      close_object = close_object;
    })

  unfoldable pub visit_each : List Stmt → M (Unit {0})
  visit_each [] = pure tt
  visit_each (st ∷ sts) = do visit_stmt L st; visit_each sts

  -- `lambpie_init`
  unfoldable pub emit_init : M (Unit {0})
  emit_init = do
    f ← emit L (ApiCall.new_function (function void_type []) "lambpie_init")
    enter_function L f
    start_scope arena_static
    stmts ← gets (λ s. s.init_stmts)
    visit_each stmts
    close_function L void_type

  -- the code of `lambpie_handle`: event, call of `handle`, response
  unfoldable pub emit_handler : Handler → LlType → Layout → Layout → M (Unit {0})
  emit_handler h event_type event_layout response_layout = do
    event ← allocate_req L h event_type "event.size" "event.raw" "event.struct"
    store_field L event 0 "event.rc.ptr" (i32 1)
    read_fields L h event (fields_of event_layout)
    user_handle ← global_item "handle"
    response ← instr L (Instr.call user_handle (event ∷ []) "response")
    pos ←
        instr L
          (Instr.call h.api.open_object (h.response_ptr ∷ constant h.i64 (nat_val 0) ∷ []) "pos")
    pos ← write_fields L h response pos (fields_of response_layout)
    pos ← instr L (Instr.call h.api.close_object (h.response_ptr ∷ pos ∷ []) "pos.final")
    instr L (Instr.ret pos)
    pure tt

  -- `lambpie_handle` up to its entry block
  unfoldable pub declare_handle : LlType → LlType → M Obj
  declare_handle p i = do
    f ← emit L (ApiCall.new_function (function i (p ∷ i ∷ p ∷ i ∷ [])) "lambpie_handle")
    emit L (ApiCall.set_name (argument f 0) "event_ptr")
    emit L (ApiCall.set_name (argument f 1) "event_len")
    emit L (ApiCall.set_name (argument f 2) "response_ptr")
    emit L (ApiCall.set_name (argument f 3) "response_cap")
    enter_function L f
    pure f

  -- its code
  unfoldable pub handle_code : Obj → JsonApi → LlType → LlType → Layout → Layout → M (Unit {0})
  handle_code f api i event_type event_layout response_layout = do
    arena_alloc ← global_item "lambpie_arena_alloc"
    emit_handler
        (record {
          api = api;
          i64 = i;
          arena_alloc = arena_alloc;
          event_ptr = argument f 0;
          event_len = argument f 1;
          response_ptr = argument f 2;
        })
        event_type event_layout response_layout

  -- `lambpie_handle`
  unfoldable pub emit_handle : JsonApi → LlType → LlType → LlType → Layout → Layout → M (Unit {0})
  emit_handle api p i event_type event_layout response_layout = do
    f ← declare_handle p i
    start_scope arena_req
    handle_code f api i event_type event_layout response_layout

  -- the part of `_synthesize_lambda_entry` behind the check for `handle`
  unfoldable pub synthesize : Signature → Stmts → M (Unit {0})
  synthesize sig body = do
    (event_name, response_name) ← entry_types sig
    event_layout ← class_layout event_name
    response_layout ← class_layout response_name
    event_type ← type_item event_name
    type_item response_name
    p ← type_item "__ptr__"
    i ← type_item "int"
    visit_function L none sig (visit_stmts L body)
    api ← declare_json p i
    emit_init
    emit_handle api p i event_type event_layout response_layout

  unfoldable pub synthesize_lambda_entry : Option (Signature × Stmts) → M (Unit {0})
  synthesize_lambda_entry none = raise runtime_error
  synthesize_lambda_entry (some (sig, body)) = synthesize sig body

  -- `compile`; the module is what the calls in the log made of it
  unfoldable pub compile : Stmts → M (Unit {0})
  compile tree = do visit_module L tree; h ← gets (λ s. s.handle_node); synthesize_lambda_entry h
