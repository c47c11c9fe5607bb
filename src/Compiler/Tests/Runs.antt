-- ===== src/Compiler/Tests/Runs.antt =====
-- The compilation of echo.pie, evaluated.
use lambpie.Common.{ℕ, ◌≡◌, refl, length}
use lambpie.Common.Dict.{lookup, insert, contains}
use lambpie.Ast.{Stmts}
use lambpie.Compiler.Monad.{
  Result, ok, err, State, ◌>>=◌, ◌>>◌, type_item, global_item, emit, instr, block_terminated,
  type_of,
}
use lambpie.Compiler.Types.{
  register_pointer, named_type, array_count, subscript_type, get_type, get_annotation, is_str_type,
}
use lambpie.Compiler.Objects.{is_i8_ptr, allocate, store_field, wrap_cstr_to_str, coerce_arg}
use lambpie.Compiler.Expr.{
  pointee_name, is_array_pointer, arith_of, predicate_of, new_numbered_global, new_private_global,
  visit_constant, load_local, resolve, visit_name, binary, unary, comparison, load_field,
  method_or_field, attribute_of, element_ptr, coerce_args, call_init, construct, call_of,
  visit_expr,
}
use lambpie.Compiler.Class.{
  insert_field, sort_fields, declared, fields_of, target_id, add_attribute, class_fields, has_init,
  set_global, enter_function, store_args, generate_auto_init, declare_class,
}
use lambpie.Compiler.Stmt.{
  is_void, is_array, c_signature, without_self, param_types, self_types, arg_names, qualified,
  body_arena, set_local, current_function, declare_c, import_names, visit_import_from, bind_args,
  close_function, compile_function, visit_function, initialise, visit_ann_assign, visit_assign,
  visit_return, branch_if_open, arm, visit_if, visit_if_else, visit_while, visit_stmt,
}
use lambpie.Compiler.Entry.Init.{declare, init, blank}
use lambpie.Compiler.Entry.Module.{
  is_main_test, is_main_block, defer_init, visit_top, visit_module, combine,
}
use lambpie.Compiler.Entry.Json.{
  ll_eq, allocate_req, key_global, read_str, read_int, read_field, read_fields, write_str_field,
  write_int_field, write_field, write_fields,
}
use lambpie.Compiler.Entry.Lambda.{
  event_annotation, entry_types, class_layout, start_scope, declare_json, visit_each, emit_init,
  emit_handler, declare_handle, handle_code, emit_handle, synthesize, synthesize_lambda_entry,
  compile,
}
use lambpie.Compiler.Tests.Standin.{
  standin, type_in, types_of, position, mem, param_types as standin_param_types,
}
use lambpie.Compiler.Tests.Programs.{builtins, echo_classes}

-- Opens everything that a run calls.
unfoldable pub actions : Result (Unit {0}) → Unit {0}
unfolding ◌>>=◌ type_item global_item emit instr block_terminated type_of lookup insert contains
    register_pointer named_type array_count subscript_type get_type get_annotation is_str_type
    is_i8_ptr allocate store_field wrap_cstr_to_str coerce_arg
actions r = tt

unfoldable pub expressions : Unit {0}
unfolding actions pointee_name is_array_pointer arith_of predicate_of new_numbered_global
    new_private_global visit_constant load_local resolve visit_name binary unary comparison
    load_field method_or_field attribute_of element_ptr coerce_args call_init construct call_of
    visit_expr
expressions = tt

unfoldable pub statements : Unit {0}
unfolding expressions insert_field sort_fields declared fields_of target_id add_attribute
    class_fields has_init set_global enter_function store_args generate_auto_init declare_class
    is_void is_array c_signature without_self param_types self_types arg_names qualified body_arena
    set_local current_function declare_c import_names visit_import_from bind_args close_function
    compile_function visit_function initialise visit_ann_assign visit_assign visit_return
    branch_if_open arm visit_if visit_if_else visit_while visit_stmt
statements = tt

unfoldable pub everything : Unit {0}
unfolding statements declare init is_main_test is_main_block defer_init visit_top visit_module
    combine ll_eq allocate_req key_global read_str read_int read_field read_fields write_str_field
    write_int_field write_field write_fields event_annotation entry_types class_layout start_scope
    declare_json visit_each emit_init emit_handler emit_handle declare_handle handle_code synthesize
    synthesize_lambda_entry compile standin_param_types type_in types_of position mem
everything = tt

abbrev pub run : Stmts → Result (Unit {0} × State)
run tree = (init standin >> compile standin (combine builtins tree)) blank

pub calls : Result (Unit {0} × State) → ℕ
calls (ok (_, s)) = length s.log
calls (err e) = 0

echo_compiles : calls (run echo_classes) ≡ 201
unfolding calls everything
echo_compiles = refl

-- the state that a run leaves
abbrev pub final : Result (Unit {0} × State) → State
final (ok (_, s)) = s
final (err e) = blank

abbrev pub fresh : State
fresh = final (init standin blank)
