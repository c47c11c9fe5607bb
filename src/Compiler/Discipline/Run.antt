-- ===== src/Compiler/Discipline/Run.antt =====
-- A run of `compile`: its steps, and the arenas that the llvmlite calls of each ask for.
use lambpie.Common.{ℕ, String, true, none, some, [], ◌≡◌, ◌==◌}
use lambpie.Ast.{Signature, Stmts}
use lambpie.Llvm.{LlType, Llvm, Obj}
use lambpie.Compiler.Monad.{type_item, ok, State, Layout}
use lambpie.Compiler.Stmt.{arena_static, arena_req, visit_function, visit_stmts}
use lambpie.Compiler.Entry.Lambda.{
  declare_handle, handle_code, emit_init, entry_types, class_layout, declare_json,
}
use lambpie.Compiler.Entry.Json.{JsonApi}
use lambpie.Compiler.Entry.Module.{visit_module}
use lambpie.Compiler.Discipline.Inv.{CallTagIs, Emitted}
use lambpie.Compiler.Discipline.Functions.{IsSound}

-- the state behind `start_scope`
abbrev pub opened : State → ℕ → State
opened s arena = record s { local_scope = []; current_arena = arena }

-- The lookups of `_synthesize_lambda_entry` from `start` to `s`: the names of the event and the
-- response types, their layouts and types, and the pointer and the int type.
pub record LookedUp (sig : Signature) (p i event_type : LlType)
    (event_layout response_layout : Layout) (start s : State) : Type 0 where
  pub names : String × String
  pub response_type : LlType
  pub annotated : State
  pub event_found : State
  pub response_found : State
  pub event_typed : State
  pub response_typed : State
  pub pointer_typed : State
  pub annotations : entry_types sig start ≡ ok (names, annotated)
  pub event_layout_is : class_layout names.0 annotated ≡ ok (event_layout, event_found)
  pub response_layout_is : class_layout names.1 event_found ≡ ok (response_layout, response_found)
  pub event_type_is : type_item names.0 response_found ≡ ok (event_type, event_typed)
  pub response_type_is : type_item names.1 event_typed ≡ ok (response_type, response_typed)
  pub pointer_is : type_item "__ptr__" response_typed ≡ ok (p, pointer_typed)
  pub int_is : type_item "int" pointer_typed ≡ ok (i, s)

-- A run of `compile` from `start` to `s`, step by step, and the arenas that each step asks for.
pub record Plan (L : Llvm) (tree : Stmts) (start s : State) : Type 0 where
  pub sig : Signature
  pub body : Stmts
  pub p : LlType
  pub i : LlType
  pub event_type : LlType
  pub event_layout : Layout
  pub response_layout : Layout
  pub api : JsonApi
  pub f : Obj
  -- the states behind `visit_Module`, the lookups, `handle`, the JSON functions, `lambpie_init` and
  -- the declaration of `lambpie_handle`
  pub visited : State
  pub looked_up : State
  pub handled : State
  pub declared : State
  pub initialised : State
  pub entered : State
  pub module_run : visit_module L tree start ≡ ok (tt, visited)
  pub handler : visited.handle_node ≡ some (sig, body)
  pub named : (sig.name == "handle") ≡ true
  pub lookup_run : LookedUp sig p i event_type event_layout response_layout visited looked_up
  pub handle_run : visit_function L none sig (visit_stmts L body) looked_up ≡ ok (tt, handled)
  pub json_run : declare_json L p i handled ≡ ok (api, declared)
  pub init_run : emit_init L declared ≡ ok (tt, initialised)
  pub declare_run : declare_handle L p i initialised ≡ ok (f, entered)
  pub entry_run :
      handle_code L f api i event_type event_layout response_layout (opened entered arena_req)
      ≡ ok (tt, s)
  pub module_static : Emitted start.log visited (CallTagIs arena_static)
  pub lookup_static : Emitted visited.log looked_up (CallTagIs arena_static)
  pub handle_req : Emitted looked_up.log handled (CallTagIs arena_req)
  pub json_static : Emitted handled.log declared (CallTagIs arena_static)
  pub init_static : Emitted declared.log initialised (CallTagIs arena_static)
  pub declare_static : Emitted initialised.log entered (CallTagIs arena_static)
  pub entry_req : Emitted entered.log s (CallTagIs arena_req)
  pub sound : IsSound s
