-- ===== src/Compiler/Entry/Metadata.antt =====
-- compiler.py: `get_metadata`.
use lambpie.Common.{String, Option, none, some, List, [], ◌∷◌, if◌then◌else◌, ◌==◌}
use lambpie.Common.Dict.{Dict}
use lambpie.Ast.{Expr, Param, Signature, Stmts}
use lambpie.Llvm.{LlType}
use lambpie.Compiler.Monad.{
  Layout, M, ◌>>=◌, pure, raise, gets, or_raise, item, type_item, attribute_error, index_error,
}
use lambpie.Compiler.Types.{is_str_type}
use lambpie.Compiler.Class.{target_id}
use lambpie.Compiler.Entry.Json.{ll_eq}

-- 'str', 'int' or `str(typ)`
pub data FieldKind : Type 0 where
  str_field int_field : FieldKind
  other_field : LlType → FieldKind

-- the metadata; its trigger is always "direct"
pub record Metadata : Type 0 where
  pub event_type : String
  pub response_type : String
  pub event_fields : Dict FieldKind
  pub response_fields : Dict FieldKind

unfoldable pub field_kind : LlType → LlType → FieldKind
field_kind i64 t =
    if is_str_type t then str_field else if ll_eq t i64 then int_field else other_field t

-- `_fields_dict`
unfoldable pub fields_dict : LlType → Layout → Dict FieldKind
fields_dict i64 [] = []
fields_dict i64 ((n, (_, t)) ∷ l) =
    if n == "__ref_count__" then fields_dict i64 l else (n, field_kind i64 t) ∷ fields_dict i64 l

-- `args.args[0].annotation.id`
unfoldable pub first_annotation : List Param → M Expr
first_annotation [] = raise index_error
first_annotation (p ∷ ps) = or_raise attribute_error p.annotation

unfoldable pub metadata_of : Option (Signature × Stmts) → M (Option Metadata)
metadata_of none = pure none
metadata_of (some (sig, _)) = do
  event ← first_annotation sig.args
  e ← target_id event
  returns ← or_raise attribute_error sig.returns
  r ← target_id returns
  layouts ← gets (λ s. s.class_layouts)
  event_layout ← item e layouts
  response_layout ← item r layouts
  i64 ← type_item "int"
  pure (
      some (record {
        event_type = e;
        response_type = r;
        event_fields = fields_dict i64 event_layout;
        response_fields = fields_dict i64 response_layout;
      }))

unfoldable pub get_metadata : M (Option Metadata)
get_metadata = do h ← gets (λ s. s.handle_node); metadata_of h
