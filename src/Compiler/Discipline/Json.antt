-- ===== src/Compiler/Discipline/Json.antt =====
-- The discipline of the JSON code of `lambpie_handle`: its allocations have the request tag.
use lambpie.Common.{String, List, [], ◌∷◌, refl}
use lambpie.Llvm.{LlType, Obj, Log, Llvm}
use lambpie.Compiler.Monad.{Layout}
use lambpie.Compiler.Class.{Field}
use lambpie.Compiler.Stmt.{arena_req}
use lambpie.Compiler.Entry.Json.{
  Handler, allocate_req, key_global, read_str, read_int, read_field, read_fields, write_str_field,
  write_int_field, write_field, write_fields,
}
use lambpie.Compiler.Entry.Lambda.{emit_handler}
use lambpie.Compiler.Hoare.{Keeps, Any, Keeps-pure, Keeps-bind}
use lambpie.Compiler.Discipline.Inv.{Inv, IsValue, TagIs-value, instr-Inv, global_item-Inv}
use lambpie.Compiler.Discipline.Objects.{steps, store_field-Inv}
use lambpie.Compiler.Discipline.Expr.{new_private_global-Inv}

-- the pointers to the event and to the response are no i32 constants
abbrev pub HasValues : Handler → Type 0
HasValues h = IsValue h.event_ptr × IsValue h.response_ptr

module _ (L : Llvm) {old : Log} where
  allocate_req-Inv :
      (h : Handler) (t : LlType) (a b c : String)
      → Keeps (Inv arena_req old) IsValue (allocate_req L h t a b c)
  unfolding allocate_req
  allocate_req-Inv h t a b c = Keeps-bind (instr-Inv L _ tt) λ _ _.
      Keeps-bind (instr-Inv L _ tt)
        λ _ _. Keeps-bind (instr-Inv L _ (λ _. refl)) λ _ _. instr-Inv L _ tt

  key_global-Inv : (n : String) → Keeps (Inv arena_req old) IsValue (key_global L n)
  unfolding key_global
  key_global-Inv n = search (steps, new_private_global-Inv)

  module _ (h : Handler) (ok : HasValues h) where
    read_str-Inv : (k f : Obj) (n : String) → Keeps (Inv arena_req old) Any (read_str L h k f n)
    unfolding read_str
    read_str-Inv k f n = Keeps-bind (instr-Inv L _ tt) λ _ _.
        Keeps-bind (instr-Inv L _ (TagIs-value _ _ _ ok.0))
          λ _ _. search (steps, allocate_req-Inv, store_field-Inv) depth 24

    read_int-Inv : (k f : Obj) (n : String) → Keeps (Inv arena_req old) Any (read_int L h k f n)
    unfolding read_int
    read_int-Inv k f n = Keeps-bind (instr-Inv L _ (TagIs-value _ _ _ ok.0)) λ _ _. search steps

    read_field-Inv : (e : Obj) (fd : Field) → Keeps (Inv arena_req old) Any (read_field L h e fd)
    unfolding read_field
    read_field-Inv e (n, (i, t)) =
        search (steps, key_global-Inv, read_str-Inv, read_int-Inv) depth 10

    read_fields-Inv :
        (e : Obj) (fs : List Field) → Keeps (Inv arena_req old) Any (read_fields L h e fs)
    unfolding read_fields
    read_fields-Inv e [] = Keeps-pure _ tt
    read_fields-Inv e (fd ∷ fs) = Keeps-bind (read_field-Inv e fd) λ _ _. read_fields-Inv e fs

    write_str_field-Inv :
        (r k p : Obj) (fd : Field)
        → Keeps (Inv arena_req old) IsValue (write_str_field L h r k p fd)
    unfolding write_str_field
    write_str_field-Inv r k p (n, (i, t)) = search (steps, TagIs-value, ok.1) depth 24

    write_int_field-Inv :
        (r k p : Obj) (fd : Field)
        → Keeps (Inv arena_req old) IsValue (write_int_field L h r k p fd)
    unfolding write_int_field
    write_int_field-Inv r k p (n, (i, t)) = search (steps, TagIs-value, ok.1) depth 12

    write_field-Inv :
        (r p : Obj) (fd : Field) → Keeps (Inv arena_req old) IsValue (write_field L h r p fd)
    unfolding write_field
    write_field-Inv r p (n, (i, t)) =
        search (steps, key_global-Inv, write_str_field-Inv, write_int_field-Inv) depth 10

    write_fields-Inv :
        (r p : Obj) (fs : List Field)
        → IsValue p
        → Keeps (Inv arena_req old) IsValue (write_fields L h r p fs)
    unfolding write_fields
    write_fields-Inv r p [] v = Keeps-pure _ v
    write_fields-Inv r p (fd ∷ fs) v =
        Keeps-bind (write_field-Inv r p fd) λ q hq. write_fields-Inv r q fs hq

    pub emit_handler-Inv :
        (t : LlType) (a b : Layout) → Keeps (Inv arena_req old) Any (emit_handler L h t a b)
    unfolding emit_handler
    emit_handler-Inv t a b = Keeps-bind (allocate_req-Inv h t _ _ _) λ e he.
        Keeps-bind (store_field-Inv L _ _ _ _) λ _ _. Keeps-bind (read_fields-Inv e _) λ _ _.
          Keeps-bind (global_item-Inv "handle") λ u _.
            Keeps-bind (instr-Inv L _ (TagIs-value _ e _ he)) λ r _.
              Keeps-bind (instr-Inv L _ (TagIs-value _ _ _ ok.1)) λ p hp.
                Keeps-bind (write_fields-Inv r p _ hp) λ q _.
                  Keeps-bind (instr-Inv L _ (TagIs-value _ _ _ ok.1))
                    λ z _. Keeps-bind (instr-Inv L _ tt) λ _ _. Keeps-pure _ tt
