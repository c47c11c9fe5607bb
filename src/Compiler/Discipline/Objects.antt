-- ===== src/Compiler/Discipline/Objects.antt =====
-- The discipline of types, of allocation and of `__init__` arguments.
use lambpie.Common.{List, All, none, some, ℕ, String, Option, ◌≡◌}
use lambpie.Common.Dict.{Dict}
use lambpie.Ast.{
  Expr, Exprs, constant, name, subscript, index, tuple, cons, nil, none_lit, int_lit, bool_lit,
}
use lambpie.Llvm.{pointer_type, LlType, Obj, Log, Llvm}
use lambpie.Compiler.Monad.{type_of, State, M, gets, or_raise, item, Error, ◌>>=◌}
use lambpie.Compiler.Types.{
  get_type, register_pointer, named_type, array_count, subscript_type, array_slice, array_index,
  array_of, get_annotation,
}
use lambpie.Compiler.Objects.{allocate, store_field, wrap_cstr_to_str, coerce_arg}
use lambpie.Compiler.Hoare.{
  Keeps, Any, Keeps-pure, Keeps-raise, Keeps-gets, Keeps-or_raise, Keeps-item, Keeps-bind,
  Keeps-modify, Keeps-branch,
}
use lambpie.Common.Dict.{All-insert}
use lambpie.Compiler.Discipline.Inv.{
  Inv, IsValue, IsNotI32, Values, NoI32, TagIs-value, emit-Inv, instr-Inv, type_item-Inv,
  global_item-Inv,
}

module _ {P : State → Type 0} {A : Type 0} where
  pub gets-Any : (f : State → A) → Keeps P Any (gets f)
  gets-Any f = Keeps-gets f (λ _ _. tt)

  pub or_raise-Any : (e : Error) (o : Option A) → Keeps P Any (or_raise e o)
  or_raise-Any e o = Keeps-or_raise e o (λ _ _. tt)

  pub item-Any : (k : String) (d : Dict A) → Keeps P Any (item k d)
  item-Any k d = Keeps-item k d (λ _ _. tt)

module _ {B : Type 0} {P : State → Type 0} {R : B → Type 0} where
  pub bind-value :
      (m : M Obj) (f : Obj → M B)
      → Keeps P IsValue m
      → ((a : Obj) → IsValue a → Keeps P R (f a))
      → Keeps P R (m >>= f)
  bind-value m f km kf = Keeps-bind km kf

  pub bind-type :
      (m : M LlType) (f : LlType → M B)
      → Keeps P IsNotI32 m
      → ((a : LlType) → IsNotI32 a → Keeps P R (f a))
      → Keeps P R (m >>= f)
  bind-type m f km kf = Keeps-bind km kf

  pub bind-values :
      (m : M (List Obj)) (f : List Obj → M B)
      → Keeps P (All IsValue) m
      → ((a : List Obj) → All IsValue a → Keeps P R (f a))
      → Keeps P R (m >>= f)
  bind-values m f km kf = Keeps-bind km kf

  pub bind-Any :
      {A : Type 0} (m : M A) (f : A → M B)
      → Keeps P Any m
      → ((a : A) → Keeps P R (f a))
      → Keeps P R (m >>= f)
  bind-Any m f km kf = Keeps-bind km (λ a _. kf a)

module _ {B : Type 0} {arena : ℕ} {old : Log} {R : B → Type 0} where
  pub bind-arena :
      (f : ℕ → M B)
      → ((a : ℕ) → a ≡ arena → Keeps (Inv arena old) R (f a))
      → Keeps (Inv arena old) R (gets (λ s. s.current_arena) >>= f)
  bind-arena f k = Keeps-bind (Keeps-gets {Q = λ a. a ≡ arena} _ (λ s h. h.arena_is)) k

pub ruleset steps = (
  Keeps-pure, Keeps-raise, bind-arena, bind-value, bind-type, bind-values, bind-Any, emit-Inv,
  Keeps-branch, gets-Any, or_raise-Any, item-Any, instr-Inv, type_item-Inv, global_item-Inv,
)

module _ {arena : ℕ} {old : Log} where
  pub register_pointer-Inv : (id : String) → Keeps (Inv arena old) IsNotI32 (register_pointer id)
  unfolding register_pointer
  register_pointer-Inv id =
      Keeps-bind
        (Keeps-modify _ (λ s h. record {
          arena_is = h.arena_is;
          deferred = h.deferred;
          handler = h.handler;
          tags = h.tags;
          numbers = h.numbers;
          globals = h.globals;
          locals = h.locals;
          types_ok = All-insert IsNotI32 id _ s.types tt h.types_ok;
        }))
        λ _ _. Keeps-pure _ tt

  pub named_type-Inv : (id : String) → Keeps (Inv arena old) IsNotI32 (named_type id)
  unfolding named_type
  named_type-Inv id = search (steps, register_pointer-Inv) depth 9

  pub array_count-Inv : (e : Expr) → Keeps (Inv arena old) Any (array_count e)
  unfolding array_count
  array_count-Inv (constant (int_lit n)) = Keeps-pure _ tt
  array_count-Inv (constant (bool_lit n)) = Keeps-pure _ tt
  array_count-Inv _ = Keeps-raise _

  pub subscript_type-Inv :
      (e : Expr) (m n : M LlType)
      → Keeps (Inv arena old) IsNotI32 m
      → Keeps (Inv arena old) IsNotI32 n
      → Keeps (Inv arena old) IsNotI32 (subscript_type e m n)
  unfolding subscript_type
  subscript_type-Inv (name head) m n km kn =
      Keeps-branch _ _ _ (λ _. Keeps-bind km λ t _. Keeps-pure (pointer_type t) tt)
        λ _. Keeps-branch _ _ _ (λ _. kn) λ _. Keeps-raise _
  subscript_type-Inv _ m n km kn = Keeps-raise _

mutual
  unfolding get_type

  get_type-Keeps : {arena : ℕ} {old : Log} (e : Expr) → Keeps (Inv arena old) IsNotI32 (get_type e)
  get_type-Keeps (name id) = named_type-Inv id
  get_type-Keeps (constant none_lit) = type_item-Inv "None"
  get_type-Keeps (subscript head slice) =
      subscript_type-Inv head _ _ (get_type-Keeps slice) (array_slice-Keeps slice)
  get_type-Keeps (index value) = get_type-Keeps value
  get_type-Keeps _ = Keeps-raise _

  array_slice-Keeps :
      {arena : ℕ} {old : Log} (e : Expr) → Keeps (Inv arena old) IsNotI32 (array_slice e)
  array_slice-Keeps (tuple elts) = array_of-Keeps elts
  array_slice-Keeps (index value) = array_index-Keeps value
  array_slice-Keeps _ = Keeps-raise _

  array_index-Keeps :
      {arena : ℕ} {old : Log} (e : Expr) → Keeps (Inv arena old) IsNotI32 (array_index e)
  array_index-Keeps (tuple elts) = array_of-Keeps elts
  array_index-Keeps _ = Keeps-raise _

  array_of-Keeps :
      {arena : ℕ} {old : Log} (es : Exprs) → Keeps (Inv arena old) IsNotI32 (array_of es)
  array_of-Keeps (cons elem (cons count nil)) =
      Keeps-bind (get_type-Keeps elem)
        λ t _. Keeps-bind (array_count-Inv count) λ c _. Keeps-pure _ tt
  array_of-Keeps _ = Keeps-raise _

pub get_type-Inv : {arena : ℕ} {old : Log} (e : Expr) → Keeps (Inv arena old) IsNotI32 (get_type e)
get_type-Inv e = get_type-Keeps e

pub get_annotation-Inv :
    {arena : ℕ} {old : Log} (o : Option Expr) → Keeps (Inv arena old) IsNotI32 (get_annotation o)
unfolding get_annotation
get_annotation-Inv none = Keeps-raise _
get_annotation-Inv (some e) = get_type-Inv e

module _ (L : Llvm) {arena : ℕ} {old : Log} where
  pub store_field-Inv :
      (p : Obj) (i : ℕ) (n : String) (v : Obj)
      → Keeps (Inv arena old) IsValue (store_field L p i n v)
  unfolding store_field
  store_field-Inv p i n v = Keeps-bind (instr-Inv L _ tt) λ _ _. instr-Inv L _ tt

  pub allocate-Inv :
      (t : LlType) (a b c : String) → Keeps (Inv arena old) IsValue (allocate L t a b c)
  unfolding allocate
  allocate-Inv t a b c = search steps depth 12

  pub wrap_cstr_to_str-Inv :
      (o : Obj) → IsValue o → Keeps (Inv arena old) IsValue (wrap_cstr_to_str L o)
  unfolding wrap_cstr_to_str
  wrap_cstr_to_str-Inv o h = search (steps, allocate-Inv, store_field-Inv, TagIs-value) depth 20

  pub type_of-Inv : (o : Obj) → Keeps (Inv arena old) Any (type_of L o)
  unfolding type_of
  type_of-Inv Obj.py_none = Keeps-raise _
  type_of-Inv (Obj.method o f) = Keeps-raise _
  type_of-Inv _ = search steps

  pub coerce_arg-Inv :
      (o : Obj) (t : LlType) → IsValue o → Keeps (Inv arena old) IsValue (coerce_arg L o t)
  unfolding coerce_arg
  coerce_arg-Inv o t h = search (steps, wrap_cstr_to_str-Inv, type_of-Inv) depth 12
