-- ===== src/Compiler/Discipline/Expr.antt =====
-- The discipline of expressions.
use lambpie.Common.{
  ℕ, suc, ◌+◌, ◌<◌, String, Option, none, some, List, [], ◌∷◌, ◌≡◌, ap, All, arith, Bool-cases, inl,
  inr,
}
use lambpie.Common.Dict.{Dict, lookup}
use lambpie.Ast.{
  Literal, int_lit, bool_lit, str_lit, bytes_lit, BinOp, UnaryOp, invert, u_sub, u_add, not_op,
  CmpOp, Expr, Exprs, nil, cons,
}
use lambpie.Llvm.{
  LlType, pointer_type, identified_type, Obj, method, type_obj, Initial, Log, ApiCall, Llvm,
}
use lambpie.Compiler.Monad.{M, gets, emit, modify, ◌>>=◌}
use lambpie.Compiler.Expr.{
  new_numbered_global, new_private_global, visit_constant, load_local, resolve, visit_name, binary,
  unary, comparison, load_field, method_or_field, attribute_of, element_ptr, coerce_args, call_init,
  construct, call_of, visit_expr, visit_exprs,
}
use lambpie.Compiler.Hoare.{Keeps, Keeps-pure, Keeps-raise, Keeps-gets, Keeps-bind}
use lambpie.Common.Dict.{All-lookup}
use lambpie.Compiler.Discipline.Inv.{
  Inv, IsValue, Values, NoI32, Descends, TagIs-value, TagIs-values,
}
use lambpie.Compiler.Discipline.Objects.{
  steps, or_raise-Any, allocate-Inv, coerce_arg-Inv, type_of-Inv,
}

Descends-mono : (a b : ℕ) (ns : List ℕ) → a < suc b → Descends a ns → Descends b ns
Descends-mono a b [] h d = tt
Descends-mono a b (n ∷ ns) h d = (omega arith, d.1)

-- a local or global, where there is one, is a value; a type is not i32
abbrev FoundValue : Option Obj → Type 0
FoundValue none = Unit
FoundValue (some o) = IsValue o

lookup-FoundValue : (k : String) (d : Dict Obj) → Values d → FoundValue (lookup k d)
lookup-FoundValue k d h = go (lookup k d) (λ o e. All-lookup IsValue k d o h e)
  where
    go : (r : Option Obj) → ((o : Obj) → r ≡ some o → IsValue o) → FoundValue r
    go none f = tt
    go (some o) f = f o (λ i. some o)

module _ (L : Llvm) {arena : ℕ} {old : Log} where
  new_numbered_global-Inv :
      (p : String) (t : LlType) → Keeps (Inv arena old) IsValue (new_numbered_global L p t)
  unfolding new_numbered_global emit gets modify ◌>>=◌
  new_numbered_global-Inv p t = record {
    at = λ s h.
        elim (Bool-cases
          (L.accepts s.log (ApiCall.new_global t (lambpie.Llvm.numbered p (s.name_counter + 1))))) [
            | inl good ↦ rw good (
              record {
                arena_is = h.arena_is;
                deferred = h.deferred;
                handler = h.handler;
                globals = h.globals;
                locals = h.locals;
                types_ok = h.types_ok;
                tags = (
                  ApiCall.new_global t (lambpie.Llvm.numbered p (s.name_counter + 1)) ∷ h.tags.0,
                  ap (λ l. ApiCall.new_global t (lambpie.Llvm.numbered p (s.name_counter + 1)) ∷ l)
                      h.tags.1,
                  (tt, h.tags.2),
                );
                numbers = (
                  omega arith,
                  Descends-mono (suc s.name_counter) (s.name_counter + 1) _ (omega arith) h.numbers,
                );
              },
              tt,
            )
            | inr bad ↦ rw bad tt
          ];
  }

  pub new_private_global-Inv :
      (p : String) (t : LlType) (i : Initial)
      → Keeps (Inv arena old) IsValue (new_private_global L p t i)
  unfolding new_private_global
  new_private_global-Inv p t i = search (steps, new_numbered_global-Inv) depth 12

  visit_constant-Inv : (v : Literal) → Keeps (Inv arena old) IsValue (visit_constant L v)
  unfolding visit_constant
  visit_constant-Inv (int_lit n) = search steps
  visit_constant-Inv (bool_lit b) = search steps
  visit_constant-Inv (str_lit v) = search (steps, new_private_global-Inv)
  visit_constant-Inv (bytes_lit v) = search (steps, new_private_global-Inv) depth 8
  visit_constant-Inv _ = search steps

  load_local-Inv :
      (k : String) (o : Obj) → IsValue o → Keeps (Inv arena old) IsValue (load_local L k o)
  unfolding load_local
  load_local-Inv k o h = search (steps, type_of-Inv) depth 8

  resolve-Inv :
      (k : String) (l g : Option Obj) (t : Option LlType)
      → FoundValue l
      → FoundValue g
      → Keeps (Inv arena old) IsValue (resolve L k l g t)
  unfolding resolve
  resolve-Inv k (some l) g t hl hg = load_local-Inv k l hl
  resolve-Inv k none (some g) t hl hg = Keeps-pure g hg
  resolve-Inv k none none (some t) hl hg = Keeps-pure _ tt
  resolve-Inv k none none none hl hg = Keeps-raise _

  visit_name-Inv : (k : String) → Keeps (Inv arena old) IsValue (visit_name L k)
  unfolding visit_name
  visit_name-Inv k = Keeps-bind (Keeps-gets {Q = Values} _ (λ s h. h.locals)) λ l hl.
      Keeps-bind (Keeps-gets {Q = Values} _ (λ s h. h.globals)) λ g hg.
        Keeps-bind (Keeps-gets {Q = NoI32} _ (λ s h. h.types_ok))
          λ t ht. resolve-Inv k _ _ _ (lookup-FoundValue k l hl) (lookup-FoundValue k g hg)

  binary-Inv : (op : BinOp) (a b : Obj) → Keeps (Inv arena old) IsValue (binary L op a b)
  unfolding binary
  binary-Inv op a b = search steps

  unary-Inv : (op : UnaryOp) (a : Obj) → IsValue a → Keeps (Inv arena old) IsValue (unary L op a)
  unfolding unary
  unary-Inv invert a h = search (steps, type_of-Inv)
  unary-Inv u_sub a h = search (steps, type_of-Inv)
  unary-Inv u_add a h = Keeps-pure a h
  unary-Inv not_op a h = Keeps-raise _

  comparison-Inv : (op : CmpOp) (a b : Obj) → Keeps (Inv arena old) IsValue (comparison L op a b)
  unfolding comparison
  comparison-Inv op a b = search steps

  load_field-Inv :
      (p : Obj) (k : String) (f : Option (ℕ × LlType))
      → Keeps (Inv arena old) IsValue (load_field L p k f)
  unfolding load_field
  load_field-Inv p k none = Keeps-raise _
  load_field-Inv p k (some f) = search steps

  method_or_field-Inv :
      (p : Obj) (k : String) (m : Option Obj) (f : Option (ℕ × LlType))
      → IsValue p
      → Keeps (Inv arena old) IsValue (method_or_field L p k m f)
  unfolding method_or_field
  method_or_field-Inv p k none f h = load_field-Inv p k f
  method_or_field-Inv p k (some m) f h = Keeps-pure _ h

  attribute_of-Inv :
      (p : Obj) (k : String) → IsValue p → Keeps (Inv arena old) IsValue (attribute_of L p k)
  unfolding attribute_of
  attribute_of-Inv p k h = search (steps, type_of-Inv, method_or_field-Inv) depth 12

  pub element_ptr-Inv : (p i : Obj) → Keeps (Inv arena old) IsValue (element_ptr L p i)
  unfolding element_ptr
  element_ptr-Inv p i = search (steps, type_of-Inv) depth 8

  coerce_args-Inv :
      (ts : List LlType) (i : ℕ) (args : List Obj)
      → All IsValue args
      → Keeps (Inv arena old) (All IsValue) (coerce_args L ts i args)
  unfolding coerce_args
  coerce_args-Inv ts i [] h = Keeps-pure _ tt
  coerce_args-Inv ts i (a ∷ args) h = Keeps-bind (or_raise-Any _ _) λ t _.
      Keeps-bind (coerce_arg-Inv L a t h.0)
        λ v hv. Keeps-bind (coerce_args-Inv ts (i + 1) args h.1) λ vs hvs. Keeps-pure _ (hv, hvs)

  call_init-Inv :
      (o : Obj) (f : Option Obj) (args : M (List Obj))
      → IsValue o
      → Keeps (Inv arena old) (All IsValue) args
      → Keeps (Inv arena old) IsValue (call_init L o f args)
  unfolding call_init
  call_init-Inv o none args h k = Keeps-pure o h
  call_init-Inv o (some f) args h k = search (steps, coerce_args-Inv, TagIs-value) depth 15

  construct-Inv :
      (t : LlType) (c : String) (args : M (List Obj))
      → Keeps (Inv arena old) (All IsValue) args
      → Keeps (Inv arena old) IsValue (construct L t c args)
  unfolding construct
  construct-Inv t c args k = search (steps, allocate-Inv, call_init-Inv) depth 12

  call_of-Inv :
      (f : Obj) (args : M (List Obj))
      → IsValue f
      → Keeps (Inv arena old) (All IsValue) args
      → Keeps (Inv arena old) IsValue (call_of L f args)
  unfolding call_of
  call_of-Inv (method o f) args h k = search (steps, TagIs-value) depth 8
  call_of-Inv (type_obj (pointer_type (identified_type n))) args h k = construct-Inv _ n args k
  call_of-Inv _ args h k = search (steps, TagIs-values) depth 8

  mutual
    unfolding visit_expr

    visit_expr-Keeps : (e : Expr) → Keeps (Inv arena old) IsValue (visit_expr L e)
    visit_expr-Keeps (Expr.constant v) = visit_constant-Inv v
    visit_expr-Keeps (Expr.name k) = visit_name-Inv k
    visit_expr-Keeps (Expr.bin_op op l r) =
        Keeps-bind (visit_expr-Keeps l)
          λ a ha. Keeps-bind (visit_expr-Keeps r) λ b hb. binary-Inv op a b
    visit_expr-Keeps (Expr.unary_op op e) =
        Keeps-bind (visit_expr-Keeps e) λ a ha. unary-Inv op a ha
    visit_expr-Keeps (Expr.compare l op r) =
        Keeps-bind (visit_expr-Keeps l)
          λ a ha. Keeps-bind (visit_expr-Keeps r) λ b hb. comparison-Inv op a b
    visit_expr-Keeps (Expr.compare_chain l rs) =
        Keeps-bind (visit_expr-Keeps l) λ a ha. Keeps-raise _
    visit_expr-Keeps (Expr.attribute e k) =
        Keeps-bind (visit_expr-Keeps e) λ a ha. attribute_of-Inv a k ha
    visit_expr-Keeps (Expr.subscript e i) =
        Keeps-bind (visit_expr-Keeps e)
          λ a ha. Keeps-bind (visit_expr-Keeps i) λ b hb. search (steps, element_ptr-Inv)
    visit_expr-Keeps (Expr.index e) = visit_expr-Keeps e
    visit_expr-Keeps (Expr.call f args) =
        Keeps-bind (visit_expr-Keeps f) λ a ha. call_of-Inv a _ ha (visit_exprs-Keeps args)
    visit_expr-Keeps (Expr.tuple es) = Keeps-bind (visit_exprs-Keeps es) λ vs _. Keeps-pure _ tt
    visit_expr-Keeps (Expr.generic es) = Keeps-bind (visit_exprs-Keeps es) λ vs _. Keeps-pure _ tt

    visit_exprs-Keeps : (es : Exprs) → Keeps (Inv arena old) (All IsValue) (visit_exprs L es)
    visit_exprs-Keeps nil = Keeps-pure _ tt
    visit_exprs-Keeps (cons e es) =
        Keeps-bind (visit_expr-Keeps e)
          λ v hv. Keeps-bind (visit_exprs-Keeps es) λ vs hvs. Keeps-pure _ (hv, hvs)

  -- Whatever the expression, its code asks for the current arena, and its value is no i32 constant.
  pub visit_expr-Inv : (e : Expr) → Keeps (Inv arena old) IsValue (visit_expr L e)
  visit_expr-Inv e = visit_expr-Keeps e

  pub visit_exprs-Inv : (es : Exprs) → Keeps (Inv arena old) (All IsValue) (visit_exprs L es)
  visit_exprs-Inv es = visit_exprs-Keeps es
