-- ===== src/Compiler/Layouts/Fields.antt =====
-- The layout that `visit_ClassDef` computes against the list of types that it passes to `set_body`.
use lambpie.Common.{
  ℕ, zero, suc, ◌<◌, ◌≡◌, ◌≢◌, refl, sym, ap, ◌∙◌, String, Bool-cases, ◌==◌, inl, inr, some, List,
  [], ◌∷◌, ◌++◌, All, length, length-append, get_elem?, arith,
}
use mathlib.Core.List.{reverse, reverse-cons}
use lambpie.Common.Dict.{insert, All-insert}
use lambpie.Ast.{ann_assign, Stmts, end, seq}
use lambpie.Llvm.{LlType}
use lambpie.Compiler.Monad.{Layout, State, M, Result, ok, err}
use lambpie.Compiler.Class.{Attributes, add_attribute, ref_count_only, class_fields}
use lambpie.Compiler.Hoare.{Keeps, Any, Ensures, Keeps-pure, Keeps-bind}

-- no two fields have one index
unfoldable pub Distinct : Layout → Type 0
Distinct [] = Unit
Distinct ((n, (i, t)) ∷ l) = All (λ e. i ≢ e.1.0) l × Distinct l

-- The index of each field of the layout is a place in the body of the struct, where the field's
-- type stands, and no two fields share one.
pub record IsLayout (l : Layout) (types : List LlType) : Type 0 where
  pub typed : All (λ e. get_elem? types e.1.0 ≡ some e.1.1) l
  pub distinct : Distinct l

-- The types are those of a body, the last field first.
pub record IsBody (a : Attributes) : Type 0 where
  pub counted : a.next ≡ length a.types
  pub layout_of : IsLayout a.layout (reverse a.types)

module _ {A : Type 0} where
  get_elem?-append :
      (xs ys : List A) (i : ℕ) (a : A) → get_elem? xs i ≡ some a → get_elem? (xs ++ ys) i ≡ some a
  get_elem?-append [] ys i a e = cc
  get_elem?-append (x ∷ xs) ys zero a e = e
  get_elem?-append (x ∷ xs) ys (suc i) a e = get_elem?-append xs ys i a e

  get_elem?-last : (xs : List A) (a : A) → get_elem? (xs ++ a ∷ []) (length xs) ≡ some a
  get_elem?-last [] a = refl
  get_elem?-last (x ∷ xs) a = get_elem?-last xs a

  get_elem?-bound : (xs : List A) (i : ℕ) (a : A) → get_elem? xs i ≡ some a → i < length xs
  get_elem?-bound [] i a e = cc
  get_elem?-bound (x ∷ xs) zero a e = omega arith
  get_elem?-bound (x ∷ xs) (suc i) a e = omega (arith, get_elem?-bound xs i a e)

  length-reverse : (xs : List A) → length (reverse xs) ≡ length xs
  length-reverse [] = refl
  length-reverse (x ∷ xs) =
      ap length (reverse-cons x xs)
      ∙ omega (arith, length-append (reverse xs) (x ∷ []), length-reverse xs)

  All-map : {P Q : A → Type 0} (xs : List A) → ((a : A) → P a → Q a) → All P xs → All Q xs
  All-map [] f h = tt
  All-map (x ∷ xs) f h = (f x h.0, All-map xs f h.1)

Distinct-insert :
    (k : String) (i : ℕ) (t : LlType) (l : Layout)
    → All (λ e. i ≢ e.1.0) l
    → Distinct l
    → Distinct (insert k (i, t) l)
unfolding Distinct insert
Distinct-insert k i t [] h d = (tt, tt)
Distinct-insert k i t ((n, (j, u)) ∷ l) h d = elim (Bool-cases (n == k)) [
  | inl hit ↦ rw hit (h.1, d.1)
  | inr miss ↦
      rw miss (
        All-insert (λ v. j ≢ v.0) k (i, t) l (λ e. h.0 (sym e)) d.0,
        Distinct-insert k i t l h.1 d.1,
      )
]

-- A field more, with the next index.
add_attribute-IsBody :
    (n : String) (t : LlType) (a : Attributes) → IsBody a → IsBody (add_attribute n t a)
unfolding add_attribute
add_attribute-IsBody n t a h = record {
  counted = omega (arith, h.counted);
  layout_of = rw (reverse-cons t a.types) record {
    typed =
        All-insert (λ v. get_elem? (reverse a.types ++ t ∷ []) v.0 ≡ some v.1) n (a.next, t)
          a.layout
          (rw (h.counted ∙ sym (length-reverse a.types)) (get_elem?-last (reverse a.types) t))
          (All-map a.layout (λ e. get_elem?-append (reverse a.types) _ e.1.0 e.1.1)
            h.layout_of.typed);
    distinct =
        Distinct-insert n a.next t a.layout
          (All-map a.layout
            (λ e p q. omega (
              arith,
              q,
              h.counted,
              length-reverse a.types,
              get_elem?-bound (reverse a.types) e.1.0 e.1.1 p,
            ))
            h.layout_of.typed)
          h.layout_of.distinct;
  };
}

pub ref_count_only-IsBody : IsBody ref_count_only
unfolding Distinct
ref_count_only-IsBody = record {
  counted = refl;
  layout_of = record { typed = (refl, tt); distinct = (tt, tt) };
}

Keeps-Any : {A : Type 0} (m : M A) → Keeps Any Any m
Keeps-Any m = record { at = λ s _. returned (m s) }
  where
    returned : {A : Type 0} (r : Result (A × State)) → Ensures Any Any r
    returned (ok _) = (tt, tt)
    returned (err _) = tt

pub fields-IsBody :
    (body : Stmts) (a : Attributes) → IsBody a → Keeps Any IsBody (class_fields body a)
unfolding class_fields
fields-IsBody end a h = Keeps-pure a h
fields-IsBody (seq (ann_assign target annotation v) rest) a h =
    Keeps-bind (Keeps-Any _)
      λ n _. Keeps-bind (Keeps-Any _) λ t _. fields-IsBody rest _ (add_attribute-IsBody n t a h)
fields-IsBody (seq _ rest) a h = fields-IsBody rest a h
