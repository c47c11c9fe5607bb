-- ===== src/Models/Order.antt =====
-- Python's order of texts, by their code points.
use Prim.Native.Nat.{compare as compare_ℕ, Ordering}
use Prim.Native.Char.{code}
use Prim.Native.String.{[], ◌∷◌, compare, then}
use Prim.Native.String.compare
use lambpie.Common.{◌≡◌, refl, sym, ◌∙◌, String, ℕ, arith, Bool, true, false, ◌⊎◌, inl, inr}
use text.Mathlib.TextEquality.{path_by_compare}

flip_then :
    (m n : ℕ) (o p : Ordering)
    → (o ≡ Ordering.gt → p ≡ Ordering.lt)
    → then (compare_ℕ m n) o ≡ Ordering.gt
    → then (compare_ℕ n m) p ≡ Ordering.lt
flip_then m n o p h e = ground arith

flip_then-lt :
    (m n : ℕ) (o p : Ordering)
    → (o ≡ Ordering.lt → p ≡ Ordering.gt)
    → then (compare_ℕ m n) o ≡ Ordering.lt
    → then (compare_ℕ n m) p ≡ Ordering.gt
flip_then-lt m n o p h e = ground arith

is_lt-is_gt : Ordering.lt ≡ Ordering.gt → ⊥
is_lt-is_gt e = cc

is_eq-is_gt : Ordering.eq ≡ Ordering.gt → ⊥
is_eq-is_gt e = cc

-- what is behind is before, the other way around
pub flip : (s t : String) → compare s t ≡ Ordering.gt → compare t s ≡ Ordering.lt
flip [] [] h = absurd (is_eq-is_gt (sym compare.nil-nil ∙ h))
flip [] (d ∷ t) h = absurd (is_lt-is_gt (sym (compare.nil-cons d t) ∙ h))
flip (c ∷ s) [] h = compare.nil-cons c s
flip (c ∷ s) (d ∷ t) h =
    compare.cons-cons d c t s
    ∙ flip_then (code c) (code d) (compare s t) (compare t s) (flip s t)
        (sym (compare.cons-cons c d s t) ∙ h)

impossible : false ≡ true → ⊥
impossible e = cc

is_eq-is_lt : Ordering.eq ≡ Ordering.lt → ⊥
is_eq-is_lt e = cc

is_gt-is_lt : Ordering.gt ≡ Ordering.lt → ⊥
is_gt-is_lt e = cc

flip-lt : (s t : String) → compare s t ≡ Ordering.lt → compare t s ≡ Ordering.gt
flip-lt [] [] h = absurd (is_eq-is_lt (sym compare.nil-nil ∙ h))
flip-lt [] (d ∷ t) h = compare.cons-nil d t
flip-lt (c ∷ s) [] h = absurd (is_gt-is_lt (sym (compare.cons-nil c s) ∙ h))
flip-lt (c ∷ s) (d ∷ t) h =
    compare.cons-cons d c t s
    ∙ flip_then-lt (code c) (code d) (compare s t) (compare t s) (flip-lt s t)
        (sym (compare.cons-cons c d s t) ∙ h)

-- s < t
abbrev pub text_lt : String → String → Bool
text_lt s t = elim (compare s t) [ Ordering.lt ↦ true | _ ↦ false ]

order_by :
    (s t : String) (o : Ordering)
    → compare s t ≡ o
    → (text_lt s t ≡ true) ⊎ ((s ≡ t) ⊎ (text_lt t s ≡ true))
order_by s t Ordering.lt e = inl (rw (text_lt, e) refl)
order_by s t Ordering.eq e = inr (inl (path_by_compare s t e))
order_by s t Ordering.gt e = inr (inr (rw (text_lt, flip s t e) refl))

pub order_cases : (s t : String) → (text_lt s t ≡ true) ⊎ ((s ≡ t) ⊎ (text_lt t s ≡ true))
order_cases s t = order_by s t (compare s t) refl

less_by : (s t : String) (o : Ordering) → compare s t ≡ o → text_lt s t ≡ true → text_lt t s ≡ false
less_by s t Ordering.lt e l = rw (text_lt, flip-lt s t e) refl
less_by s t Ordering.eq e l = absurd (impossible (rw (text_lt, e) at l))
less_by s t Ordering.gt e l = absurd (impossible (rw (text_lt, e) at l))

pub asymmetric : (s t : String) → text_lt s t ≡ true → text_lt t s ≡ false
asymmetric s t l = less_by s t (compare s t) refl l
