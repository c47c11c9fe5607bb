-- ===== src/Compiler/Meaning/Correct.antt =====
-- The code of an integer expression computes its meaning.
use lambpie.Common.{◌+◌, arith, ap, length, ℕ, ◌≡◌, refl, ◌∙◌, String, Bool, true, some}
use lambpie.Ast.{int_lit, Literal, BinOp, UnaryOp, Expr}
use lambpie.Llvm.{LlType, Obj, constant, nat_val, minus_one, Instr, Initial, Arith, Llvm}
use lambpie.Compiler.Monad.{State, Result, ok, err, ◌>>=◌, type_item, type_of, instr}
use lambpie.Compiler.Expr.{
  visit_constant, visit_name, resolve, load_local, is_array_pointer, binary, arith_of, unary,
  visit_expr,
}
use lambpie.Compiler.Meaning.Source.{
  meaning, literal_meaning, binary_meaning, unary_meaning, IsIntLiteral, IsRingOp, IsBitwiseSign,
  IsInteger, wrap,
}
use lambpie.Compiler.Meaning.Machine.{Machine, i64, IsBefore, next, new}
use lambpie.Compiler.Meaning.Steps.{IsReady, Holds, Slot, Computes, instr-Computes, bind-Computes}

typed :
    (L : Llvm) (s : State) (o : Obj) (t : LlType)
    → IsBefore (length s.log) o
    → L.type_of s.log o ≡ some t
    → type_of L o s ≡ ok (t, s)
unfolding type_of ◌>>=◌
typed L s (constant t v) u h e = rw e refl
typed L s (Obj.result k) u h e = rw e refl
typed L s _ u h e = absurd h

zero_add : (n : ℕ) → 0 + n ≡ n
zero_add n = omega arith

module _ {L : Llvm} (K : Machine L) {declared : String → Bool} {env : String → ℕ} {b : Obj} where
  -- `ir.Constant(self.types['int'], v)`
  constant-Computes :
      (s : State) (v : Initial) (w : ℕ)
      → IsReady L K declared env b s
      → K.value s.log (constant i64 v) ≡ w
      → Computes L K declared env b s w
          ((type_item "int" >>= λ t. lambpie.Compiler.Monad.pure (constant t v)) s)
  unfolding type_item ◌>>=◌
  constant-Computes s v w h e = rw h.int_is record {
    ready = h;
    holds = record { before = tt; typed = K.constant_type s.log i64 v; valued = e };
    kept = λ p u k. k;
  }

  literal-Computes :
      (v : Literal) (s : State)
      → IsIntLiteral v
      → IsReady L K declared env b s
      → Computes L K declared env b s (literal_meaning v) (visit_constant L v s)
  unfolding visit_constant literal_meaning
  literal-Computes (int_lit n) s i h = constant-Computes s (nat_val n) _ h (K.nat_value s.log n)
  literal-Computes _ s i h = absurd i

  load-Computes :
      (id : String) (s : State)
      → (v : Slot L K declared env b s id) → IsReady L K declared env b s
      → Computes L K declared env b s (env id) (load_local L id v.slot s)
  unfolding load_local ◌>>=◌ is_array_pointer
  load-Computes id s v h = rw (typed L s v.slot _ v.before v.pointer) (
      instr-Computes K s (Instr.load v.slot id) (env id) h tt
        (K.load_accepted s.log b v.slot id v.pointer) (K.load_type s.log b v.slot id v.pointer)
        (K.load_value s.log b v.slot id ∙ v.content))

  name-Computes :
      (id : String) (s : State)
      → declared id ≡ true
      → IsReady L K declared env b s
      → Computes L K declared env b s (env id) (visit_name L id s)
  unfolding visit_name resolve ◌>>=◌
  name-Computes id s d h = let v = h.slots id d in rw v.bound (load-Computes id s v h)

  -- a binary instruction
  arith-Computes :
      (f : Arith) (x y : Obj) (label : String) (u v w : ℕ) (s : State)
      → IsReady L K declared env b s
      → Holds L K declared env b s.log x u
      → L.type_of s.log y ≡ some i64
      → K.value (next b (Instr.arith_op f x y label) s.log) (new s.log) ≡ w
      → Computes L K declared env b s w (instr L (Instr.arith_op f x y label) s)
  arith-Computes f x y label u v w s h hx ty e =
      instr-Computes K s (Instr.arith_op f x y label) w h tt
        (K.arith_accepted s.log b f x y label hx.typed ty)
        (K.arith_type s.log b f x y label hx.typed ty) e

  binary-Computes :
      (op : BinOp) (x y : Obj) (u v : ℕ) (s : State)
      → IsRingOp op
      → IsReady L K declared env b s
      → Holds L K declared env b s.log x u
      → Holds L K declared env b s.log y v
      → Computes L K declared env b s (binary_meaning op u v) (binary L op x y s)
  unfolding binary arith_of binary_meaning ◌>>=◌
  binary-Computes BinOp.add x y u v s i h hx hy =
      arith-Computes Arith.add x y "addtmp" u v _ s h hx hy.typed
        (K.add_value s.log b x y _ ∙ rw (hx.valued, hy.valued) refl)
  binary-Computes BinOp.sub x y u v s i h hx hy =
      arith-Computes Arith.sub x y "subtmp" u v _ s h hx hy.typed
        (K.sub_value s.log b x y _ ∙ rw (hx.valued, hy.valued) refl)
  binary-Computes BinOp.mult x y u v s i h hx hy =
      arith-Computes Arith.mul x y "multmp" u v _ s h hx hy.typed
        (K.mul_value s.log b x y _ ∙ rw (hx.valued, hy.valued) refl)
  binary-Computes _ x y u v s i h hx hy = absurd i

  unary-Computes :
      (op : UnaryOp) (x : Obj) (u : ℕ) (s : State)
      → IsBitwiseSign op
      → IsReady L K declared env b s
      → Holds L K declared env b s.log x u
      → Computes L K declared env b s (unary_meaning op u) (unary L op x s)
  unfolding unary unary_meaning ◌>>=◌
  unary-Computes UnaryOp.u_add x u s i h hx = record { ready = h; holds = hx; kept = λ p w k. k }
  unary-Computes UnaryOp.u_sub x u s i h hx = rw (typed L s x i64 hx.before hx.typed) (
      instr-Computes K s (Instr.arith_op Arith.sub (constant i64 (nat_val 0)) x "negtmp") _ h tt
        (K.arith_accepted s.log b _ _ x _ (K.constant_type s.log i64 _) hx.typed)
        (K.arith_type s.log b _ _ x _ (K.constant_type s.log i64 _) hx.typed)
        (K.sub_value s.log b _ x _ ∙ rw (K.nat_value s.log 0, hx.valued) (ap wrap (zero_add _))))
  unary-Computes UnaryOp.invert x u s i h hx = rw (typed L s x i64 hx.before hx.typed) (
      arith-Computes Arith.xor x (constant i64 minus_one) "nottmp" u u _ s h hx
        (K.constant_type s.log i64 _) (K.complement_value s.log b x _ ∙ rw hx.valued refl))
  unary-Computes UnaryOp.not_op x u s i h hx = absurd i

  -- For an expression of integer literals, declared int variables, `+`, `-`, `*` and `~`, compiled in
  -- a state where `int` is i64, the builder is set and every declared variable has a stack slot that
  -- holds its value: `visit` raises nothing and returns an i64 that, by what LLVM documents of the
  -- instructions emitted, has the value of the expression modulo 2 ^ 64. The variables keep their
  -- values, and so do the i64 values computed before.
  pub visit_expr-Computes :
      (e : Expr) (s : State)
      → IsInteger declared e
      → IsReady L K declared env b s
      → Computes L K declared env b s (meaning env e) (visit_expr L e s)
  unfolding visit_expr meaning IsInteger ◌>>=◌
  visit_expr-Computes (Expr.constant v) s i h = literal-Computes v s i h
  visit_expr-Computes (Expr.name id) s i h = name-Computes id s i h
  visit_expr-Computes (Expr.bin_op op l r) s (i, il, ir) h =
      bind-Computes K s (meaning env l) _ _ _ (visit_expr-Computes l s il h) λ x s₁ c₁.
        bind-Computes K s₁ (meaning env r) _ _ _ (visit_expr-Computes r s₁ ir c₁.ready)
          λ y s₂ c₂. binary-Computes op x y _ _ s₂ i c₂.ready (c₂.kept x _ c₁.holds) c₂.holds
  visit_expr-Computes (Expr.unary_op op e) s (i, ie) h =
      bind-Computes K s (meaning env e) _ _ _ (visit_expr-Computes e s ie h)
        λ x s₁ c₁. unary-Computes op x _ s₁ i c₁.ready c₁.holds
  visit_expr-Computes _ s i h = absurd i
