-- ===== src/Compiler/Meaning/Source.antt =====
-- The integer expressions of .pie over local variables, and what they mean: Python's value modulo
-- 2 ^ 64, since `int` is i64.
use lambpie.Common.{ℕ, ◌+◌, ◌-◌, ◌*◌, ◌%◌, ◌≡◌, String, Bool, true}
use lambpie.Ast.{int_lit, Literal, BinOp, UnaryOp, Expr}

-- 2 ^ 64
abbrev pub modulus : ℕ
modulus = 18446744073709551616

-- modulo 2 ^ 64
abbrev pub wrap : ℕ → ℕ
wrap n = n % modulus

unfoldable pub literal_meaning : Literal → ℕ
literal_meaning (int_lit n) = wrap n
literal_meaning _ = 0

-- a + b, a - b and a * b
unfoldable pub binary_meaning : BinOp → ℕ → ℕ → ℕ
binary_meaning BinOp.add a b = wrap (a + b)
binary_meaning BinOp.sub a b = wrap (a + (modulus - b))
binary_meaning BinOp.mult a b = wrap (a * b)
binary_meaning _ a b = 0

-- -a, ~a = -a - 1 and +a
unfoldable pub unary_meaning : UnaryOp → ℕ → ℕ
unary_meaning UnaryOp.u_sub a = wrap (modulus - a)
unary_meaning UnaryOp.invert a = modulus - 1 - a
unary_meaning UnaryOp.u_add a = a
unary_meaning UnaryOp.not_op a = 0

-- the value of an expression where the variables have the values `env`
unfoldable pub meaning : (String → ℕ) → Expr → ℕ
meaning env (Expr.constant v) = literal_meaning v
meaning env (Expr.name id) = env id
meaning env (Expr.bin_op op l r) = binary_meaning op (meaning env l) (meaning env r)
meaning env (Expr.unary_op op e) = unary_meaning op (meaning env e)
meaning env _ = 0

abbrev pub IsIntLiteral : Literal → Type 0
IsIntLiteral (int_lit n) = Unit
IsIntLiteral _ = ⊥

abbrev pub IsRingOp : BinOp → Type 0
IsRingOp BinOp.add = Unit
IsRingOp BinOp.sub = Unit
IsRingOp BinOp.mult = Unit
IsRingOp _ = ⊥

abbrev pub IsBitwiseSign : UnaryOp → Type 0
IsBitwiseSign UnaryOp.not_op = ⊥
IsBitwiseSign _ = Unit

-- An expression of integer literals, of the local variables that are declared, and of `+`, `-`, `*`
-- and `~`.
unfoldable pub IsInteger : (String → Bool) → Expr → Type 0
IsInteger declared (Expr.constant v) = IsIntLiteral v
IsInteger declared (Expr.name id) = declared id ≡ true
IsInteger declared (Expr.bin_op op l r) = IsRingOp op × IsInteger declared l × IsInteger declared r
IsInteger declared (Expr.unary_op op e) = IsBitwiseSign op × IsInteger declared e
IsInteger declared _ = ⊥
