-- ===== src/Compiler/Discipline/Inv.antt =====
-- What the compiler keeps while it emits code for one arena: which arena, what the calls emitted so
-- far ask the allocator for, and the numbers of the private globals.
use lambpie.Common.{
  none, some, true, Option, ap, ℕ, suc, ◌<◌, ◌≡◌, ◌≢◌, String, some, List, [], ◌∷◌, ◌++◌, All,
  Bool-cases, ◌==◌, inl, inr,
}
use lambpie.Common.Dict.{Dict, All-lookup}
use lambpie.Ast.{Signature, Stmts, Stmt, ann_assign, assign, expr_stmt}
use lambpie.Llvm.{
  LlType, int_type, nat_val, Obj, constant, method, Instr, call, numbered, ApiCall, new_global,
  build, Log, Llvm,
}
use lambpie.Compiler.Monad.{State, emit, instr, type_item, global_item}
use lambpie.Compiler.Hoare.{Keeps, Any, Keeps-gets, Keeps-or_raise, Keeps-bind, Keeps-item}

abbrev pub IsNotI32 : LlType → Type 0
IsNotI32 (int_type w) = w ≢ 32
IsNotI32 _ = Unit

-- No i32 constant, alone or as the object of a method: so is every value of a .pie expression.
abbrev pub IsValue : Obj → Type 0
IsValue (constant t v) = IsNotI32 t
IsValue (method o f) = IsValue o
IsValue _ = Unit

-- The first argument is the tag `arena`, if it is an i32 constant.
abbrev pub TagIs : ℕ → List Obj → Type 0
TagIs arena (constant (int_type w) (nat_val tag) ∷ args) = w ≡ 32 → tag ≡ arena
TagIs arena _ = Unit

abbrev pub InstrTagIs : ℕ → Instr → Type 0
InstrTagIs arena (call f args n) = TagIs arena args
InstrTagIs arena _ = Unit

-- Every call whose first argument is an i32 constant asks for `arena`.
abbrev pub CallTagIs : ℕ → ApiCall → Type 0
CallTagIs arena (build b i) = InstrTagIs arena i
CallTagIs arena _ = Unit

-- the numbers of the numbered globals, the latest first
abbrev pub global_numbers : Log → List ℕ
global_numbers [] = []
global_numbers (new_global t (numbered p n) ∷ log) = n ∷ global_numbers log
global_numbers (_ ∷ log) = global_numbers log

-- below `bound`, and falling
abbrev pub Descends : ℕ → List ℕ → Type 0
Descends bound [] = Unit
Descends bound (n ∷ ns) = (n < bound) × Descends n ns

abbrev pub Values : Dict Obj → Type 0
Values = All (λ e. IsValue e.1)

abbrev pub NoI32 : Dict LlType → Type 0
NoI32 = All (λ e. IsNotI32 e.1)

-- The calls of `s` behind those of `old`.
abbrev pub Emitted : Log → State → (ApiCall → Type 0) → Type 0
Emitted old s P = (new : Log) × (s.log ≡ new ++ old) × All P new

-- a statement that `visit_Module` leaves to `lambpie_init`
abbrev pub IsDeferred : Stmt → Type 0
IsDeferred (ann_assign t a v) = Unit
IsDeferred (assign t ts v) = Unit
IsDeferred (expr_stmt e) = Unit
IsDeferred _ = ⊥

-- the deferred handler, if there is one, is called handle
abbrev pub IsHandle : Option (Signature × Stmts) → Type 0
IsHandle none = Unit
IsHandle (some (sig, body)) = (sig.name == "handle") ≡ true

module _ (arena : ℕ) (old : Log) where
  pub record Inv (s : State) : Type 0 where
    pub deferred : All IsDeferred s.init_stmts
    pub handler : IsHandle s.handle_node
    pub arena_is : s.current_arena ≡ arena
    pub tags : Emitted old s (CallTagIs arena)
    pub numbers : Descends (suc s.name_counter) (global_numbers s.log)
    pub globals : Values s.global_scope
    pub locals : Values s.local_scope
    pub types_ok : NoI32 s.types

pub TagIs-value : (arena : ℕ) (o : Obj) (args : List Obj) → IsValue o → TagIs arena (o ∷ args)
TagIs-value arena (constant (int_type w) (nat_val n)) args h = λ e. absurd (h e)
TagIs-value arena (constant (int_type w) _) args h = tt
TagIs-value arena (constant LlType.double_type v) args h = tt
TagIs-value arena (constant _ v) args h = tt
TagIs-value arena _ args h = tt

pub TagIs-values : (arena : ℕ) (args : List Obj) → All IsValue args → TagIs arena args
TagIs-values arena [] h = tt
TagIs-values arena (o ∷ args) h = TagIs-value arena o args h.0

-- a call that does not make a numbered global
abbrev pub IsUnnumbered : ApiCall → Type 0
IsUnnumbered (new_global t (numbered p n)) = ⊥
IsUnnumbered _ = Unit

Descends-unnumbered :
    (b : ℕ) (c : ApiCall) (log : Log)
    → IsUnnumbered c
    → Descends b (global_numbers log)
    → Descends b (global_numbers (c ∷ log))
Descends-unnumbered b (new_global t (numbered p n)) log u h = absurd u
Descends-unnumbered b _ log u h = h

module _ (L : Llvm) {arena : ℕ} {old : Log} where
  pub emit-Inv :
      (c : ApiCall) → CallTagIs arena c → IsUnnumbered c → Keeps (Inv arena old) IsValue (emit L c)
  unfolding emit
  emit-Inv c t u = record {
    at = λ s h. elim (Bool-cases (L.accepts s.log c)) [
      | inl good ↦ rw good (
        record {
          arena_is = h.arena_is;
          deferred = h.deferred;
          handler = h.handler;
          globals = h.globals;
          locals = h.locals;
          types_ok = h.types_ok;
          tags = (c ∷ h.tags.0, ap (λ l. c ∷ l) h.tags.1, (t, h.tags.2));
          numbers = Descends-unnumbered _ c s.log u h.numbers;
        },
        tt,
      )
      | inr bad ↦ rw bad tt
    ];
  }

  pub instr-Inv : (i : Instr) → InstrTagIs arena i → Keeps (Inv arena old) IsValue (instr L i)
  unfolding instr
  instr-Inv i t = Keeps-bind (Keeps-gets {Q = Any} _ (λ _ _. tt)) λ b _.
      Keeps-bind (Keeps-or_raise {Q = Any} _ b (λ _ _. tt)) λ b' _. emit-Inv (build b' i) t tt

module _ {arena : ℕ} {old : Log} where
  pub type_item-Inv : (k : String) → Keeps (Inv arena old) IsNotI32 (type_item k)
  unfolding type_item
  type_item-Inv k =
      Keeps-bind (Keeps-gets {Q = NoI32} _ (λ s h. h.types_ok))
        λ d hd. Keeps-item k d (λ t e. All-lookup IsNotI32 k d t hd e)

  pub global_item-Inv : (k : String) → Keeps (Inv arena old) IsValue (global_item k)
  unfolding global_item
  global_item-Inv k =
      Keeps-bind (Keeps-gets {Q = Values} _ (λ s h. h.globals))
        λ d hd. Keeps-item k d (λ o e. All-lookup IsValue k d o hd e)
