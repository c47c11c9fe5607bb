-- ===== src/Compiler/Layouts/Class.antt =====
-- `visit_ClassDef` records the layout that the struct it declares to llvmlite has.
use lambpie.Common.{
  ◌∙◌, eq_refl, ℕ, ◌+◌, ◌≡◌, refl, ap, String, Bool-cases, inl, inr, some, List, [], ◌∷◌, ◌++◌,
}
use mathlib.Core.Path.{subst}
use mathlib.Core.List.{reverse}
use lambpie.Common.Dict.{Dict, lookup, insert, lookup-insert}
use lambpie.Ast.{Stmts}
use lambpie.Llvm.{LlType, identified_type, Obj, Instr, ApiCall, set_body, build, Log, Llvm}
use lambpie.Compiler.Monad.{State, Layout, ok, modify, emit, instr, ◌>>=◌}
use lambpie.Compiler.Class.{
  Field, struct_pointer, ref_count_only, set_global, enter_function, store_args, generate_auto_init,
  declare_class,
}
use lambpie.Compiler.Objects.{store_field}
use lambpie.Compiler.Hoare.{Ensures, Keeps, Any, Keeps-pure, Keeps-modify, Keeps-branch}
use lambpie.Compiler.Discipline.Objects.{gets-Any, item-Any, or_raise-Any, bind-Any}
use lambpie.Compiler.Discipline.Plan.{after, weaken}
use lambpie.Compiler.Layouts.Fields.{IsLayout, fields-IsBody, ref_count_only-IsBody}

-- The class has the struct type of its name, llvmlite was given `types` as the body of that, and the
-- compiler knows the fields by a layout of `types`.
pub record IsLaidOut (c : String) (layout : Layout) (types : List LlType) (s : State) : Type 0 where
  pub pointer : lookup c s.types ≡ some (struct_pointer c)
  pub known : lookup c s.class_layouts ≡ some layout
  pub later : Log
  pub earlier : Log
  pub declared : s.log ≡ later ++ set_body (identified_type c) types ∷ earlier

module _ (L : Llvm) {c : String} {l : Layout} {ts : List LlType} where
  emit-IsLaidOut : (a : ApiCall) → Keeps (IsLaidOut c l ts) Any (emit L a)
  unfolding emit
  emit-IsLaidOut a = record {
    at = λ s h. elim (Bool-cases (L.accepts s.log a)) [
      | inl good ↦ rw good (
        record {
          pointer = h.pointer;
          known = h.known;
          later = a ∷ h.later;
          earlier = h.earlier;
          declared = ap (λ log. a ∷ log) h.declared;
        },
        tt,
      )
      | inr bad ↦ rw bad tt
    ];
  }

  instr-IsLaidOut : (i : Instr) → Keeps (IsLaidOut c l ts) Any (instr L i)
  unfolding instr
  instr-IsLaidOut i =
      bind-Any _ _ (gets-Any _)
        λ b. bind-Any _ _ (or_raise-Any _ b) λ b'. emit-IsLaidOut (build b' i)

  -- a step that leaves the types, the layouts and the log alone
  modify-IsLaidOut :
      (f : State → State)
      → ((s : State)
          → ((f s).types ≡ s.types) × ((f s).class_layouts ≡ s.class_layouts) × ((f s).log ≡ s.log))
      → Keeps (IsLaidOut c l ts) Any (modify f)
  modify-IsLaidOut f k = Keeps-modify f λ s h. record {
    pointer = rw (k s).0 h.pointer;
    known = rw (k s).1 h.known;
    later = h.later;
    earlier = h.earlier;
    declared = rw (k s).2 h.declared;
  }

  store_field-IsLaidOut :
      (p : Obj) (i : ℕ) (n : String) (v : Obj)
      → Keeps (IsLaidOut c l ts) Any (store_field L p i n v)
  unfolding store_field
  store_field-IsLaidOut p i n v = bind-Any _ _ (instr-IsLaidOut _) λ _. instr-IsLaidOut _

  set_global-IsLaidOut : (k : String) (o : Obj) → Keeps (IsLaidOut c l ts) Any (set_global k o)
  unfolding set_global
  set_global-IsLaidOut k o = modify-IsLaidOut _ λ s. (refl, refl, refl)

  enter_function-IsLaidOut : (f : Obj) → Keeps (IsLaidOut c l ts) Any (enter_function L f)
  unfolding enter_function
  enter_function-IsLaidOut f =
      bind-Any _ _ (emit-IsLaidOut _)
        λ _. bind-Any _ _ (emit-IsLaidOut _) λ _. modify-IsLaidOut _ λ s. (refl, refl, refl)

  store_args-IsLaidOut :
      (f p : Obj) (i : ℕ) (fs : List Field) → Keeps (IsLaidOut c l ts) Any (store_args L f p i fs)
  unfolding store_args
  store_args-IsLaidOut f p i [] = Keeps-pure _ tt
  store_args-IsLaidOut f p i (fd ∷ fs) =
      bind-Any _ _ (emit-IsLaidOut _)
        λ _. bind-Any _ _ (store_field-IsLaidOut _ _ _ _) λ _. store_args-IsLaidOut f p (i + 1) fs

  generate_auto_init-IsLaidOut :
      (n : String) (a : Layout) → Keeps (IsLaidOut c l ts) Any (generate_auto_init L n a)
  unfolding generate_auto_init
  generate_auto_init-IsLaidOut n a = bind-Any _ _ (emit-IsLaidOut _) λ f.
      bind-Any _ _ (set_global-IsLaidOut _ _) λ _. bind-Any _ _ (gets-Any _) λ b.
        bind-Any _ _ (gets-Any _) λ d. bind-Any _ _ (enter_function-IsLaidOut f) λ _.
          bind-Any _ _ (modify-IsLaidOut _ λ s. (refl, refl, refl)) λ _.
            bind-Any _ _ (emit-IsLaidOut _) λ _. bind-Any _ _ (instr-IsLaidOut _) λ _.
              bind-Any _ _ (instr-IsLaidOut _) λ _. bind-Any _ _ (instr-IsLaidOut _) λ _.
                bind-Any _ _ (item-Any _ _) λ r. bind-Any _ _ (store_field-IsLaidOut _ _ _ _) λ _.
                  bind-Any _ _ (store_args-IsLaidOut _ _ _ _) λ _.
                    bind-Any _ _ (instr-IsLaidOut _) λ _. modify-IsLaidOut _ λ s. (refl, refl, refl)

-- some layout, and types that it is a layout of
pub record HasLayout (c : String) (s : State) : Type 0 where
  pub layout : Layout
  pub types : List LlType
  pub laid_out : IsLaidOut c layout types s
  pub is_layout : IsLayout layout types

insert-lookup : {A : Type 0} (k : String) (v : A) (d : Dict A) → lookup k (insert k v d) ≡ some v
insert-lookup k v d = lookup-insert k k v d ∙ rw (eq_refl k) refl

module _ (L : Llvm) (c : String) (body : Stmts) (s : State) where
  emit-top :
      (a : ApiCall) (s : State)
      → Ensures (λ s'. (earlier : Log) × (s'.log ≡ a ∷ earlier)) Any (emit L a s)
  unfolding emit
  emit-top a s = elim (Bool-cases (L.accepts s.log a)) [
    | inl good ↦ rw good ((s.log, refl), tt)
    | inr bad ↦ rw bad tt
  ]

  declare_class-Ensures : Ensures (HasLayout c) Any (declare_class L c body s)
  unfolding declare_class ◌>>=◌ modify
  declare_class-Ensures =
      after (HasLayout c) Any _ _
        ((fields-IsBody body ref_count_only ref_count_only-IsBody).at s tt)
        λ a s₁ _ _ h. after (HasLayout c) Any _ _ (emit-top _ s₁) λ _ s₂ _ e _.
          weaken (HasLayout c) _ _
            ((Keeps-branch {P = IsLaidOut c a.layout (reverse a.types)} _ _ _ (λ _. Keeps-pure _ tt)
                (λ _. generate_auto_init-IsLaidOut L c a.layout)).at
              _
              (record {
                pointer = insert-lookup c _ s₂.types;
                known = insert-lookup c _ s₂.class_layouts;
                later = [];
                earlier = e.0;
                declared = e.1;
              }))
            λ _ s₃ _ k. record {
              layout = a.layout;
              types = reverse a.types;
              laid_out = k;
              is_layout = h.layout_of;
            }

  -- If the part of `visit_ClassDef` before the methods returns, the `__init__` it may generate
  -- included, then the class name stands for a pointer to the struct of that name, llvmlite was
  -- given a list of types as the struct's body, and in the layout that the compiler recorded for
  -- the class the index of each field is the place of the field's type in that list, and no two
  -- fields have one index.
  pub declare_class-HasLayout :
      (s' : State) → declare_class L c body s ≡ ok (tt, s') → HasLayout c s'
  declare_class-HasLayout s' e = (subst (Ensures (HasLayout c) Any) e declare_class-Ensures).0
