-- ===== src/Compiler/Discipline/Plan.antt =====
-- The arenas of a whole compilation.
use lambpie.Common.{ℕ, String, true, Option, none, some, ◌≡◌, refl, ◌∙◌, ◌==◌}
use lambpie.Ast.{Signature, Stmts}
use lambpie.Llvm.{LlType, Log, Llvm}
use lambpie.Compiler.Monad.{Result, ok, err, State, Layout, M, continue, gets, ◌>>=◌}
use lambpie.Compiler.Stmt.{arena_static, arena_req, body_arena, visit_function, visit_stmts}
use lambpie.Compiler.Entry.Lambda.{
  emit_init, entry_types, class_layout, start_scope, emit_handle, declare_json, synthesize,
  synthesize_lambda_entry, compile,
}
use lambpie.Compiler.Entry.Module.{visit_module}
use lambpie.Compiler.Hoare.{Ensures, Any, Keeps}
use lambpie.Compiler.Discipline.Inv.{Inv, IsHandle, CallTagIs, Emitted, type_item-Inv}
use lambpie.Compiler.Discipline.Objects.{steps}
use lambpie.Compiler.Discipline.Scopes.{target_id-Inv}
use lambpie.Compiler.Discipline.Functions.{
  IsSound, InArena, start-Inv, Inv-InArena, function-Ensures, KeepsArena-req,
}
use lambpie.Compiler.Discipline.Entry.{
  ModuleKeepsArena, visit_module-Inv, declare_json-Inv, emit_init-Inv, declare_handle-Inv,
  handle_code-Inv,
}
use lambpie.Compiler.Discipline.Run.{opened, LookedUp, Plan}

-- A step from any state and result that the step before may leave.
pub after :
    {A B : Type 0} {P : State → Type 0} {Q : A → Type 0} (P' : State → Type 0) (Q' : B → Type 0)
    (r : Result (A × State)) (f : A → M B)
    → Ensures P Q r
    → ((a : A) (s : State) → r ≡ ok (a, s) → P s → Q a → Ensures P' Q' (f a s))
    → Ensures P' Q' (continue r f)
after P' Q' (ok (a, s)) f h k = k a s refl h.0 h.1
after P' Q' (err e) f h k = tt

module _ {arena : ℕ} {old : Log} where
  entry_types-Inv : (sig : Signature) → Keeps (Inv arena old) Any (entry_types sig)
  unfolding entry_types
  entry_types-Inv sig = search (steps, target_id-Inv) depth 10

  class_layout-Inv : (c : String) → Keeps (Inv arena old) Any (class_layout c)
  unfolding class_layout
  class_layout-Inv c = search steps

InArena-Inv : (arena back : ℕ) (old : Log) (s : State) → InArena arena old back s → Inv back s.log s
InArena-Inv arena back old s h = start-Inv back s h.1 h.2

pub weaken :
    {A : Type 0} {P : State → Type 0} (P' : State → Type 0) (Q : A → Type 0)
    (r : Result (A × State))
    → Ensures P Q r
    → ((a : A) (s : State) → r ≡ ok (a, s) → P s → P' s)
    → Ensures P' Any r
weaken P' Q (ok (a, s)) h k = (k a s refl h.0, tt)
weaken P' Q (err e) h k = tt

opened-IsSound : (s : State) (arena : ℕ) → IsSound s → IsSound (opened s arena)
opened-IsSound s arena h = record {
  deferred = h.deferred;
  handler = h.handler;
  numbers = h.numbers;
  globals = h.globals;
  locals = tt;
  types_ok = h.types_ok;
}

-- an invariant that begins anew
renewed : (arena : ℕ) (old : Log) (s : State) → Inv arena old s → Inv arena s.log s
renewed arena old s h = start-Inv arena s h.arena_is (Inv-InArena arena old s h).2

module _ (L : Llvm) (tree : Stmts) (start visited : State)
    (module_run : visit_module L tree start ≡ ok (tt, visited))
    (module_static : Emitted start.log visited (CallTagIs arena_static)) (sig : Signature)
    (body : Stmts) (handler : visited.handle_node ≡ some (sig, body))
    (named : (sig.name == "handle") ≡ true) where
  -- from the call of `handle` on
  from_handle :
      (s : State) (p i t : LlType) (a b : Layout)
      → LookedUp sig p i t a b visited s
      → Inv arena_static visited.log s
      → Ensures (Plan L tree start) Any (
          (visit_function L none sig (visit_stmts L body) >>= λ _.
          declare_json L p i >>= λ api. emit_init L >>= λ _. emit_handle L api p i t a b)
            s)
  unfolding ◌>>=◌ emit_handle start_scope lambpie.Compiler.Monad.modify body_arena
  from_handle s p i t a b l h =
      let P = Plan L tree start in
      after P Any _ _
        (function-Ensures L none sig body s arena_req (rw named)
          (Inv-InArena arena_static visited.log s h).2 (KeepsArena-req body))
        λ _ s₁ e₁ h₁ _.
          after P Any _ _
            ((declare_json-Inv L p i).at s₁ (start-Inv arena_static s₁ (h₁.1 ∙ h.arena_is) h₁.2))
            λ api s₂ e₂ h₂ _.
              after P Any _ _ ((emit_init-Inv L).at s₂ (renewed arena_static s₁.log s₂ h₂))
                λ _ s₃ e₃ h₃ _.
                  after P Any _ _
                    ((declare_handle-Inv L p i).at s₃ (renewed arena_static s₂.log s₃ h₃))
                    λ f s₄ e₄ h₄ _.
                      weaken P _ _
                        ((handle_code-Inv L f api i t a b).at (opened s₄ arena_req) (
                          start-Inv arena_req (opened s₄ arena_req) refl (
                            opened-IsSound s₄ arena_req (Inv-InArena arena_static s₃.log s₄ h₄).2)))
                        λ _ s₅ e₅ h₅. record {
                          sig = sig;
                          body = body;
                          p = p;
                          i = i;
                          event_type = t;
                          event_layout = a;
                          response_layout = b;
                          api = api;
                          f = f;
                          visited = visited;
                          looked_up = s;
                          handled = s₁;
                          declared = s₂;
                          initialised = s₃;
                          entered = s₄;
                          module_run = module_run;
                          handler = handler;
                          named = named;
                          lookup_run = l;
                          handle_run = e₁;
                          json_run = e₂;
                          init_run = e₃;
                          declare_run = e₄;
                          entry_run = e₅;
                          module_static = module_static;
                          lookup_static = h.tags;
                          handle_req = h₁.0;
                          json_static = h₂.tags;
                          init_static = h₃.tags;
                          declare_static = h₄.tags;
                          entry_req = h₅.tags;
                          sound = (Inv-InArena arena_req s₄.log s₅ h₅).2;
                        }

  synthesize-Plan :
      Inv arena_static visited.log visited
      → Ensures (Plan L tree start) Any (synthesize L sig body visited)
  unfolding synthesize ◌>>=◌
  synthesize-Plan h =
      let P = Plan L tree start in
      after P Any _ _ ((entry_types-Inv sig).at visited h) λ n s₁ e₁ h₁ _.
        after P Any _ _ ((class_layout-Inv n.0).at s₁ h₁) λ a s₂ e₂ h₂ _.
          after P Any _ _ ((class_layout-Inv n.1).at s₂ h₂) λ b s₃ e₃ h₃ _.
            after P Any _ _ ((type_item-Inv n.0).at s₃ h₃) λ t s₄ e₄ h₄ _.
              after P Any _ _ ((type_item-Inv n.1).at s₄ h₄) λ u s₅ e₅ h₅ _.
                after P Any _ _ ((type_item-Inv "__ptr__").at s₅ h₅) λ p s₆ e₆ h₆ _.
                  after P Any _ _ ((type_item-Inv "int").at s₆ h₆) λ i s₇ e₇ h₇ _.
                    from_handle s₇ p i t a b
                      (record {
                        names = n;
                        response_type = u;
                        annotated = s₁;
                        event_found = s₂;
                        response_found = s₃;
                        event_typed = s₄;
                        response_typed = s₅;
                        pointer_typed = s₆;
                        annotations = e₁;
                        event_layout_is = e₂;
                        response_layout_is = e₃;
                        event_type_is = e₄;
                        response_type_is = e₅;
                        pointer_is = e₆;
                        int_is = e₇;
                      })
                      h₇

module _ (L : Llvm) (tree : Stmts) (start visited : State)
    (module_run : visit_module L tree start ≡ ok (tt, visited))
    (h : Inv arena_static start.log visited) where
  entry-Plan :
      (node : Option (Signature × Stmts))
      → visited.handle_node ≡ node
      → IsHandle node
      → Ensures (Plan L tree start) Any (synthesize_lambda_entry L node visited)
  unfolding synthesize_lambda_entry lambpie.Compiler.Monad.raise
  entry-Plan none e n = tt
  entry-Plan (some (sig, body)) e n =
      synthesize-Plan L tree start visited module_run h.tags sig body e n
        (renewed arena_static start.log visited h)

module _ (L : Llvm) (tree : Stmts) (s : State) where
  pub compile-Ensures :
      IsSound s
      → s.current_arena ≡ arena_static
      → ModuleKeepsArena tree
      → Ensures (Plan L tree s) Any (compile L tree s)
  unfolding compile ◌>>=◌ gets
  compile-Ensures h e k =
      after (Plan L tree s) Any _ _
        ((visit_module-Inv L tree k).at s (start-Inv arena_static s e h))
        λ _ s₁ run h₁ _. entry-Plan L tree s s₁ run h₁ s₁.handle_node refl h₁.handler
