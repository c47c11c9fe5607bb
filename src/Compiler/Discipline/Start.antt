-- ===== src/Compiler/Discipline/Start.antt =====
-- The arenas of a compilation from a new `Compiler` object on, as `main` runs it.
use lambpie.Common.{String, [], ◌≡◌, refl, arith}
use mathlib.Core.Path.{subst}
use lambpie.Ast.{Stmts}
use lambpie.Llvm.{Llvm, Log, FunctionType}
use lambpie.Compiler.Monad.{State, ok, ◌>>=◌, ◌>>◌}
use lambpie.Compiler.Stmt.{arena_static}
use lambpie.Compiler.Entry.Init.{blank, declare, init}
use lambpie.Compiler.Entry.Lambda.{compile}
use lambpie.Compiler.Hoare.{Ensures, Any, Keeps, Keeps-bind, Keeps-modify}
use lambpie.Compiler.Discipline.Inv.{Inv, Emitted, CallTagIs, emit-Inv}
use lambpie.Compiler.Discipline.Scopes.{set_global-Inv}
use lambpie.Compiler.Discipline.Functions.{IsSound, start-Inv, Inv-InArena}
use lambpie.Compiler.Discipline.Entry.{ModuleKeepsArena}
use lambpie.Compiler.Discipline.Run.{Plan}
use lambpie.Compiler.Discipline.Plan.{after, weaken, compile-Ensures}

module _ (L : Llvm) {old : Log} where
  declare-Inv : (n : String) (t : FunctionType) → Keeps (Inv arena_static old) Any (declare L n t)
  unfolding declare
  declare-Inv n t = Keeps-bind (emit-Inv L _ tt tt) λ f hf. set_global-Inv n f hf

  init-Inv : Keeps (Inv arena_static old) Any (init L)
  unfolding init
  init-Inv =
      Keeps-bind
        (Keeps-modify _ λ s h. record {
          deferred = h.deferred;
          handler = h.handler;
          arena_is = h.arena_is;
          tags = h.tags;
          numbers = h.numbers;
          globals = h.globals;
          locals = h.locals;
          types_ok = (omega arith, (tt, (tt, (tt, tt))));
        })
        λ _ _. Keeps-bind (emit-Inv L _ tt tt) λ g hg. Keeps-bind (emit-Inv L _ tt tt) λ _ _.
          Keeps-bind (emit-Inv L _ tt tt) λ _ _. Keeps-bind (emit-Inv L _ tt tt) λ n hn.
            Keeps-bind (set_global-Inv "__name__" n hn) λ _ _.
              Keeps-bind (declare-Inv "malloc" _) λ _ _.
                Keeps-bind (declare-Inv "memcpy" _) λ _ _. declare-Inv "lambpie_arena_alloc" _

blank-IsSound : IsSound blank
blank-IsSound = record {
  deferred = tt;
  handler = tt;
  numbers = tt;
  globals = tt;
  locals = tt;
  types_ok = tt;
}

-- A run of the compiler from a new object on: `__init__`, with the static arena, and `compile`.
pub record RunPlan (L : Llvm) (tree : Stmts) (s : State) : Type 0 where
  pub begun : State
  pub created : init L blank ≡ ok (tt, begun)
  pub created_static : Emitted [] begun (CallTagIs arena_static)
  pub plan : Plan L tree begun s

module _ (L : Llvm) (tree : Stmts) where
  run-RunPlan :
      ModuleKeepsArena tree → Ensures (RunPlan L tree) Any ((init L >> compile L tree) blank)
  unfolding ◌>>=◌
  run-RunPlan k =
      after (RunPlan L tree) Any _ _
        ((init-Inv L).at blank (start-Inv arena_static blank refl blank-IsSound))
        λ _ s e h _.
          weaken (RunPlan L tree) Any _
            (compile-Ensures L tree s (Inv-InArena arena_static [] s h).2 h.arena_is k)
            λ _ t _ p. record { begun = s; created = e; created_static = h.tags; plan = p }

  -- Where the module nests no `def handle` in a function or a statement: if a new compiler returns
  -- from `compile`, then its run was that of `__init__`, visit_Module, the lookups of the handler's
  -- types, `handle`, the JSON declarations, `lambpie_init`, the declaration of `lambpie_handle` and
  -- its code, each from the state that the one before left. In the llvmlite calls of the code of
  -- `handle` and of `lambpie_handle`, each call instruction whose first argument is an i32 constant
  -- has the request arena there, and in those of every other step the static arena. All numbered
  -- globals of the module have different numbers.
  pub run_arenas :
      (s : State)
      → ModuleKeepsArena tree
      → (init L >> compile L tree) blank ≡ ok (tt, s)
      → RunPlan L tree s
  run_arenas s k e = (subst (Ensures (RunPlan L tree) Any) e (run-RunPlan k)).0
