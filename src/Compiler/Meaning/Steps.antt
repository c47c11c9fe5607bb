-- ===== src/Compiler/Meaning/Steps.antt =====
-- One instruction of an integer expression, and the sequence of two actions.
use lambpie.Common.{Option, ℕ, suc, ◌≡◌, ◌∙◌, String, Bool, true, some, length, arith}
use lambpie.Common.Dict.{lookup}
use lambpie.Llvm.{pointer_type, Obj, result, constant, Instr, build, Log, Llvm}
use lambpie.Compiler.Monad.{
  or_raise, attribute_error, State, Result, ok, err, M, continue, instr, ◌>>=◌, emit,
}
use lambpie.Compiler.Meaning.Machine.{Machine, i64, IsBefore, IsPure, next, new}

IsBefore-suc : (n : ℕ) (o : Obj) → IsBefore n o → IsBefore (suc n) o
IsBefore-suc n (constant t v) h = tt
IsBefore-suc n (result k) h = omega (arith, h)
IsBefore-suc n _ h = absurd h

-- a state in the middle of a function that has the builder `b` and whose local variables `declared`,
-- all of type int, have the values `env`
module _ (L : Llvm) (K : Machine L) (declared : String → Bool) (env : String → ℕ) (b : Obj) where
  pub record Slot (s : State) (id : String) : Type 0 where
    pub slot : Obj
    pub bound : lookup id s.local_scope ≡ some slot
    pub before : IsBefore (length s.log) slot
    pub pointer : L.type_of s.log slot ≡ some (pointer_type i64)
    pub content : K.memory s.log slot ≡ env id

  pub record IsReady (s : State) : Type 0 where
    pub int_is : lookup "int" s.types ≡ some i64
    pub builder_is : s.builder ≡ some b
    pub slots : (id : String) → declared id ≡ true → Slot s id

  -- The object `o` is an i64 of value `v`.
  pub record Holds (log : Log) (o : Obj) (v : ℕ) : Type 0 where
    pub before : IsBefore (length log) o
    pub typed : L.type_of log o ≡ some i64
    pub valued : K.value log o ≡ v

  -- From `s`, the action returned `o` of value `v`, and what had a value before has it still.
  pub record Computed (s : State) (v : ℕ) (o : Obj) (s' : State) : Type 0 where
    pub ready : IsReady s'
    pub holds : Holds s'.log o v
    pub kept : (p : Obj) (w : ℕ) → Holds s.log p w → Holds s'.log p w

  -- It returns, and so does not raise.
  abbrev pub Computes : State → ℕ → Result (Obj × State) → Type 0
  Computes s v (ok (o, s')) = Computed s v o s'
  Computes s v (err e) = ⊥

module _ {L : Llvm} (K : Machine L) {declared : String → Bool} {env : String → ℕ} {b : Obj} where
  Holds-next :
      (log : Log) (i : Instr) (p : Obj) (w : ℕ)
      → Holds L K declared env b log p w
      → Holds L K declared env b (next b i log) p w
  Holds-next log i p w h = record {
    before = IsBefore-suc _ p h.before;
    typed = K.type_kept log b i p i64 h.typed;
    valued = K.value_kept log b i p h.before ∙ h.valued;
  }

  IsReady-next :
      (s : State) (i : Instr)
      → IsPure i
      → IsReady L K declared env b s
      → IsReady L K declared env b (record s { log = next b i s.log })
  IsReady-next s i pure h = record {
    int_is = h.int_is;
    builder_is = h.builder_is;
    slots = λ id d.
        let v = h.slots id d in
        record {
          slot = v.slot;
          bound = v.bound;
          before = IsBefore-suc _ v.slot v.before;
          pointer = K.type_kept s.log b i v.slot _ v.pointer;
          content = K.memory_kept s.log b i v.slot pure ∙ v.content;
        };
  }

  -- an instruction that llvmlite accepts and that leaves an i64 of value `v`
  pub instr-Computes :
      (s : State) (i : Instr) (v : ℕ)
      → IsReady L K declared env b s
      → IsPure i
      → L.accepts s.log (build b i) ≡ true
      → L.type_of (next b i s.log) (new s.log) ≡ some i64
      → K.value (next b i s.log) (new s.log) ≡ v
      → Computes L K declared env b s v (instr L i s)
  unfolding instr emit ◌>>=◌
  instr-Computes s i v h pure good typed valued = built s.builder h.builder_is
    where
      built :
          (o : Option Obj)
          → o ≡ some b
          → Computes L K declared env b s v
              (continue (or_raise attribute_error o s) (λ c. emit L (build c i)))
      built o e = rw e (
          rw good record {
            ready = IsReady-next s i pure h;
            holds = record { before = omega arith; typed = typed; valued = valued };
            kept = λ p w k. Holds-next s.log i p w k;
          })

  -- an action after an expression's
  pub bind-Computes :
      (s : State) (v w : ℕ) (r : Result (Obj × State)) (f : Obj → M Obj)
      → Computes L K declared env b s v r
      → ((o : Obj) (s' : State)
          → Computed L K declared env b s v o s'
          → Computes L K declared env b s' w (f o s'))
      → Computes L K declared env b s w (continue r f)
  bind-Computes s v w (err e) f h k = absurd h
  bind-Computes s v w (ok (o, s')) f h k = joined (f o s') (k o s' h)
    where
      joined :
          (r : Result (Obj × State))
          → Computes L K declared env b s' w r
          → Computes L K declared env b s w r
      joined (err e) j = absurd j
      joined (ok (o', t)) j = record {
        ready = j.ready;
        holds = j.holds;
        kept = λ p u q. j.kept p u (h.kept p u q);
      }
