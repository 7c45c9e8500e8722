-- ===== src/Compiler/Correct/Machine.antt =====
-- Pieces of code that the machine of src/mvm_vm.c runs. Temporary values lie on top of a stack,
-- and the innermost frame goes from one place of its code to another.
use myon.Base.{
  ℕ, zero, suc, ◌+◌, ◌*◌, ◌<◌, ◌≡◌, refl, ap, ◌∙◌, false, List, [], ◌∷◌, ◌++◌, ltb, leb,
  if◌then◌else◌, Bool-cases, inl, inr, Bytes, length, length-append, get_or, arith,
}
use myon.Value.{Value}
use myon.Interp.Operators.{FloatOps}
use myon.Mvm.{Module}
use myon.Mvm.Emit.{read_u16}
use myon.Vm.State.{Frame, Vm, went, vm_push, grown_cap, mvm_stack_max}
use myon.Vm.Calls.{running}
use myon.Vm.Run.{exec, step, run, going}

get_or-append_right :
    (xs ys : Bytes) (i k : ℕ) → i ≡ length xs + k → get_or (xs ++ ys) i 0 ≡ get_or ys k 0
get_or-append_right [] ys i k e =
    let same : i ≡ k = omega arith in ap (λ (n : ℕ). get_or ys n 0) same
get_or-append_right (x ∷ xs) ys zero k e = omega arith
get_or-append_right (x ∷ xs) ys (suc i) k e = get_or-append_right xs ys i k (omega arith)

-- What the code of a frame holds `k` bytes behind a part of it.
fetch_at :
    (code pre rest : Bytes) (i k : ℕ)
    → code ≡ pre ++ rest
    → i ≡ length pre + k
    → get_or code i 0 ≡ get_or rest k 0
fetch_at code pre rest i k h e = rw h (get_or-append_right pre rest i k e)

pub fetch :
    (code pre rest : Bytes) (op : ℕ) → code ≡ pre ++ (op ∷ rest) → get_or code (length pre) 0 ≡ op
fetch code pre rest op h = fetch_at code pre (op ∷ rest) (length pre) 0 h (omega arith)

pub fetch_u16 :
    (code pre rest : Bytes) (op lo hi : ℕ)
    → code ≡ pre ++ (op ∷ lo ∷ hi ∷ rest)
    → read_u16 code (suc (length pre)) ≡ lo + 256 * hi
unfolding read_u16
fetch_u16 code pre rest op lo hi h = omega (
  arith,
  fetch_at code pre (op ∷ lo ∷ hi ∷ rest) (suc (length pre)) 1 h (omega arith),
  fetch_at code pre (op ∷ lo ∷ hi ∷ rest) (suc (length pre) + 1) 2 h (omega arith),
)

-- The capacity behind a push.
abbrev pub cap_after : ℕ → ℕ → ℕ
cap_after size capacity = if ltb size capacity then capacity else grown_cap capacity

-- Some number of rounds leads from one state to the other.
pub data Reaches (fl : FloatOps) (m : Module) : Vm → Vm → Type 0 where
  stay : (a : Vm) → Reaches fl m a a
  round : (a b c : Vm) → step fl m a ≡ went (running b) → Reaches fl m b c → Reaches fl m a c

pub Reaches-trans :
    (fl : FloatOps) (m : Module) {a b c : Vm}
    → Reaches fl m a b
    → Reaches fl m b c
    → Reaches fl m a c
Reaches-trans fl m (stay a) r = r
Reaches-trans fl m (round a b c e q) r = round a b _ e (Reaches-trans fl m q r)

pub Reaches-one :
    (fl : FloatOps) (m : Module) (a b : Vm) → step fl m a ≡ went (running b) → Reaches fl m a b
Reaches-one fl m a b e = round a b b e (stay b)

pub run-Reaches :
    (fl : FloatOps) (m : Module) {a b : Vm}
    → Reaches fl m a b
    → (n : ℕ) × (run fl m n a ≡ went (running b))
unfolding run
run-Reaches fl m (stay a) = (0, refl)
run-Reaches fl m (round a b c e q) = let (n, h) = run-Reaches fl m q in (suc n, rw e h)

module _ (fl : FloatOps) (m : Module) (f : Frame) (callers : List Frame) (vm : Vm) where
  -- The machine at a place of the code, with temporary values on its stack.
  abbrev pub at_place : ℕ → List Value → ℕ → Vm
  at_place ip temps capacity = record vm {
    stack = temps ++ vm.stack;
    stack_cap = capacity;
    frames = record f { ip = ip } ∷ callers;
  }

  -- Room for `n` more values.
  abbrev pub Room : List Value → ℕ → Type 0
  Room temps n = length temps + length vm.stack + n < mvm_stack_max

  pub push-at_place :
      (ip : ℕ) (temps : List Value) (capacity : ℕ) (v : Value)
      → Room temps 0
      → vm_push (at_place ip temps capacity) v
        ≡ went (at_place ip (v ∷ temps) (cap_after (length (temps ++ vm.stack)) capacity))
  unfolding vm_push
  push-at_place ip temps capacity v room =
      let size : length (temps ++ vm.stack) < mvm_stack_max =
        omega (arith, length-append temps vm.stack) in
      elim (Bool-cases (ltb (length (temps ++ vm.stack)) capacity)) [
        | inl fits ↦ rw fits refl
        | inr full ↦
            let below : leb mvm_stack_max capacity ≡ false = ground arith in rw (full, below) refl
      ]

  -- One round, by the instruction at the place.
  pub round_at :
      (pre : Bytes) (temps : List Value) (capacity op : ℕ) (rest : Bytes) (o : Vm)
      → f.chunk.code ≡ pre ++ (op ∷ rest)
      → exec fl m
          (record f { ip = length pre })
          op
          (suc (length pre))
          (at_place (length pre) temps capacity)
        ≡ went (running o)
      → Reaches fl m (at_place (length pre) temps capacity) o
  round_at pre temps capacity op rest o h e =
      Reaches-one fl m _ o (rw (fetch f.chunk.code pre rest op h) e)

  -- An instruction that takes values off and pushes `v`, and goes on at `next`.
  pub pushed_at :
      (pre : Bytes) (before temps : List Value) (capacity op next : ℕ) (rest : Bytes) (v : Value)
      → f.chunk.code ≡ pre ++ (op ∷ rest)
      → Room temps 0
      → exec fl m
          (record f { ip = length pre })
          op
          (suc (length pre))
          (at_place (length pre) before capacity)
        ≡ going (vm_push (at_place next temps capacity) v)
      → Reaches fl m
          (at_place (length pre) before capacity)
          (at_place next (v ∷ temps) (cap_after (length (temps ++ vm.stack)) capacity))
  pushed_at pre before temps capacity op next rest v h room e =
      round_at pre before capacity op rest _ h
        (e ∙ ap going (push-at_place next temps capacity v room))

  -- Where the piece of code stands, it leads from the values `ws` on top of a stack that has room to
  -- the values `us` there.
  abbrev pub Carries : Bytes → List Value → List Value → Type 0
  Carries seg ws us =
      (pre post : Bytes) (temps : List Value) (capacity : ℕ)
      → f.chunk.code ≡ pre ++ (seg ++ post)
      → Room temps (length ws + length seg)
      → (capacity' : ℕ) × Reaches fl m (at_place (length pre) (ws ++ temps) capacity)
          (at_place (length pre + length seg) (us ++ temps) capacity')

  abbrev pub Pushes : Bytes → Value → Type 0
  Pushes seg v = Carries seg [] (v ∷ [])
