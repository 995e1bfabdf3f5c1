-- ===== src/Memory/Consistency.antt =====
-- `CollectionState` of src/sqllens/_memory_consistency.py. Each method body holds the lock, so a run
-- of several threads is a sequence of them. Only a `finish` that ends a `begin` is a step.
use sqllens.Prelude.{
  ℕ, suc, ◌+◌, ◌-◌, ◌<◌, ◌≡◌, refl, ◌↔◌, not, ◌||◌, arith, ltb, ◌==◌, if◌then◌else◌,
}
use sqllens.Prelude.Result.{Result, ok, err}

pub record CollectionState : Type 0 where
  pub generation : ℕ
  pub writers : ℕ

pub data MemoryChanged : Type 0 where
  memory_changed : MemoryChanged

abbrev pub initial : CollectionState
initial = record { generation = 0; writers = 0 }

-- `writing`, on entry and in its `finally`
unfoldable pub begin_writing : CollectionState → CollectionState
begin_writing s = record { generation = s.generation + 1; writers = s.writers + 1 }

unfoldable pub finish_writing : CollectionState → CollectionState
finish_writing s = record { generation = s.generation + 1; writers = s.writers - 1 }

unfoldable pub snapshot : CollectionState → Result MemoryChanged ℕ
snapshot s = if ltb 0 s.writers then err memory_changed else ok s.generation

unfoldable pub check : CollectionState → ℕ → Result MemoryChanged Unit
check s generation =
    if ltb 0 s.writers || not (s.generation == generation) then err memory_changed else ok tt

-- One managed write starts or ends; the others' reads change nothing.
pub data Step : CollectionState → CollectionState → Type 0 where
  begin : (s : CollectionState) → Step s (begin_writing s)
  finish : (s : CollectionState) → 0 < s.writers → Step s (finish_writing s)

-- What other threads do meanwhile, with the number of steps.
pub data Run (s : CollectionState) : CollectionState → ℕ → Type 0 where
  none_yet : Run s s 0
  more : {t u : CollectionState} {n : ℕ} → Run s t n → Step t u → Run s u (suc n)

Step-generation : {s t : CollectionState} → Step s t → t.generation ≡ s.generation + 1
unfolding begin_writing finish_writing
Step-generation (begin s) = refl
Step-generation (finish s h) = refl

pub Run-generation : {s t : CollectionState} {n : ℕ} → Run s t n → t.generation ≡ s.generation + n
Run-generation none_yet = omega arith
Run-generation (more r st) = omega (arith, Run-generation r, Step-generation st)

Run-zero : {s t : CollectionState} {n : ℕ} → Run s t n → n ≡ 0 → t ≡ s
Run-zero none_yet h = refl
Run-zero (more r st) h = absurd (omega arith)

-- A listing that took a snapshot passes its check exactly if no managed write started or ended in
-- between, in whatever order other threads ran; then the state is the one it started from.
pub check-snapshot :
    (s t : CollectionState) (n g : ℕ)
    → snapshot s ≡ ok g
    → Run s t n
    → (check t g ≡ ok tt) ↔ (n ≡ 0)
unfolding snapshot check
check-snapshot s t n g h r =
    ((λ c. ground (arith, Run-generation r)), (λ z. rw (Run-zero r z) (ground arith)))

-- While a write is open, no snapshot can be taken and no earlier one passes.
pub open_write_blocks :
    (s : CollectionState) (g : ℕ)
    → (snapshot (begin_writing s) ≡ err memory_changed)
      × (check (begin_writing s) g ≡ err memory_changed)
unfolding snapshot check begin_writing
open_write_blocks s g = ground arith
