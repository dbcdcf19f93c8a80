-- ===== src/Queue/Tests.antt =====
-- Runs of dsa/queue/queue.go over numbers, and its theorems at a concrete buffer.
use learn_go.Prelude.{
  ℕ, zero, suc, ◌+◌, ◌<◌, get_elem?, ◌≡◌, refl, inl, some, List, [], ◌∷◌, ◌>>=◌, arith, leb, ◌==◌,
}
use learn_go.Queue.{Queue, new, push, peek, slice, remove_at, remove_func, search_and_remove}
use learn_go.Queue.Ring.{Holds, spot}
use learn_go.Queue.Removal.{remove_index, remove_at-Holds}
use learn_go.Prelude.Match.{taken, left}
use learn_go.Queue.Matching.{remove_func-Holds}
use learn_go.Queue.Fifo.{Call, enqueue, dequeue, run, promise, run-promise}

-- A full buffer whose elements straddle its end.
abbrev wrapped : Queue ℕ
wrapped = record { items = 30 ∷ 10 ∷ 20 ∷ []; head = 1; tail = 1; count = 3 }

wrapped_places :
    (i : ℕ) → i < 3 → get_elem? wrapped.items (spot 3 (1 + i)) ≡ get_elem? (10 ∷ 20 ∷ 30 ∷ []) i
wrapped_places zero h = refl
wrapped_places (suc zero) h = refl
wrapped_places (suc (suc zero)) h = refl
wrapped_places (suc (suc (suc i))) h = absurd (omega arith)

wrapped-Holds : Holds wrapped (10 ∷ 20 ∷ 30 ∷ [])
wrapped-Holds = record {
  size = refl;
  fits = omega arith;
  head_in = inl (omega arith);
  tail_at = refl;
  placed = wrapped_places;
}

grown : (push 0 wrapped 40 >>= slice) ≡ some (10 ∷ 20 ∷ 30 ∷ 40 ∷ [])
unfolding push slice
grown = refl

abbrev calls : List (Call ℕ)
calls = enqueue 1 ∷ enqueue 2 ∷ dequeue ∷ enqueue 3 ∷ dequeue ∷ dequeue ∷ dequeue ∷ []

run-promise_example : run 0 calls (new 0 1) ≡ some (promise calls [])
run-promise_example = run-promise 0 1 calls

remove_at-Holds_example :
    (q : Queue ℕ) × (v : ℕ) × (remove_at 0 wrapped 1 ≡ some (q, v))
    × (get_elem? (10 ∷ 20 ∷ 30 ∷ []) 1 ≡ some v)
    × Holds q (remove_index (10 ∷ 20 ∷ 30 ∷ []) 1)
remove_at-Holds_example =
    remove_at-Holds 0 wrapped (10 ∷ 20 ∷ 30 ∷ []) 1 wrapped-Holds (omega arith)

remove_func-Holds_example :
    (q : Queue ℕ) × (remove_func 0 (leb 20) wrapped ≡ some (q, taken (leb 20) (10 ∷ 20 ∷ 30 ∷ [])))
    × Holds q (left (leb 20) (10 ∷ 20 ∷ 30 ∷ []))
remove_func-Holds_example = remove_func-Holds (leb 20) 0 wrapped (10 ∷ 20 ∷ 30 ∷ []) wrapped-Holds

removed : (search_and_remove 0 ◌==◌ 20 wrapped >>= λ (q, v). slice q) ≡ some (10 ∷ 30 ∷ [])
unfolding search_and_remove slice
removed = refl

peek-first_run : peek wrapped ≡ some (some 10)
unfolding peek
peek-first_run = refl
