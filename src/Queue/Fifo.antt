-- ===== src/Queue/Fifo.antt =====
-- Slice and Peek (dsa/queue/queue.go) read the list that the buffer holds, and Push and Pop change
-- what they read as a queue does.
use learn_go.Prelude.{
  ℕ, zero, suc, ◌+◌, ◌≡◌, refl, ap, ◌∙◌, sym, inl, max, true, false, Option, none, some, ◌>>=◌,
  List, [], ◌∷◌, ◌++◌, length, length-replicate, get_elem?, drop, arith, ◌==◌,
}
use learn_go.Prelude.Index.{drop_next, drop_all}
use learn_go.Queue.{Queue, new, rem, push, pop, peek, slice, slice_loop}
use learn_go.Queue.Ring.{Holds, spot, rem-spot, head_inside, pop-Holds, pop-none}
use learn_go.Queue.Growth.{push-Holds}

module _ {ℓ} {T : Type ℓ} where
  new-Holds : (z : T) (capacity : ℕ) → Holds (new z capacity) []
  unfolding new
  new-Holds z capacity =
      let wide = length-replicate (max 1 capacity) z in
      record {
        size = refl;
        fits = omega arith;
        head_in = inl (omega arith);
        tail_at = ground arith;
        placed = λ i k. absurd (omega arith);
      }

  slice_loop-drop :
      (q : Queue T) (xs : List T)
      → Holds q xs
      → (n i : ℕ) → i + n ≡ length xs
      → slice_loop q i n ≡ some (drop i xs)
  unfolding slice_loop
  slice_loop-drop q xs h zero i e = ap some (sym (drop_all xs i (omega arith)))
  slice_loop-drop q xs h (suc n) i e =
      let (v, here, rest) = drop_next xs i (omega arith) in
      let inside = head_inside q xs h (omega (arith, h.fits)) in
      let at : rem (q.head + i) (length q.items) ≡ some (spot (length q.items) (q.head + i)) =
        rem-spot (q.head + i) (length q.items) (omega arith) (omega (arith, h.fits)) in
      let next : i + 1 ≡ suc i = omega arith in
      let more = slice_loop-drop q xs h n (suc i) (omega arith) in
      rw (at, h.placed i (omega arith), here, next, more, rest) refl

  -- Slice copies the list that the buffer holds.
  pub slice-Holds : (q : Queue T) (xs : List T) → Holds q xs → slice q ≡ some xs
  unfolding slice
  slice-Holds q xs h = slice_loop-drop q xs h q.count 0 (omega (arith, h.size))

  abbrev pub first : List T → Option T
  first [] = none
  first (x ∷ xs) = some x

  abbrev pub others : List T → List T
  others [] = []
  others (x ∷ xs) = xs

  -- Pop never panics: it takes the first element of the list that the buffer holds, or answers
  -- that there is none.
  pub pop-first :
      (z : T) (q : Queue T) (xs : List T)
      → Holds q xs
      → (q' : Queue T) × (pop z q ≡ some (q', first xs)) × Holds q' (others xs)
  pop-first z q [] h = (q, pop-none z q h, h)
  pop-first z q (x ∷ xs) h = pop-Holds z q x xs h

  -- Peek reads the first element.
  pub peek-first : (q : Queue T) (xs : List T) → Holds q xs → peek q ≡ some (first xs)
  unfolding peek
  peek-first q [] h =
      let none_there : (q.count == 0) ≡ true = ground (arith, h.size) in rw none_there refl
  peek-first q (x ∷ xs) h =
      let some_there : (q.count == 0) ≡ false = ground (arith, h.size) in
      let inside = head_inside q (x ∷ xs) h (omega (arith, h.fits)) in
      let here : get_elem? q.items q.head ≡ some x =
        ap (get_elem? q.items) (ground arith) ∙ h.placed 0 (omega arith) in
      rw (some_there, here) refl

-- A client's calls, in order, with the answers of its pops.
pub data Call {ℓ} (T : Type ℓ) : Type ℓ where
  enqueue : T → Call T
  dequeue : Call T

module _ {ℓ} {T : Type ℓ} where
  pub run : T → List (Call T) → Queue T → Option (List (Option T))
  unfolding push pop
  run z [] q = some []
  run z (enqueue v ∷ calls) q = push z q v >>= λ q'. run z calls q'
  run z (dequeue ∷ calls) q = pop z q >>= λ (q', x). run z calls q' >>= λ xs. some (x ∷ xs)

  -- What a first-in-first-out queue that holds `xs` answers.
  pub promise : List (Call T) → List T → List (Option T)
  promise [] xs = []
  promise (enqueue v ∷ calls) xs = promise calls (xs ++ v ∷ [])
  promise (dequeue ∷ calls) xs = first xs ∷ promise calls (others xs)

  pub run-Holds :
      (z : T) (calls : List (Call T)) (q : Queue T) (xs : List T)
      → Holds q xs
      → run z calls q ≡ some (promise calls xs)
  unfolding run promise
  run-Holds z [] q xs h = refl
  run-Holds z (enqueue v ∷ calls) q xs h =
      let (q', done, held) = push-Holds z q xs v h in
      rw done (run-Holds z calls q' (xs ++ v ∷ []) held)
  run-Holds z (dequeue ∷ calls) q xs h =
      let (q', done, held) = pop-first z q xs h in
      let rest = run-Holds z calls q' (others xs) held in rw (done, rest) refl

  -- Whatever calls a client makes on a new queue, no call panics, and the pops answer what a
  -- first-in-first-out queue answers.
  pub run-promise :
      (z : T) (capacity : ℕ) (calls : List (Call T))
      → run z calls (new z capacity) ≡ some (promise calls [])
  run-promise z capacity calls = run-Holds z calls (new z capacity) [] (new-Holds z capacity)
