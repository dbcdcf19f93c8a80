-- ===== src/Queue/Removal.antt =====
-- removeAt and RemoveFunc (dsa/queue/queue.go) against the list that the buffer holds.
use learn_go.Prelude.{
  ℕ, zero, suc, ◌+◌, ◌-◌, ◌≤◌, ◌<◌, ◌≡◌, ◌≢◌, refl, ap, ◌∙◌, sym, ◌⊎◌, inl, inr, true, some, List,
  ◌++◌, length, length-append, length-take, length-drop, length-set, get_elem?-set_self,
  get_elem?-set_ne, get_elem?, set, take, drop, arith, ltb, lt→ltb, lt_or_ge,
}
use learn_go.Prelude.Index.{
  get_elem?-append_left, get_elem?-append_right, get_elem?-take, get_elem?-drop, drop_next,
}
use learn_go.Queue.{Queue, rem, shift_loop, remove_at}
use learn_go.Queue.Ring.{Holds, spot, rem-spot, head_inside}

module _ {ℓ} {T : Type ℓ} where
  abbrev with_items : Queue T → List T → Queue T
  with_items q items = record { items = items; head = q.head; tail = q.tail; count = q.count }

  places_apart :
      (q : Queue T) (xs : List T)
      → Holds q xs
      → (i j : ℕ) → i < length xs
      → j < length xs
      → i < j ⊎ j < i
      → spot (length q.items) (q.head + i) ≢ spot (length q.items) (q.head + j)
  places_apart q xs h i j k l d e =
      let inside = head_inside q xs h (omega (arith, h.fits)) in ground (arith, h.fits)

  -- A write to the slot of an element is a write to the list.
  set-Holds :
      (q : Queue T) (xs : List T)
      → Holds q xs
      → (j : ℕ) (v : T) → j < length xs
      → Holds (with_items q (set q.items (spot (length q.items) (q.head + j)) v)) (set xs j v)
  set-Holds q xs h j v l =
      let cap = length q.items in
      let same = length-set q.items (spot cap (q.head + j)) v in
      let same' = length-set xs j v in
      record {
        size = h.size ∙ sym same';
        fits = omega (arith, h.fits);
        head_in = rw same h.head_in;
        tail_at = rw (same, same') h.tail_at;
        placed = λ i k. rw same (place i (omega arith));
      }
    where
      inside : q.head < length q.items
      inside = head_inside q xs h (omega (arith, h.fits))

      place :
          (i : ℕ)
          → i < length xs
          → get_elem?
              (set q.items (spot (length q.items) (q.head + j)) v)
              (spot (length q.items) (q.head + i))
            ≡ get_elem? (set xs j v) i
      place i k = elim (lt_or_ge i j) [
        | inl less ↦
            get_elem?-set_ne q.items v (places_apart q xs h j i l k (inr less))
            ∙ (h.placed i k ∙ sym (get_elem?-set_ne xs v (λ e. omega arith)))
        | inr more ↦ elim (lt_or_ge j i) [
          | inl less ↦
              get_elem?-set_ne q.items v (places_apart q xs h j i l k (inl less))
              ∙ (h.placed i k ∙ sym (get_elem?-set_ne xs v (λ e. omega arith)))
          | inr less ↦
              let at : i ≡ j = omega arith in
              rw at (
                get_elem?-set_self q.items (spot (length q.items) (q.head + j)) v
                  (ground (arith, h.fits, inside))
                ∙ sym (get_elem?-set_self xs j v l))
        ]
      ]

  -- `ys` is `xs` with the `n` elements behind the place `j` moved to the front by one.
  record IsShifted (xs ys : List T) (j n : ℕ) : Type ℓ where
    size : length ys ≡ length xs
    kept : (k : ℕ) → k < j → get_elem? ys k ≡ get_elem? xs k
    moved : (k : ℕ) → j ≤ k → k < j + n → get_elem? ys k ≡ get_elem? xs (suc k)

  moved_here :
      (xs : List T) (j : ℕ) (v : T) (k : ℕ)
      → k ≡ j
      → j < length xs
      → get_elem? xs (j + 1) ≡ some v
      → get_elem? (set xs j v) k ≡ get_elem? xs (suc k)
  moved_here xs j v k e l here =
      let next : suc j ≡ j + 1 = omega arith in rw (e, next, here) (get_elem?-set_self xs j v l)

  shift_loop-IsShifted :
      (n j : ℕ) (q : Queue T) (xs : List T)
      → Holds q xs
      → j + n < length xs
      → (items : List T) × (ys : List T) × (shift_loop q.head q.items j n ≡ some items)
        × Holds (with_items q items) ys
        × IsShifted xs ys j n
  unfolding shift_loop
  shift_loop-IsShifted zero j q xs h l = (
    q.items,
    xs,
    refl,
    h,
    record { size = refl; kept = λ k m. refl; moved = λ k m o. absurd (omega arith) },
  )
  shift_loop-IsShifted (suc n) j q xs h l =
      let cap = length q.items in
      let inside = head_inside q xs h (omega (arith, h.fits)) in
      let at : rem (q.head + (j + 1)) cap ≡ some (spot cap (q.head + (j + 1))) =
        rem-spot (q.head + (j + 1)) cap (omega arith) (omega (arith, h.fits)) in
      let to : rem (q.head + j) cap ≡ some (spot cap (q.head + j)) =
        rem-spot (q.head + j) cap (omega arith) (omega (arith, h.fits)) in
      let fine : spot cap (q.head + j) < cap = ground (arith, h.fits) in
      let (v, here, tail) = drop_next xs (j + 1) (omega arith) in
      let (items, ys, done, held, shifted) =
        shift_loop-IsShifted n (j + 1) (with_items q (set q.items (spot cap (q.head + j)) v))
          (set xs j v) (set-Holds q xs h j v (omega arith)) (omega (arith, length-set xs j v)) in
      (
        items,
        ys,
        rw (at, to, h.placed (j + 1) (omega arith), here, lt→ltb _ cap fine) done,
        held,
        record {
          size = shifted.size ∙ length-set xs j v;
          kept = λ k m. shifted.kept k (omega arith) ∙ get_elem?-set_ne xs v (λ e. omega arith);
          moved = λ k m o. elim (lt_or_ge j k) [
            | inl less ↦
                shifted.moved k (omega arith) (omega arith)
                ∙ get_elem?-set_ne xs v (λ e. omega arith)
            | inr same ↦
                shifted.kept k (omega arith) ∙ moved_here xs j v k (omega arith) (omega arith) here
          ];
        },
      )

  abbrev pub remove_index : List T → ℕ → List T
  remove_index xs i = take i xs ++ drop (suc i) xs

  length-remove_index :
      (xs : List T) (i : ℕ) → i < length xs → length (remove_index xs i) ≡ length xs - 1
  length-remove_index xs i l =
      omega (
        arith,
        length-append (take i xs) (drop (suc i) xs),
        length-take i xs,
        length-drop (suc i) xs,
      )

  shifted-remove_index :
      (xs ys : List T) (i n k : ℕ)
      → IsShifted xs ys i n
      → i + n + 1 ≡ length xs
      → k < i + n
      → get_elem? ys k ≡ get_elem? (remove_index xs i) k
  shifted-remove_index xs ys i n k s e l =
      let front : length (take i xs) ≡ i = omega (arith, length-take i xs) in
      elim (lt_or_ge k i) [
        | inl less ↦
            s.kept k less
            ∙ sym (
                get_elem?-append_left (take i xs) (drop (suc i) xs) k (omega arith)
                ∙ get_elem?-take i xs k less)
        | inr more ↦
            s.moved k more l
            ∙ sym (
                get_elem?-append_right (take i xs) (drop (suc i) xs) k (omega arith)
                ∙ (get_elem?-drop (suc i) xs (k - length (take i xs))
                    ∙ ap (get_elem? xs) (omega arith)))
      ]

  -- The end of removeAt: the last slot is cleared and left.
  forget_last :
      (q : Queue T) (ys zs : List T) (z : T)
      → Holds q ys
      → length zs + 1 ≡ length ys
      → ((k : ℕ) → k < length zs → get_elem? ys k ≡ get_elem? zs k)
      → Holds
          (record {
            items = set q.items (spot (length q.items) (q.head + length zs)) z;
            head = q.head;
            tail = spot (length q.items) (q.head + length zs);
            count = q.count - 1;
          })
          zs
  forget_last q ys zs z h e f =
      let same = length-set q.items (spot (length q.items) (q.head + length zs)) z in
      record {
        size = omega (arith, h.size);
        fits = omega (arith, h.fits);
        head_in = rw same h.head_in;
        tail_at = rw same refl;
        placed = λ k l. rw same (
            get_elem?-set_ne q.items z
              (places_apart q ys h (length zs) k (omega arith) (omega arith) (inr l))
            ∙ (h.placed k (omega arith) ∙ f k l));
      }

  last_spot :
      (q : Queue T) (ys : List T) (m : ℕ)
      → Holds q ys
      → m + 1 ≡ length ys
      → (rem (q.head + q.count - 1) (length q.items) ≡ some (spot (length q.items) (q.head + m)))
        × (ltb (spot (length q.items) (q.head + m)) (length q.items) ≡ true)
  last_spot q ys m h e =
      let inside = head_inside q ys h (omega (arith, h.fits)) in
      let at : q.head + q.count - 1 ≡ q.head + m = omega (arith, h.size) in
      (
        ap (λ i. rem i (length q.items)) at
            ∙ rem-spot (q.head + m) (length q.items) (omega arith) (omega (arith, h.fits)),
        ground (arith, h.fits),
      )

  remove_end :
      (z : T) (q : Queue T) (xs : List T) (i : ℕ) (items ys : List T)
      → Holds q xs
      → i < length xs
      → shift_loop q.head q.items i (q.count - 1 - i) ≡ some items
      → Holds (with_items q items) ys
      → IsShifted xs ys i (q.count - 1 - i)
      → (q' : Queue T) × (v : T) × (remove_at z q i ≡ some (q', v))
        × (get_elem? xs i ≡ some v)
        × Holds q' (remove_index xs i)
  unfolding remove_at
  remove_end z q xs i items ys h l done held shifted =
      let m = length (remove_index xs i) in
      let less = length-remove_index xs i l in
      let (v, here, tail) = drop_next xs i l in
      let inside = head_inside q xs h (omega (arith, h.fits)) in
      let at : rem (q.head + i) (length q.items) ≡ some (spot (length q.items) (q.head + i)) =
        rem-spot (q.head + i) (length q.items) (omega arith) (omega (arith, h.fits)) in
      let (final, fine) = last_spot (with_items q items) ys m held (omega (arith, shifted.size)) in
      (
        record {
          items = set items (spot (length items) (q.head + m)) z;
          head = q.head;
          tail = spot (length items) (q.head + m);
          count = q.count - 1;
        },
        v,
        rw (at, h.placed i l, here, done, final, fine) refl,
        here,
        forget_last (with_items q items) ys (remove_index xs i) z held (omega (arith, shifted.size))
            (λ k b.
              shifted-remove_index xs ys i (q.count - 1 - i) k shifted (omega (arith, h.size))
                (omega (arith, h.size))),
      )

  -- removeAt within the queue never panics: it returns the element at the index, and the queue
  -- holds the others in their order.
  pub remove_at-Holds :
      (z : T) (q : Queue T) (xs : List T) (i : ℕ)
      → Holds q xs
      → i < length xs
      → (q' : Queue T) × (v : T) × (remove_at z q i ≡ some (q', v))
        × (get_elem? xs i ≡ some v)
        × Holds q' (remove_index xs i)
  remove_at-Holds z q xs i h l =
      let (items, ys, done, held, shifted) =
        shift_loop-IsShifted (q.count - 1 - i) i q xs h (omega (arith, h.size)) in
      remove_end z q xs i items ys h l done held shifted
