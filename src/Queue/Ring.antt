-- ===== src/Queue/Ring.antt =====
-- The ring buffer of dsa/queue/queue.go holds a list: its invariant, and the operations on it.
use learn_go.Prelude.{
  ℕ, zero, suc, ◌+◌, ◌-◌, ◌%◌, ◌≤◌, ◌<◌, ◌≡◌, ◌≢◌, refl, ap, ◌∙◌, sym, ◌⊎◌, inl, inr, true, false,
  none, some, List, [], ◌∷◌, ◌++◌, length, length-append, get_elem?, set, length-set,
  get_elem?-set_self, get_elem?-set_ne, arith, if◌then◌else◌, ltb, ◌==◌, lt_or_ge, lt→ltb,
}
use learn_go.Prelude.Index.{get_elem?-append_left, get_elem?-append_end}
use native.Mathlib.Nat.{mod-eq_of_lt, add-mod_right}
use learn_go.Queue.{Queue, rem, push_back, pop}

-- Where the place `i` of a ring of `cap` slots is, for a place less than twice around.
abbrev pub spot : ℕ → ℕ → ℕ
spot cap i = if ltb i cap then i else i - cap

pub rem-spot : (i n : ℕ) → 0 < n → i < n + n → rem i n ≡ some (spot n i)
rem-spot i zero h k = absurd (omega arith)
rem-spot i (suc n) h k = elim (lt_or_ge i (suc n)) [
  | inl first ↦ ap some (mod-eq_of_lt first ∙ ground arith)
  | inr again ↦
      let less : i - suc n < suc n = omega arith in
      let back : i - suc n + suc n ≡ i = omega arith in
      ap some (
        ap (λ j. j % suc n) (sym back)
        ∙ (add-mod_right (i - suc n) (suc n) ∙ (mod-eq_of_lt less ∙ ground arith)))
]

module _ {ℓ} {T : Type ℓ} where
  -- The buffer holds the elements `xs`, from the head on around.
  pub record Holds (q : Queue T) (xs : List T) : Type ℓ where
    pub size : q.count ≡ length xs
    pub fits : length xs ≤ length q.items
    pub head_in : (q.head < length q.items) ⊎ ((length q.items ≡ 0) × (q.head ≡ 0))
    pub tail_at : q.tail ≡ spot (length q.items) (q.head + length xs)
    pub placed :
        (i : ℕ)
        → i < length xs
        → get_elem? q.items (spot (length q.items) (q.head + i)) ≡ get_elem? xs i

  pub head_inside :
      (q : Queue T) (xs : List T) → Holds q xs → 0 < length q.items → q.head < length q.items
  head_inside q xs h room = omega (arith, h.head_in)

  tail_inside :
      (q : Queue T) (xs : List T)
      → Holds q xs
      → length xs < length q.items
      → q.tail < length q.items
  tail_inside q xs h room =
      let inside = head_inside q xs h (omega arith) in ground (arith, h.tail_at)

  spots_differ :
      (q : Queue T) (xs : List T)
      → Holds q xs
      → length xs < length q.items
      → (i : ℕ) → i < length xs
      → q.tail ≢ spot (length q.items) (q.head + i)
  spots_differ q xs h room i k e =
      let inside = head_inside q xs h (omega arith) in ground (arith, h.tail_at)

  place_last :
      (q : Queue T) (xs : List T) (v : T)
      → Holds q xs
      → length xs < length q.items
      → (i : ℕ) → i ≤ length xs
      → get_elem? (set q.items q.tail v) (spot (length q.items) (q.head + i))
        ≡ get_elem? (xs ++ v ∷ []) i
  place_last q xs v h room i k = elim (lt_or_ge i (length xs)) [
    | inl older ↦
        get_elem?-set_ne q.items v (spots_differ q xs h room i older)
        ∙ (h.placed i older ∙ sym (get_elem?-append_left xs (v ∷ []) i older))
    | inr newest ↦
        let at : i ≡ length xs = omega arith in
        let at_tail : q.tail ≡ spot (length q.items) (q.head + i) = rw at h.tail_at in
        ap (get_elem? (set q.items q.tail v)) (sym at_tail)
        ∙ (get_elem?-set_self q.items q.tail v (tail_inside q xs h room)
            ∙ sym (get_elem?-append_end xs v i at))
  ]

  -- A push into a buffer with room.
  pub push_back-Holds :
      (q : Queue T) (xs : List T) (v : T)
      → Holds q xs
      → length xs < length q.items
      → (q' : Queue T) × (push_back q v ≡ some q') × Holds q' (xs ++ v ∷ [])
  unfolding push_back
  push_back-Holds q xs v h room =
      let cap = length q.items in
      let inside : q.head < cap = head_inside q xs h (omega arith) in
      let at_tail : q.tail < cap = tail_inside q xs h room in
      let next : rem (q.tail + 1) cap ≡ some (spot cap (q.tail + 1)) =
        rem-spot (q.tail + 1) cap (omega arith) (omega arith) in
      let same = length-set q.items q.tail v in
      let longer = length-append xs (v ∷ []) in
      (
        record {
          items = set q.items q.tail v;
          head = q.head;
          tail = spot cap (q.tail + 1);
          count = q.count + 1;
        },
        rw (lt→ltb q.tail cap at_tail, next) refl,
        record {
          size = omega (arith, h.size);
          fits = omega arith;
          head_in = inl (omega arith);
          tail_at = rw same (ground (arith, h.tail_at));
          placed = λ i k. rw same (place_last q xs v h room i (omega arith));
        },
      )

  place_rest :
      (q : Queue T) (x : T) (xs : List T) (z : T)
      → Holds q (x ∷ xs)
      → (i : ℕ) → i < length xs
      → get_elem?
          (set q.items q.head z)
          (spot (length q.items) (spot (length q.items) (q.head + 1) + i))
        ≡ get_elem? xs i
  place_rest q x xs z h i k =
      let cap = length q.items in
      let inside = head_inside q (x ∷ xs) h (omega (arith, h.fits)) in
      let same : spot cap (spot cap (q.head + 1) + i) ≡ spot cap (q.head + suc i) =
        ground (arith, h.fits) in
      let other : q.head ≢ spot cap (q.head + suc i) = λ e. ground (arith, h.fits) in
      rw same (get_elem?-set_ne q.items z other ∙ h.placed (suc i) (omega arith))

  -- A pop from a buffer that is not empty.
  pub pop-Holds :
      (z : T) (q : Queue T) (x : T) (xs : List T)
      → Holds q (x ∷ xs)
      → (q' : Queue T) × (pop z q ≡ some (q', some x)) × Holds q' xs
  unfolding pop
  pop-Holds z q x xs h =
      let cap = length q.items in
      let inside : q.head < cap = head_inside q (x ∷ xs) h (omega (arith, h.fits)) in
      let next : rem (q.head + 1) cap ≡ some (spot cap (q.head + 1)) =
        rem-spot (q.head + 1) cap (omega arith) (omega arith) in
      let same = length-set q.items q.head z in
      let here : get_elem? q.items q.head ≡ some x =
        ap (get_elem? q.items) (ground arith) ∙ h.placed 0 (omega arith) in
      let some_left : (q.count == 0) ≡ false = ground (arith, h.size) in
      (
        record {
          items = set q.items q.head z;
          head = spot cap (q.head + 1);
          tail = q.tail;
          count = q.count - 1;
        },
        rw (some_left, here, lt→ltb q.head cap inside, next) refl,
        record {
          size = omega (arith, h.size);
          fits = omega (arith, h.fits);
          head_in = inl (ground arith);
          tail_at = rw same (ground (arith, h.tail_at, h.fits));
          placed = λ i k. rw same (place_rest q x xs z h i k);
        },
      )

  pub pop-none : (z : T) (q : Queue T) → Holds q [] → pop z q ≡ some (q, none)
  unfolding pop
  pop-none z q h =
      let no_elements : (q.count == 0) ≡ true = ground (arith, h.size) in rw no_elements refl
