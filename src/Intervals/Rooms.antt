-- ===== src/Intervals/Rooms.antt =====
-- MinRooms (dsa/patterns/intervals/intervals.go): the sweep over the events.
use learn_go.Prelude.{
  ℕ, suc, ◌+◌, ◌-◌, ◌*◌, ◌≤◌, ◌<◌, ◌≡◌, refl, ◌⊎◌, inl, inr, max, false, List, [], ◌∷◌,
  if◌then◌else◌, leb, ltb, arith, Bool-cases, lt_or_ge,
}
use learn_go.Prelude.Int.{pos, negsuc, ◌+ℤ◌}
use learn_go.Intervals.{
  Interval, Event, events, by_event, max_ℤ, put_before, sort_func, rooms_loop, min_rooms,
}
use learn_go.Intervals.Depth.{depth}

-- The intervals that an event list opens by a time, those that it opened before it, and those that
-- it closed by it.
abbrev opened : List Event → ℕ → ℕ
opened [] time = 0
opened (e ∷ s) time = (if e.opens then (if leb e.at time then 1 else 0) else 0) + opened s time

abbrev earlier : List Event → ℕ → ℕ
earlier [] time = 0
earlier (e ∷ s) time = (if e.opens then (if ltb e.at time then 1 else 0) else 0) + earlier s time

abbrev closed : List Event → ℕ → ℕ
closed [] time = 0
closed (e ∷ s) time = (if e.opens then 0 else (if leb e.at time then 1 else 0)) + closed s time

depth-events :
    (s : List Interval) (time : ℕ) → opened (events s) time ≡ depth s time + closed (events s) time
depth-events [] time = omega arith
depth-events (iv ∷ s) time = ground (arith, depth-events s time)

closed-events : (s : List Interval) (time : ℕ) → closed (events s) time ≤ earlier (events s) time
closed-events [] time = omega arith
closed-events (iv ∷ s) time = ground (arith, closed-events s time)

-- Sorting keeps the counts.
record Alike (a b : List Event) : Type 0 where
  same_opened : (time : ℕ) → opened a time ≡ opened b time
  same_earlier : (time : ℕ) → earlier a time ≡ earlier b time
  same_closed : (time : ℕ) → closed a time ≡ closed b time

put_before-Alike : (e : Event) (s : List Event) → Alike (put_before by_event e s) (e ∷ s)
put_before-Alike e [] = record {
  same_opened = λ t. refl;
  same_earlier = λ t. refl;
  same_closed = λ t. refl;
}
put_before-Alike e (x ∷ s) =
    let rest = put_before-Alike e s in
    record {
      same_opened = λ t. ground (arith, rest.same_opened t);
      same_earlier = λ t. ground (arith, rest.same_earlier t);
      same_closed = λ t. ground (arith, rest.same_closed t);
    }

sort_func-Alike : (s : List Event) → Alike (sort_func by_event s) s
sort_func-Alike [] = record {
  same_opened = λ t. refl;
  same_earlier = λ t. refl;
  same_closed = λ t. refl;
}
sort_func-Alike (x ∷ s) =
    let rest = sort_func-Alike s in
    let first = put_before-Alike x (sort_func by_event s) in
    record {
      same_opened = λ t. rw (first.same_opened t, rest.same_opened t) refl;
      same_earlier = λ t. rw (first.same_earlier t, rest.same_earlier t) refl;
      same_closed = λ t. rw (first.same_closed t, rest.same_closed t) refl;
    }

-- In the order of the times, and the closings of a time before its openings.
abbrev rank : Event → ℕ
rank e = 2 * e.at + (if e.opens then 1 else 0)

abbrev RanksFrom : ℕ → List Event → Type 0
RanksFrom n [] = Unit
RanksFrom n (e ∷ s) = (n ≤ rank e) × RanksFrom (rank e) s

put_before-RanksFrom :
    (n : ℕ) (e : Event) (s : List Event)
    → n ≤ rank e
    → RanksFrom n s
    → RanksFrom n (put_before by_event e s)
put_before-RanksFrom n e [] h r = (h, tt)
put_before-RanksFrom n e (x ∷ s) h (a, b) =
    ground (arith, λ (k : rank x ≤ rank e). put_before-RanksFrom (rank x) e s k b)

sort_func-RanksFrom : (s : List Event) → RanksFrom 0 (sort_func by_event s)
sort_func-RanksFrom [] = tt
sort_func-RanksFrom (x ∷ s) =
    put_before-RanksFrom 0 x (sort_func by_event s) (omega arith) (sort_func-RanksFrom s)

-- Nothing happens before the first event.
early :
    (n time : ℕ) (s : List Event)
    → RanksFrom n s
    → 2 * time + 1 < n
    → (opened s time ≡ 0) × (closed s time ≡ 0)
early n time [] r h = (refl, refl)
early n time (e ∷ s) (a, b) h =
    let (none_open, none_closed) = early (rank e) time s b (omega arith) in
    (ground arith, ground arith)

early_opened : (n time : ℕ) (s : List Event) → RanksFrom n s → 2 * time ≤ n → earlier s time ≡ 0
early_opened n time [] r h = refl
early_opened n time (e ∷ s) (a, b) h =
    let rest = early_opened (rank e) time s b (omega arith) in ground arith

early_closed : (n time : ℕ) (s : List Event) → RanksFrom n s → 2 * time < n → closed s time ≡ 0
early_closed n time [] r h = refl
early_closed n time (e ∷ s) (a, b) h =
    let rest = early_closed (rank e) time s b (omega arith) in ground arith

-- No more is closed by a time than is open at the start or was opened before it.
abbrev Fits : ℕ → List Event → Type 0
Fits current s = (time : ℕ) → closed s time ≤ current + earlier s time

-- The loop on numbers.
abbrev moved : ℕ → Event → ℕ
moved current e = if e.opens then suc current else current - 1

abbrev peak : ℕ → ℕ → List Event → ℕ
peak current most [] = most
peak current most (e ∷ s) = peak (moved current e) (max most (moved current e)) s

-- An event that closes finds something open.
Fits-closes :
    (current n : ℕ) (e : Event) (s : List Event)
    → RanksFrom n (e ∷ s)
    → Fits current (e ∷ s)
    → e.opens ≡ false
    → 1 ≤ current
Fits-closes current n e s (a, b) f shut =
    let now = f e.at in let before = early_opened (rank e) e.at s b (omega arith) in ground arith

Fits-next :
    (current n : ℕ) (e : Event) (s : List Event)
    → RanksFrom n (e ∷ s)
    → Fits current (e ∷ s)
    → Fits (moved current e) s
Fits-next current n e s (a, b) f time =
    let whole = f time in
    elim (Bool-cases e.opens) [
      | inl open_now ↦ ground arith
      | inr shut ↦
          let some_open = Fits-closes current n e s (a, b) f shut in
          elim (lt_or_ge time e.at) [
            | inl before ↦
                let nothing = early_closed (rank e) time s b (omega arith) in ground arith
            | inr after ↦ ground arith
          ]
    ]

rooms_loop-peak :
    (current most n : ℕ) (s : List Event)
    → RanksFrom n s
    → Fits current s
    → rooms_loop (pos current) (pos most) s ≡ pos (peak current most s)
unfolding rooms_loop ◌+ℤ◌
rooms_loop-peak current most n [] r f = refl
rooms_loop-peak current most n (e ∷ s) r f =
    rw (next, larger most (moved current e))
      (rooms_loop-peak (moved current e) (max most (moved current e)) (rank e) s r.1
        (Fits-next current n e s r f))
  where
    next : pos current +ℤ (if e.opens then pos 1 else negsuc 0) ≡ pos (moved current e)
    next = elim (Bool-cases e.opens) [
      | inl open_now ↦ ground arith
      | inr shut ↦ let some_open = Fits-closes current n e s r f shut in ground arith
    ]

    larger : (a b : ℕ) → max_ℤ (pos a) (pos b) ≡ pos (max a b)
    larger a b = ground arith

peak_most : (current most : ℕ) (s : List Event) → most ≤ peak current most s
peak_most current most [] = omega arith
peak_most current most (e ∷ s) =
    omega (arith, peak_most (moved current e) (max most (moved current e)) s)

-- No time has more open intervals than the loop finds.
peak_bound :
    (current most n : ℕ) (s : List Event)
    → RanksFrom n s
    → Fits current s
    → current ≤ most
    → (time : ℕ) → current + opened s time ≤ peak current most s + closed s time
peak_bound current most n [] r f h time = omega arith
peak_bound current most n (e ∷ s) (a, b) f h time = elim (lt_or_ge time e.at) [
  | inl before ↦
      let (no_open, no_closed) = early (rank e) time s b (ground arith) in
      let least = peak_most current most (e ∷ s) in ground arith
  | inr after ↦
      let next = Fits-next current n e s (a, b) f in
      let rest =
        peak_bound (moved current e) (max most (moved current e)) (rank e) s b next (omega arith)
          time in
      elim (Bool-cases e.opens) [
        | inl open_now ↦ ground arith
        | inr shut ↦ let some_open = Fits-closes current n e s (a, b) f shut in ground arith
      ]
]

-- The loop's result is what it began with, or the number of open intervals at some time.
peak_reached :
    (current most n : ℕ) (s : List Event)
    → RanksFrom n s
    → Fits current s
    → current ≤ most
    → (peak current most s ≡ most)
      ⊎ ((time : ℕ) × (peak current most s + closed s time ≤ current + opened s time))
peak_reached current most n [] r f h = inl refl
peak_reached current most n (e ∷ s) (a, b) f h =
    elim (peak_reached (moved current e) (max most (moved current e)) (rank e) s b
      (Fits-next current n e s (a, b) f) (omega arith)) [
        | inl as_now ↦ elim (Bool-cases e.opens) [
          | inr shut ↦ inl (ground arith)
          | inl open_now ↦ elim (lt_or_ge most (suc current)) [
            | inr enough ↦ inl (ground arith)
            | inl more ↦
                let none_closed = early_closed (rank e) e.at s b (ground arith) in
                inr (e.at, ground arith)
          ]
        ]
        | inr (time, reached) ↦ elim (lt_or_ge time e.at) [
          | inr after ↦ elim (Bool-cases e.opens) [
            | inl open_now ↦ inr (time, ground arith)
            | inr shut ↦
                let some_open = Fits-closes current n e s (a, b) f shut in inr (time, ground arith)
          ]
          | inl before ↦
              let (no_open, no_closed) = early (rank e) time s b (ground arith) in
              elim (Bool-cases e.opens) [
                | inl open_now ↦
                    let none_closed = early_closed (rank e) e.at s b (ground arith) in
                    inr (e.at, ground arith)
                | inr shut ↦
                    let some_open = Fits-closes current n e s (a, b) f shut in
                    let least = peak_most (moved current e) (max most (moved current e)) s in
                    absurd (ground arith)
              ]
        ]
      ]

-- MinRooms is the largest number of the given intervals that contain one time.
pub min_rooms-depth :
    (s : List Interval)
    → (most : ℕ) × (min_rooms s ≡ pos most)
      × ((time : ℕ) → depth s time ≤ most)
      × ((time : ℕ) × (depth s time ≡ most))
unfolding min_rooms
min_rooms-depth s = (
  most,
  rooms_loop-peak 0 0 0 sorted ranks fits,
  bound,
  reached (peak_reached 0 0 0 sorted ranks fits (omega arith)),
)
  where
    sorted : List Event
    sorted = sort_func by_event (events s)

    same : Alike sorted (events s)
    same = sort_func-Alike (events s)

    ranks : RanksFrom 0 sorted
    ranks = sort_func-RanksFrom (events s)

    fits : Fits 0 sorted
    fits time = omega (arith, same.same_closed time, same.same_earlier time, closed-events s time)

    most : ℕ
    most = peak 0 0 sorted

    bound : (time : ℕ) → depth s time ≤ most
    bound time = omega (
      arith,
      peak_bound 0 0 0 sorted ranks fits (omega arith) time,
      same.same_opened time,
      same.same_closed time,
      depth-events s time,
    )

    reached :
        (most ≡ 0) ⊎ ((time : ℕ) × (most + closed sorted time ≤ 0 + opened sorted time))
        → (time : ℕ) × (depth s time ≡ most)
    reached (inl none_open) = (0, omega (arith, bound 0, none_open))
    reached (inr (time, h)) = (
      time,
      omega
          (arith, h, bound time, same.same_opened time, same.same_closed time, depth-events s time),
    )
