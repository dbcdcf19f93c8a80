-- ===== src/Queue.antt =====
-- dsa/queue/queue.go: a queue in a ring buffer. `none` is a panic of the runtime: an index or a
-- slice out of range, or a remainder by zero.
use learn_go.Prelude.{
  ℕ, zero, suc, ◌+◌, ◌-◌, ◌*◌, ◌%◌, min, max, Bool, true, false, Option, none, some, ◌>>=◌, List,
  [], ◌∷◌, ◌++◌, length, get_elem?, set, take, drop, replicate, if◌then◌else◌, ltb, leb, ◌==◌,
}
use learn_go.Prelude.Copy.{store, copy}
pub mod Ring
pub mod Growth
pub mod Fifo
pub mod Removal
pub mod Matching
mod Tests

pub record Queue {ℓ} (T : Type ℓ) : Type ℓ where
  pub items : List T
  pub head : ℕ
  pub tail : ℕ
  pub count : ℕ

-- `i % n`
abbrev pub rem : ℕ → ℕ → Option ℕ
rem i zero = none
rem i (suc n) = some (i % suc n)

module _ {ℓ} {T : Type ℓ} where
  -- `s[i:]` and `s[:i]`
  abbrev pub slice_from : List T → ℕ → Option (List T)
  slice_from s i = if leb i (length s) then some (drop i s) else none

  abbrev pub slice_to : List T → ℕ → Option (List T)
  slice_to s i = if leb i (length s) then some (take i s) else none

module _ {ℓ} {T : Type ℓ} where
  -- Push behind its test for a full buffer.
  pub push_back : Queue T → T → Option (Queue T)
  push_back q v = do
    items ← store q.items q.tail v
    tail ← rem (q.tail + 1) (length q.items)
    some (record { items = items; head = q.head; tail = tail; count = q.count + 1 })

-- The zero value of the element type is a parameter.
module _ {ℓ} {T : Type ℓ} (zero_value : T) where
  -- New; the tests pass no negative capacity.
  pub new : ℕ → Queue T
  new capacity = record {
    items = replicate (max 1 capacity) zero_value;
    head = 0;
    tail = 0;
    count = 0;
  }

  pub grow : Queue T → Option (Queue T)
  grow q = do
    let bigger = replicate (max 1 (length q.items * 2)) zero_value
    front ← slice_from q.items q.head
    let n = min (length bigger) (length front)
    back ← slice_to q.items q.tail
    some (record {
      items = copy (copy bigger 0 front) n back;
      head = 0;
      tail = q.count;
      count = q.count;
    })

  pub push : Queue T → T → Option (Queue T)
  unfolding grow push_back
  push q v = if q.count == length q.items then (grow q >>= λ q'. push_back q' v) else push_back q v

  -- Pop; the inner `none` is its answer false.
  pub pop : Queue T → Option (Queue T × Option T)
  pop q =
      if q.count == 0
      then some (q, none)
      else (get_elem? q.items q.head >>= λ v. store q.items q.head zero_value >>= λ items.
          rem (q.head + 1) (length q.items) >>= λ head.
          some (record { items = items; head = head; tail = q.tail; count = q.count - 1 }, some v))

module _ {ℓ} {T : Type ℓ} where
  pub peek : Queue T → Option (Option T)
  peek q = if q.count == 0 then some none else (get_elem? q.items q.head >>= λ v. some (some v))

  -- The loop of Slice, and of All for a caller that takes everything: `n` rounds from the round `i`.
  pub slice_loop : Queue T → ℕ → ℕ → Option (List T)
  slice_loop q i zero = some []
  slice_loop q i (suc n) =
      let rest = slice_loop q (i + 1) n in
      rem (q.head + i) (length q.items) >>= λ j.
      get_elem? q.items j >>= λ v. rest >>= λ vs. some (v ∷ vs)

  pub slice : Queue T → Option (List T)
  unfolding slice_loop
  slice q = slice_loop q 0 q.count

  -- The loop of RemoveFunc: the index of the first element that matches.
  pub find_loop : (T → Bool) → Queue T → ℕ → ℕ → Option (Option ℕ)
  find_loop match q i zero = some none
  find_loop match q i (suc n) =
      let rest = find_loop match q (i + 1) n in
      rem (q.head + i) (length q.items) >>= λ j.
      get_elem? q.items j >>= λ v. if match v then some (some i) else rest

  -- The loop of removeAt: `n` rounds from the round `j`.
  pub shift_loop : ℕ → List T → ℕ → ℕ → Option (List T)
  shift_loop head items j zero = some items
  shift_loop head items j (suc n) = do
    from ← rem (head + (j + 1)) (length items)
    to ← rem (head + j) (length items)
    v ← get_elem? items from
    items ← store items to v
    shift_loop head items (j + 1) n

-- The rounds of removeAt are count - 1 - i: the caller's i is below the count.
module _ {ℓ} {T : Type ℓ} (zero_value : T) where
  pub remove_at : Queue T → ℕ → Option (Queue T × T)
  unfolding shift_loop
  remove_at q i = do
    at ← rem (q.head + i) (length q.items)
    found ← get_elem? q.items at
    items ← shift_loop q.head q.items i (q.count - 1 - i)
    last ← rem (q.head + q.count - 1) (length items)
    items ← store items last zero_value
    some (record { items = items; head = q.head; tail = last; count = q.count - 1 }, found)

  pub remove_func : (T → Bool) → Queue T → Option (Queue T × Option T)
  unfolding find_loop remove_at
  remove_func match q = find_loop match q 0 q.count >>= λ found. elim found [
    | none ↦ some (q, none)
    | some i ↦ remove_at q i >>= λ (q', v). some (q', some v)
  ]

  -- SearchAndRemove; Comparable.Remove passes the equality of a comparable type.
  pub search_and_remove : (T → T → Bool) → T → Queue T → Option (Queue T × Option T)
  unfolding remove_func
  search_and_remove equal v q = remove_func (λ x. equal x v) q
