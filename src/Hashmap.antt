-- ===== src/Hashmap.antt =====
-- dsa/hashmap (hashmap.go): the open-addressed hash table with linear probing. The hash of a key,
-- the map's own or maphash, is a parameter, and so are the zero values of keys and values. An index
-- of -1 and the panic of an access out of range are `none`. The float64 quotients of Load and
-- slotsFor, compared with 0.7 and rounded down, are those of the fractions for any table that fits
-- a memory. The seed is part of the parameter.
use Prim.Native.Nat.{bit_and}
use learn_go.Prelude.{
  ℕ, zero, suc, ◌+◌, ◌-◌, ◌*◌, ◌/◌, Bool, true, false, ◌&&◌, not, Option, none, some, ◌>>=◌, List,
  [], ◌∷◌, length, get_elem?, replicate, if◌then◌else◌, ltb, ◌==◌,
}
use learn_go.Prelude.Comparable.{Comparable}
use learn_go.Prelude.Copy.{store}
pub mod Path
pub mod Probing
pub mod Table
pub mod Write
pub mod Tally
mod Find
mod Move
mod Rehash
mod Methods
mod Change
mod Refine
mod Iterate
mod Client
mod Tests

pub data SlotState : Type 0 where
  empty occupied deleted : SlotState

abbrev pub is_occupied : SlotState → Bool
is_occupied occupied = true
is_occupied _ = false

abbrev pub is_deleted : SlotState → Bool
is_deleted deleted = true
is_deleted _ = false

pub record Slot {ℓ} (K V : Type ℓ) : Type ℓ where
  pub key : K
  pub value : V
  pub state : SlotState

pub record HashMap {ℓ} (K V : Type ℓ) : Type ℓ where
  pub slots : List (Slot K V)
  pub count : ℕ
  pub dead : ℕ
  pub probes : ℕ

-- The loop of slotsFor, on fuel.
abbrev pub size_loop : ℕ → ℕ → ℕ → ℕ
size_loop zero size needed = size
size_loop (suc fuel) size needed =
    let rest = size_loop fuel (size * 2) needed in if ltb size needed then rest else size

pub slots_for : ℕ → ℕ
slots_for n = let needed = n * 10 / 7 + 1 in size_loop needed 8 needed

-- `m.Load() > maxLoad`
abbrev pub overloaded {ℓ} : {K V : Type ℓ} → HashMap K V → Bool
overloaded m = not (length m.slots == 0) && ltb (7 * length m.slots) (10 * (m.count + m.dead))

abbrev pub or_else {ℓ} : {A : Type ℓ} → Option A → A → A
or_else none x = x
or_else (some y) x = y

-- What probe returns, with the number of slots that it examined.
pub record Probe : Type 0 where
  pub index : Option ℕ
  pub found : Bool
  pub examined : ℕ

abbrev pub counted {ℓ} : {K V : Type ℓ} → HashMap K V → Probe → HashMap K V
counted m p = record m { probes = m.probes + p.examined }

module _ {ℓ} {K V : Type ℓ} ⦃c : Comparable K⦄ (hash : K → ℕ) where
  -- The slot that is examined in the round `i` of a probe for `key`.
  abbrev pub spot : List (Slot K V) → K → ℕ → ℕ
  spot slots key i = let mask = length slots - 1 in bit_and (bit_and (hash key) mask + i) mask

  -- The loop of probe, from the round `i` on, with the first tombstone.
  abbrev pub probe_loop : List (Slot K V) → K → ℕ → ℕ → Option ℕ → Option Probe
  probe_loop slots key zero i first = some (record { index = first; found = false; examined = i })
  probe_loop slots key (suc left) i first =
      let idx = spot slots key i in
      let next = probe_loop slots key left (suc i) in
      get_elem? slots idx >>= λ s. elim s.state [
        | empty ↦
            some (record { index = some (or_else first idx); found = false; examined = suc i })
        | deleted ↦ next (some (or_else first idx))
        | occupied ↦ elim (c.same s.key key) [
          | true ↦ some (record { index = some idx; found = true; examined = suc i })
          | false ↦ next first
        ]
      ]

  pub probe : HashMap K V → K → Option Probe
  probe m key = probe_loop m.slots key (length m.slots) 0 none

  -- The loop of resize.
  pub resize_loop : List (Slot K V) → HashMap K V → Option (HashMap K V)
  unfolding probe
  resize_loop [] m = some m
  resize_loop (s ∷ old) m =
      let rest = resize_loop old in
      elim s.state [
        | occupied ↦ probe m s.key >>= λ p. p.index >>= λ idx.
            store m.slots idx (record { key = s.key; value = s.value; state = occupied })
            >>= λ slots. rest (record (counted m p) { slots = slots; count = m.count + 1 })
        | _ ↦ rest m
      ]

  -- Get. `none` inside stands for the zero value with false.
  pub get : HashMap K V → K → Option (HashMap K V × Option V)
  unfolding probe
  get m key =
      if m.count == 0
      then some (m, none)
      else probe m key >>= λ p.
          if not p.found
          then some (counted m p, none)
          else p.index >>= λ idx. get_elem? m.slots idx >>= λ s. some (counted m p, some s.value)

module _ {ℓ} {K V : Type ℓ} ⦃c : Comparable K⦄ (hash : K → ℕ) (zero_key : K) (zero_value : V) where
  -- What make fills a slice of slots with.
  abbrev pub blank : Slot K V
  blank = record { key = zero_key; value = zero_value; state = empty }

  -- New and NewWithHash.
  pub new : ℕ → HashMap K V
  unfolding slots_for
  new capacity = record {
    slots = if ltb 0 capacity then replicate (slots_for capacity) blank else [];
    count = 0;
    dead = 0;
    probes = 0;
  }

  pub resize : HashMap K V → Option (HashMap K V)
  unfolding resize_loop slots_for
  resize m =
      resize_loop hash m.slots
        (record m { slots = replicate (slots_for m.count) blank; count = 0; dead = 0 })

  -- The first part of Put, which allocates the slots of a zero map.
  abbrev pub allocated : HashMap K V → HashMap K V
  allocated m =
      if length m.slots == 0 then record m { slots = replicate (slots_for 1) blank } else m

  -- The rest of Put, with the probe and the slot that it ends at.
  abbrev pub put_at : HashMap K V → K → V → Bool → ℕ → Slot K V → Option (HashMap K V)
  put_at m key value true idx s =
      store m.slots idx (record s { value = value }) >>= λ slots. some (record m { slots = slots })
  put_at m key value false idx s =
      store m.slots idx (record { key = key; value = value; state = occupied }) >>= λ slots.
      let stored = record m {
        slots = slots;
        count = m.count + 1;
        dead = if is_deleted s.state then m.dead - 1 else m.dead;
      } in
      elim (overloaded stored) [ true ↦ resize stored | false ↦ some stored ]

  pub put : HashMap K V → K → V → Option (HashMap K V)
  unfolding probe resize
  put m key value = probe hash (allocated m) key >>= λ p. p.index >>= λ idx.
      get_elem? (allocated m).slots idx >>= put_at (counted (allocated m) p) key value p.found idx

  -- Delete.
  pub delete : HashMap K V → K → Option (HashMap K V × Bool)
  unfolding probe
  delete m key =
      if m.count == 0
      then some (m, false)
      else probe hash m key >>= λ p.
          if not p.found
          then some (counted m p, false)
          else p.index >>= λ idx.
              store m.slots idx (record { key = zero_key; value = zero_value; state = deleted })
              >>= λ slots. some (
                record (counted m p) { slots = slots; count = m.count - 1; dead = m.dead + 1 },
                true,
              )

-- All, for a caller that reads to the end.
abbrev pub pairs {ℓ} : {K V : Type ℓ} → List (Slot K V) → List (K × V)
pairs [] = []
pairs (s ∷ slots) =
    let rest = pairs slots in if is_occupied s.state then (s.key, s.value) ∷ rest else rest
