-- ===== src/Hashmap/Change.antt =====
-- New, Put and Delete (dsa/hashmap/hashmap.go) on the map that a table holds.
use learn_go.Prelude.{
  ℕ, ◌+◌, ◌-◌, ◌*◌, ◌≤◌, ◌<◌, ◌≡◌, refl, ◌∙◌, sym, inl, inr, Bool, true, false, Option, none, some,
  length, set, length-set, replicate, arith, Bool-cases, if◌then◌else◌, ltb, ◌==◌,
}
use learn_go.Prelude.Comparable.{Comparable}
use learn_go.Hashmap.{
  occupied, is_occupied, is_deleted, Slot, HashMap, overloaded, allocated, put_at, new, blank,
  slots_for, resize,
}
use learn_go.Hashmap.Path.{power_positive}
use learn_go.Hashmap.Probing.{get_elem?_bound, IsHit, IsMiss}
use learn_go.Hashmap.Table.{update, entry, IsTable}
use learn_go.Hashmap.Move.{store_fits, vacant, IsTable-same}
use learn_go.Hashmap.Rehash.{blank-IsRoomy, resize-IsRoomy}
use learn_go.Hashmap.Write.{IsMiss-IsTable, IsHit-IsTable}
use learn_go.Hashmap.Tally.{one_if, tally, tally-set}
use learn_go.Hashmap.Methods.{Holds, IsRoomy-Holds}

dead_after :
    (grave : Bool) (dead before after : ℕ)
    → dead ≡ before
    → after + one_if grave ≡ before
    → (if grave then dead - 1 else dead) ≡ after
dead_after true dead before after e h = omega arith
dead_after false dead before after e h = omega arith

module _ {ℓ} {K V : Type ℓ} ⦃c : Comparable K⦄ (hash : K → ℕ) (zero_key : K) (zero_value : V) where
  pub new-Holds : (capacity : ℕ) → Holds hash (λ _. none) (new hash zero_key zero_value capacity)
  unfolding new
  new-Holds capacity = elim (Bool-cases (ltb 0 capacity)) [
    | inl sized ↦ rw sized (
        IsRoomy-Holds hash (λ _. none) capacity
          (record {
            slots = replicate (slots_for capacity) (blank hash zero_key zero_value);
            count = 0;
            dead = 0;
            probes = 0;
          })
          refl (blank-IsRoomy hash zero_key zero_value capacity 0))
    | inr unsized ↦ rw unsized (record {
      counts = refl;
      graves = refl;
      light = omega arith;
      shape = inl (refl, λ q. refl);
    })
  ]

  -- What Put works on, a table that holds the map.
  pub record IsReady (f : K → Option V) (m : HashMap K V) : Type ℓ where
    pub holds : Holds hash f m
    pub table : IsTable hash f m.slots
    pub positive : 0 < length m.slots

  pub allocated-IsReady :
      (f : K → Option V) (m : HashMap K V)
      → Holds hash f m
      → IsReady f (allocated hash zero_key zero_value m)
  allocated-IsReady f m h = elim h.shape [
    | inl (none_yet, empty_map) ↦
        let nothing : (length m.slots == 0) ≡ true = ground arith in
        let count_none : m.count ≡ 0 = omega (arith, h.light) in
        let dead_none : m.dead ≡ 0 = omega (arith, h.light) in
        let r = blank-IsRoomy hash zero_key zero_value 1 m.probes in
        let start : HashMap K V = record m {
          slots = replicate (slots_for 1) (blank hash zero_key zero_value);
        } in
        rw nothing (record {
          holds = record {
            counts = count_none ∙ r.counts;
            graves = dead_none ∙ sym r.clean;
            light = omega (arith, r.light);
            shape =
                inr (IsTable-same hash (λ _. none) f start.slots (λ q. sym (empty_map q)) r.table);
          };
          table = IsTable-same hash (λ _. none) f start.slots (λ q. sym (empty_map q)) r.table;
          positive = r.some_slot;
        })
    | inr t ↦
        let pos = power_positive (length m.slots) t.width in
        let something : (length m.slots == 0) ≡ false = ground arith in
        rw something (record { holds = h; table = t; positive = pos })
  ]

  -- The end of Put: the table is rebuilt if it is overloaded.
  grown :
      (f : K → Option V) (m : HashMap K V)
      → IsTable hash f m.slots
      → m.count ≡ tally is_occupied m.slots
      → m.dead ≡ tally is_deleted m.slots
      → (m' : HashMap K V) × (elim (overloaded m) as (λ _. Option (HashMap K V)) [
        | true ↦ resize hash zero_key zero_value m
        | false ↦ some m
      ]
          ≡ some m')
        × Holds hash f m'
  grown f m t counts graves = elim (Bool-cases (overloaded m)) [
    | inl heavy ↦
        let (m', done, roomy, total, clean) =
          resize-IsRoomy hash zero_key zero_value f m t counts in
        (m', rw heavy done, IsRoomy-Holds hash f 0 m' clean roomy)
    | inr easy ↦
        let pos = power_positive (length m.slots) t.width in
        let light : 10 * (m.count + m.dead) ≤ 7 * length m.slots = ground arith in
        (m, rw easy refl, record { counts = counts; graves = graves; light = light; shape = inr t })
  ]

  module _ (f : K → Option V) (m : HashMap K V) (key : K) (value : V) (h : Holds hash f m)
      (t : IsTable hash f m.slots) (idx : ℕ) where
    -- A put on the slot of the key.
    pub overwritten :
        (o : IsHit hash m.slots key idx)
        → (m' : HashMap K V) × (put_at hash zero_key zero_value m key value true idx o.slot
            ≡ some m')
          × Holds hash (update f key (some value)) m'
    overwritten o =
        let y : Slot K V = record { key = o.slot.key; value = value; state = o.slot.state } in
        let lively = tally-set is_occupied m.slots idx o.slot y o.read in
        let buried = tally-set is_deleted m.slots idx o.slot y o.read in
        (
          record m { slots = set m.slots idx y },
          rw (store_fits m.slots idx y (get_elem?_bound m.slots idx o.slot o.read)) refl,
          record {
            counts = omega (arith, h.counts);
            graves = omega (arith, h.graves);
            light = rw (length-set m.slots idx y) h.light;
            shape = inr (
                IsTable-same hash (update f key (entry y)) (update f key (some value))
                  (set m.slots idx y) (λ q. rw o.full refl)
                  (IsHit-IsTable hash f m.slots t key idx y o
                    (λ e. let full = o.full in cc (e, full)) (λ e. o.own)));
          },
        )

    -- A put of a new key.
    pub inserted :
        (o : IsMiss hash m.slots key idx)
        → 0 < length m.slots
        → (m' : HashMap K V) × (put_at hash zero_key zero_value m key value false idx o.slot
            ≡ some m')
          × Holds hash (update f key (some value)) m'
    inserted o pos =
        let y : Slot K V = record { key = key; value = value; state = occupied } in
        let lively = tally-set is_occupied m.slots idx o.slot y o.read in
        let buried = tally-set is_deleted m.slots idx o.slot y o.read in
        let free = vacant o.slot.state o.free in
        let stored : HashMap K V = record m {
          slots = set m.slots idx y;
          count = m.count + 1;
          dead = if is_deleted o.slot.state then m.dead - 1 else m.dead;
        } in
        let fits = store_fits m.slots idx y (get_elem?_bound m.slots idx o.slot o.read) in
        let table = IsMiss-IsTable hash f m.slots t key idx value o in
        let counts : stored.count ≡ tally is_occupied stored.slots = omega (arith, h.counts) in
        let graves : stored.dead ≡ tally is_deleted stored.slots =
          dead_after (is_deleted o.slot.state) m.dead (tally is_deleted m.slots)
            (tally is_deleted (set m.slots idx y)) h.graves (omega arith) in
        let (m', done, holds) = grown (update f key (some value)) stored table counts graves in
        (m', rw fits done, holds)
