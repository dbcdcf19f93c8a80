-- ===== src/Hashmap/Refine.antt =====
-- The hash table (dsa/hashmap/hashmap.go) as an implementation of the finite maps.
use learn_go.Prelude.{
  ℕ, ◌+◌, ◌-◌, ◌≡◌, refl, inl, inr, Bool, true, false, Option, none, some, ◌>>=◌, length, get_elem?,
  set, length-set, arith, lt_or_ge, Bool-cases, ◌==◌,
}
use learn_go.Prelude.Comparable.{Comparable}
use learn_go.Hashmap.{
  deleted, is_occupied, is_deleted, Slot, HashMap, Probe, probe, probe_loop, allocated, put_at, put,
  delete, counted,
}
use learn_go.Hashmap.Probing.{get_elem?_bound, Outcome}
use learn_go.Hashmap.Table.{update, IsTable, IsHit-some, IsMiss-none}
use learn_go.Hashmap.Move.{store_fits}
use learn_go.Hashmap.Write.{IsHit-IsTable}
use learn_go.Hashmap.Tally.{one_if, tally-set}
use learn_go.Hashmap.Methods.{
  present, Holds, Holds-same, Holds-counted, Holds-IsTable, none_held, ready,
}
use learn_go.Hashmap.Change.{IsReady, allocated-IsReady, overwritten, inserted}
use learn_go.Hashmap.{delete}

module _ {ℓ} {K V : Type ℓ} ⦃c : Comparable K⦄ (hash : K → ℕ) (zero_key : K) (zero_value : V) where
  -- Put on a table that holds a map never panics, and leaves one that holds the map with the new
  -- entry, whether it overwrites, inserts, reuses a tombstone, allocates or rebuilds the table.
  pub put-Holds :
      (f : K → Option V) (m : HashMap K V) (key : K) (value : V)
      → Holds hash f m
      → (m' : HashMap K V) × (put hash zero_key zero_value m key value ≡ some m')
        × Holds hash (update f key (some value)) m'
  unfolding put
  put-Holds f m key value h =
      let w = allocated-IsReady hash zero_key zero_value f m h in
      let r = ready hash f (allocated hash zero_key zero_value m) w.holds w.table w.positive key in
      split (allocated hash zero_key zero_value m) w r.at r.hit r.steps r.done r.outcome
    where
      split :
          (n : HashMap K V)
          → IsReady hash zero_key zero_value f n
          → (at : ℕ) (hit : Bool) (steps : ℕ)
          → probe_loop hash n.slots key (length n.slots) 0 none
            ≡ some (record { index = some at; found = hit; examined = steps })
          → Outcome hash n.slots key hit at
          → (m' : HashMap K V) × ((probe hash n key >>= λ p. p.index >>= λ idx.
                get_elem? n.slots idx
                >>= put_at hash zero_key zero_value (counted n p) key value p.found idx)
              ≡ some m')
            × Holds hash (update f key (some value)) m'
      split n w at true steps done o =
          let p : Probe = record { index = some at; found = true; examined = steps } in
          let (m', stored, holds) =
            overwritten hash zero_key zero_value f (counted n p) key value
              (Holds-counted hash f n p w.holds) w.table at o in
          (m', rw (done, o.read) stored, holds)
      split n w at false steps done o =
          let p : Probe = record { index = some at; found = false; examined = steps } in
          let (m', stored, holds) =
            inserted hash zero_key zero_value f (counted n p) key value
              (Holds-counted hash f n p w.holds) w.table at o w.positive in
          (m', rw (done, o.read) stored, holds)

  -- Delete on a table that holds a map never panics, answers whether the key was there, and leaves
  -- a table that holds the map without it.
  pub delete-Holds :
      (f : K → Option V) (m : HashMap K V) (key : K)
      → Holds hash f m
      → (m' : HashMap K V) × (delete hash zero_key zero_value m key ≡ some (m', present (f key)))
        × Holds hash (update f key none) m'
  unfolding delete
  delete-Holds f m key h = elim (lt_or_ge 0 m.count) [
    | inr nothing ↦
        let no_keys : (m.count == 0) ≡ true = ground arith in
        let absent = none_held hash f m h (omega arith) in
        (
          m,
          rw (no_keys, absent key) refl,
          Holds-same hash f (update f key none) m (forgotten (absent key)) h,
        )
    | inl pos ↦
        let t = Holds-IsTable hash f m h pos in
        let r = ready hash f m h t (omega (arith, h.light)) key in
        let has_keys : (m.count == 0) ≡ false = ground arith in
        split has_keys t r.at r.hit r.steps r.done r.outcome
  ]
    where
      forgotten : f key ≡ none → (q : K) → f q ≡ update f key none q
      forgotten absent q = elim (Bool-cases (c.same q key)) [
        | inl same ↦ rw (same, c.eq_of_same q key same) absent
        | inr other ↦ rw other refl
      ]

      split :
          (m.count == 0) ≡ false
          → IsTable hash f m.slots
          → (at : ℕ) (hit : Bool) (steps : ℕ)
          → probe_loop hash m.slots key (length m.slots) 0 none
            ≡ some (record { index = some at; found = hit; examined = steps })
          → Outcome hash m.slots key hit at
          → (m' : HashMap K V) × (delete hash zero_key zero_value m key
              ≡ some (m', present (f key)))
            × Holds hash (update f key none) m'
      split e t at false steps done o =
          let p : Probe = record { index = some at; found = false; examined = steps } in
          let absent = IsMiss-none hash f m.slots t key at o in
          (
            counted m p,
            rw (e, done, absent) refl,
            Holds-same hash f (update f key none) (counted m p) (forgotten absent)
                (Holds-counted hash f m p h),
          )
      split e t at true steps done o =
          let p : Probe = record { index = some at; found = true; examined = steps } in
          let y : Slot K V = record { key = zero_key; value = zero_value; state = deleted } in
          let lively = tally-set is_occupied m.slots at o.slot y o.read in
          let buried = tally-set is_deleted m.slots at o.slot y o.read in
          let was : one_if (is_occupied o.slot.state) ≡ 1 = rw o.full refl in
          let was_not : one_if (is_deleted o.slot.state) ≡ 0 = rw o.full refl in
          let fits = store_fits m.slots at y (get_elem?_bound m.slots at o.slot o.read) in
          (
            record (counted m p) {
              slots = set m.slots at y;
              count = m.count - 1;
              dead = m.dead + 1;
            },
            rw (e, done, fits, IsHit-some hash f m.slots t key at o) refl,
            record {
              counts = omega (arith, h.counts);
              graves = omega (arith, h.graves);
              light = rw (length-set m.slots at y) (omega (arith, h.light, h.counts));
              shape = inr (IsHit-IsTable hash f m.slots t key at y o (λ k. cc k) (λ k. cc k));
            },
          )
