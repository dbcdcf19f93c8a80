-- ===== src/Hashmap/Methods.antt =====
-- New, Get, Put and Delete (dsa/hashmap/hashmap.go) on the map that a table holds.
use learn_go.Prelude.{
  ℕ, ◌+◌, ◌*◌, ◌≤◌, ◌<◌, ◌≡◌, refl, ◌∙◌, sym, ◌⊎◌, inl, inr, Bool, true, false, Option, none, some,
  length, arith, lt_or_ge, Option-cases, ◌==◌,
}
use learn_go.Prelude.Comparable.{Comparable}
use learn_go.Hashmap.{is_occupied, is_deleted, HashMap, Probe, probe_loop, get, counted}
use learn_go.Hashmap.Probing.{Outcome, IsProbed}
use learn_go.Hashmap.Table.{IsTable, IsHit-some, IsMiss-none}
use learn_go.Hashmap.Move.{IsTable-same, IsRoomy}
use learn_go.Hashmap.Tally.{tally, tally_positive, probe-IsProbed}

abbrev pub present {ℓ} : {A : Type ℓ} → Option A → Bool
present none = false
present (some x) = true

module _ {ℓ} {K V : Type ℓ} ⦃c : Comparable K⦄ (hash : K → ℕ) where
  -- The invariant: the counters are right, the load is in bounds, and the slots, once there are
  -- some, hold the map.
  pub record Holds (f : K → Option V) (m : HashMap K V) : Type ℓ where
    pub counts : m.count ≡ tally is_occupied m.slots
    pub graves : m.dead ≡ tally is_deleted m.slots
    pub light : 10 * (m.count + m.dead) ≤ 7 * length m.slots
    pub shape : ((length m.slots ≡ 0) × ((q : K) → f q ≡ none)) ⊎ IsTable hash f m.slots

  pub IsRoomy-Holds :
      (f : K → Option V) (rest : ℕ) (m : HashMap K V)
      → m.dead ≡ 0
      → IsRoomy hash f rest m
      → Holds f m
  IsRoomy-Holds f rest m e r = record {
    counts = r.counts;
    graves = e ∙ sym r.clean;
    light = omega (arith, r.light);
    shape = inr r.table;
  }

  pub Holds-same :
      (f g : K → Option V) (m : HashMap K V) → ((q : K) → f q ≡ g q) → Holds f m → Holds g m
  Holds-same f g m e h = record {
    counts = h.counts;
    graves = h.graves;
    light = h.light;
    shape = elim h.shape [
      | inl (none_yet, empty_map) ↦ inl (none_yet, λ q. sym (e q) ∙ empty_map q)
      | inr t ↦ inr (IsTable-same hash f g m.slots e t)
    ];
  }

  pub Holds-counted :
      (f : K → Option V) (m : HashMap K V) (p : Probe) → Holds f m → Holds f (counted m p)
  Holds-counted f m p h = record {
    counts = h.counts;
    graves = h.graves;
    light = h.light;
    shape = h.shape;
  }

  -- A map with keys has a table.
  pub Holds-IsTable :
      (f : K → Option V) (m : HashMap K V) → Holds f m → 0 < m.count → IsTable hash f m.slots
  Holds-IsTable f m h pos = elim h.shape [
    | inl (none_yet, empty_map) ↦ absurd (omega (arith, h.light))
    | inr t ↦ t
  ]

  pub none_held :
      (f : K → Option V) (m : HashMap K V) → Holds f m → m.count ≡ 0 → (q : K) → f q ≡ none
  none_held f m h e q = elim h.shape [
    | inl (none_yet, empty_map) ↦ empty_map q
    | inr t ↦ elim (Option-cases (f q)) [
      | inl absent ↦ absent
      | inr (v, found) ↦
          let (idx, hit) = t.complete q v found in
          absurd (
            let pos = tally_positive is_occupied m.slots idx hit.slot hit.read (rw hit.full refl) in
            omega (arith, h.counts))
    ]
  ]

  pub ready :
      (f : K → Option V) (m : HashMap K V)
      → Holds f m
      → IsTable hash f m.slots
      → 0 < length m.slots
      → (q : K) → IsProbed hash m.slots q (probe_loop hash m.slots q (length m.slots) 0 none)
  ready f m h t pos q =
      probe-IsProbed hash f m.slots q t (omega (arith, h.light, h.counts, h.graves))

  -- Get answers with the entry of the map, and keeps the map.
  pub get-Holds :
      (f : K → Option V) (m : HashMap K V) (key : K)
      → Holds f m
      → (m' : HashMap K V) × (get hash m key ≡ some (m', f key)) × Holds f m'
  unfolding get
  get-Holds f m key h = elim (lt_or_ge 0 m.count) [
    | inr nothing ↦
        let no_keys : (m.count == 0) ≡ true = ground arith in
        let absent = none_held f m h (omega arith) key in (m, rw (no_keys, absent) refl, h)
    | inl pos ↦
        let t = Holds-IsTable f m h pos in
        let r = ready f m h t (omega (arith, h.light)) key in
        let has_keys : (m.count == 0) ≡ false = ground arith in
        split has_keys t r.at r.hit r.steps r.done r.outcome
  ]
    where
      split :
          (m.count == 0) ≡ false
          → IsTable hash f m.slots
          → (at : ℕ) (hit : Bool) (steps : ℕ)
          → probe_loop hash m.slots key (length m.slots) 0 none
            ≡ some (record { index = some at; found = hit; examined = steps })
          → Outcome hash m.slots key hit at
          → (m' : HashMap K V) × (get hash m key ≡ some (m', f key)) × Holds f m'
      split e t at true steps done o =
          let p : Probe = record { index = some at; found = true; examined = steps } in
          (
            counted m p,
            rw (e, done, o.read, IsHit-some hash f m.slots t key at o) refl,
            Holds-counted f m p h,
          )
      split e t at false steps done o =
          let p : Probe = record { index = some at; found = false; examined = steps } in
          (
            counted m p,
            rw (e, done, IsMiss-none hash f m.slots t key at o) refl,
            Holds-counted f m p h,
          )
