-- ===== src/Hashmap/Move.antt =====
-- One key that resize moves (dsa/hashmap/hashmap.go).
use learn_go.Prelude.{
  ℕ, suc, ◌+◌, ◌*◌, ◌≤◌, ◌<◌, ◌≡◌, ◌≢◌, refl, ◌∙◌, sym, inl, inr, Bool, true, false, Option, none,
  some, List, length, set, length-set, arith, lt→ltb,
}
use learn_go.Prelude.Comparable.{Comparable}
use learn_go.Prelude.Copy.{store}
use learn_go.Hashmap.{
  SlotState, occupied, is_occupied, is_deleted, Slot, HashMap, Probe, probe, probe_loop, counted,
}
use learn_go.Hashmap.Probing.{get_elem?_bound, state_cases, Outcome}
use learn_go.Hashmap.Table.{update, IsTable, IsHit-some}
use learn_go.Hashmap.Write.{IsMiss-IsTable}
use learn_go.Hashmap.Tally.{one_if, tally, tally-set, probe-IsProbed}

pub vacant : (s : SlotState) → s ≢ occupied → one_if (is_occupied s) ≡ 0
vacant s h = elim (state_cases s) [
  | inl e ↦ rw e refl
  | inr used ↦ elim used [ inl e ↦ rw e refl | inr e ↦ absurd (h e) ]
]

pub store_fits {ℓ} :
    {A : Type ℓ} (s : List A) (i : ℕ) (v : A) → i < length s → store s i v ≡ some (set s i v)
store_fits s i v h = rw (lt→ltb i (length s) h) refl

-- The state of resize: the new table holds the map `g`, with room for `rest` more keys.
module _ {ℓ} {K V : Type ℓ} ⦃c : Comparable K⦄ (hash : K → ℕ) where
  pub record IsRoomy (g : K → Option V) (rest : ℕ) (m : HashMap K V) : Type ℓ where
    pub table : IsTable hash g m.slots
    pub counts : m.count ≡ tally is_occupied m.slots
    pub clean : tally is_deleted m.slots ≡ 0
    pub light : 10 * (m.count + rest) ≤ 7 * length m.slots
    pub some_slot : 0 < length m.slots

  -- One key of the old table.
  module _ (g : K → Option V) (rest : ℕ) (m : HashMap K V) (r : IsRoomy g (suc rest) m)
      (s : Slot K V) (full : s.state ≡ occupied) (absent : g s.key ≡ none) where
    abbrev pub move_to : ℕ → Bool → ℕ → HashMap K V
    move_to idx found steps =
        record (counted m (record { index = some idx; found = found; examined = steps })) {
          slots = set m.slots idx (record { key = s.key; value = s.value; state = occupied });
          count = m.count + 1;
        }

    pub record IsMoved (p : Option Probe) : Type ℓ where
      pub idx : ℕ
      pub found : Bool
      pub steps : ℕ
      pub done : p ≡ some (record { index = some idx; found = found; examined = steps })
      pub fits : idx < length m.slots
      pub after : IsRoomy (update g s.key (some s.value)) rest (move_to idx found steps)

    pub moved : IsMoved (probe hash m s.key)
    unfolding probe
    moved =
        let p =
          probe-IsProbed hash g m.slots s.key r.table
            (omega (arith, r.light, r.counts, r.clean, r.some_slot)) in
        split p.at p.hit p.steps p.done p.outcome
      where
        split :
            (at : ℕ) (hit : Bool) (steps : ℕ)
            → probe_loop hash m.slots s.key (length m.slots) 0 none
              ≡ some (record { index = some at; found = hit; examined = steps })
            → Outcome hash m.slots s.key hit at
            → IsMoved (probe_loop hash m.slots s.key (length m.slots) 0 none)
        split at true steps e h =
            let found = IsHit-some hash g m.slots r.table s.key at h in absurd (cc (found, absent))
        split at false steps e h =
            let new : Slot K V = record { key = s.key; value = s.value; state = occupied } in
            let full_now = tally-set is_occupied m.slots at h.slot new h.read in
            let free : one_if (is_occupied h.slot.state) ≡ 0 = vacant h.slot.state h.free in
            let dead_now = tally-set is_deleted m.slots at h.slot new h.read in
            record {
              idx = at;
              found = false;
              steps = steps;
              done = e;
              fits = get_elem?_bound m.slots at h.slot h.read;
              after = record {
                table = IsMiss-IsTable hash g m.slots r.table s.key at s.value h;
                counts = omega (arith, r.counts);
                clean = omega (arith, r.clean);
                light = rw (length-set m.slots at new) (omega (arith, r.light));
                some_slot = rw (length-set m.slots at new) r.some_slot;
              };
            }

  pub IsTable-same :
      (f g : K → Option V) (slots : List (Slot K V))
      → ((q : K) → f q ≡ g q)
      → IsTable hash f slots
      → IsTable hash g slots
  IsTable-same f g slots e t = record {
    width = t.width;
    sound = λ idx s read full. sym (e s.key) ∙ t.sound idx s read full;
    complete = λ key v h. t.complete key v (e key ∙ h);
    distinct = t.distinct;
  }

  pub IsRoomy-same :
      (f g : K → Option V) (rest : ℕ) (m : HashMap K V)
      → ((q : K) → f q ≡ g q)
      → IsRoomy f rest m
      → IsRoomy g rest m
  IsRoomy-same f g rest m e r = record {
    table = IsTable-same f g m.slots e r.table;
    counts = r.counts;
    clean = r.clean;
    light = r.light;
    some_slot = r.some_slot;
  }

  pub IsRoomy-rest :
      (g : K → Option V) (a b : ℕ) (m : HashMap K V) → a ≡ b → IsRoomy g a m → IsRoomy g b m
  IsRoomy-rest g a b m e r = rw (sym e) r
