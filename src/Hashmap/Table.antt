-- ===== src/Hashmap/Table.antt =====
-- What a table holds (dsa/hashmap/hashmap.go): the abstract map, and the effect of a write to a slot.
use learn_go.Prelude.{
  ℕ, ◌≡◌, ◌≢◌, sym, ◌⊎◌, inl, inr, Option, none, some, List, length, get_elem?, arith, lt_or_ge,
  Option-cases, if◌then◌else◌,
}
use learn_go.Prelude.Comparable.{Comparable}
use learn_go.Hashmap.{empty, occupied, is_occupied, Slot}
use learn_go.Hashmap.Path.{IsPower}
use learn_go.Hashmap.Probing.{IsHit, IsMiss}

pub eq_or_ne : (i j : ℕ) → (i ≡ j) ⊎ (i ≢ j)
eq_or_ne i j = omega arith

module _ {ℓ} {K V : Type ℓ} ⦃c : Comparable K⦄ where
  -- The map with another entry for a key.
  abbrev pub update : (K → Option V) → K → Option V → K → Option V
  update f key entry q = if c.same q key then entry else f q

  -- What a slot says of its key.
  abbrev pub entry : Slot K V → Option V
  entry s = if is_occupied s.state then some s.value else none

module _ {ℓ} {K V : Type ℓ} ⦃c : Comparable K⦄ (hash : K → ℕ) where
  -- The slots hold the map `f`.
  pub record IsTable (f : K → Option V) (slots : List (Slot K V)) : Type ℓ where
    pub width : IsPower (length slots)
    pub sound :
        (idx : ℕ) (s : Slot K V)
        → get_elem? slots idx ≡ some s
        → s.state ≡ occupied
        → f s.key ≡ some s.value
    pub complete : (key : K) (v : V) → f key ≡ some v → (idx : ℕ) × IsHit hash slots key idx
    pub distinct :
        (i j : ℕ) (s t : Slot K V)
        → get_elem? slots i ≡ some s
        → get_elem? slots j ≡ some t
        → s.state ≡ occupied
        → t.state ≡ occupied
        → s.key ≡ t.key
        → i ≡ j

  module _ (f : K → Option V) (slots : List (Slot K V)) (t : IsTable f slots) (key : K) where
    pub IsHit-some : (idx : ℕ) (h : IsHit hash slots key idx) → f key ≡ some h.slot.value
    IsHit-some idx h = rw h.own at (t.sound idx h.slot h.read h.full)

    -- No slot behind the first empty one can hold the key.
    pub IsMiss-none : (idx : ℕ) → IsMiss hash slots key idx → f key ≡ none
    IsMiss-none idx m = elim (Option-cases (f key)) [
      | inl absent ↦ absent
      | inr (v, found) ↦ let (there, h) = t.complete key v found in absurd (clash there h)
    ]
      where
        clash : (there : ℕ) → IsHit hash slots key there → ⊥
        clash there h = elim (lt_or_ge h.turn m.stop) [
          | inl before ↦
              let other = m.others h.turn before in
              (rw (h.reach.here, h.read) at other) h.full h.own
          | inr after ↦ elim (eq_or_ne h.turn m.stop) [
            | inl same ↦
                let read : get_elem? slots there ≡ some m.last =
                  rw (sym h.reach.here, same) m.ended.0 in
                let alike : h.slot ≡ m.last = cc (h.read, read) in
                let vacant : h.slot.state ≡ empty = rw alike m.ended.1 in cc (vacant, h.full)
            | inr later ↦
                let pass = h.reach.way m.stop (omega arith) in (rw m.ended.0 at pass) m.ended.1
          ]
        ]
