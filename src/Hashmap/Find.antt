-- ===== src/Hashmap/Find.antt =====
-- The entries of the old slots that resize reads (dsa/hashmap/hashmap.go), for slots that hold a map.
use learn_go.Prelude.{
  ℕ, zero, suc, ◌≡◌, ◌≢◌, refl, ◌∙◌, sym, inl, inr, true, Option, none, some, List, [], ◌∷◌,
  get_elem?, arith, Bool-cases, Option-cases, if◌then◌else◌,
}
use learn_go.Prelude.Comparable.{Comparable}
use learn_go.Hashmap.{occupied, is_occupied, Slot}
use learn_go.Hashmap.Probing.{state_cases}
use learn_go.Hashmap.Table.{IsTable}

module _ {ℓ} {K V : Type ℓ} ⦃c : Comparable K⦄ where
  -- The entry of a key in a list of slots.
  abbrev pub find : K → List (Slot K V) → Option V
  find key [] = none
  find key (s ∷ slots) =
      let rest = find key slots in
      if is_occupied s.state then (if c.same key s.key then some s.value else rest) else rest

  -- No key is twice in the list.
  abbrev pub Apart : List (Slot K V) → Type ℓ
  Apart [] = Unit
  Apart (s ∷ slots) = (s.state ≡ occupied → find s.key slots ≡ none) × Apart slots

module _ {ℓ} {K V : Type ℓ} ⦃c : Comparable K⦄ where
  record IsFound (key : K) (slots : List (Slot K V)) (v : V) : Type ℓ where
    idx : ℕ
    slot : Slot K V
    read : get_elem? slots idx ≡ some slot
    full : slot.state ≡ occupied
    own : slot.key ≡ key
    value : slot.value ≡ v

  IsFound-later :
      (key : K) (s : Slot K V) (slots : List (Slot K V)) (v : V)
      → IsFound key slots v
      → IsFound key (s ∷ slots) v
  IsFound-later key s slots v h = record {
    idx = suc h.idx;
    slot = h.slot;
    read = h.read;
    full = h.full;
    own = h.own;
    value = h.value;
  }

  find-IsFound :
      (key : K) (slots : List (Slot K V)) (v : V) → find key slots ≡ some v → IsFound key slots v
  find-IsFound key [] v h = cc h
  find-IsFound key (s ∷ slots) v h = elim (state_cases s.state) [
    | inl e ↦ IsFound-later key s slots v (find-IsFound key slots v (rw e at h))
    | inr used ↦ elim used [
      | inl e ↦ IsFound-later key s slots v (find-IsFound key slots v (rw e at h))
      | inr e ↦ elim (Bool-cases (c.same key s.key)) [
        | inl same ↦
            let given : some s.value ≡ some v = rw (e, same) at h in
            record {
              idx = 0;
              slot = s;
              read = refl;
              full = e;
              own = sym (c.eq_of_same key s.key same);
              value = cc given;
            }
        | inr other ↦ IsFound-later key s slots v (find-IsFound key slots v (rw (e, other) at h))
      ]
    ]
  ]

  find_tail :
      (key : K) (x : Slot K V) (slots : List (Slot K V))
      → find key (x ∷ slots) ≡ none
      → find key slots ≡ none
  find_tail key x slots h = elim (state_cases x.state) [
    | inl e ↦ rw e at h
    | inr used ↦ elim used [
      | inl e ↦ rw e at h
      | inr e ↦ elim (Bool-cases (c.same key x.key)) [
        | inl same ↦ cc (rw (e, same) at h)
        | inr other ↦ rw (e, other) at h
      ]
    ]
  ]

  find_there :
      (key : K) (slots : List (Slot K V)) (idx : ℕ) (s : Slot K V)
      → get_elem? slots idx ≡ some s
      → s.state ≡ occupied
      → s.key ≡ key
      → find key slots ≢ none
  find_there key [] idx s read full own h = cc read
  find_there key (x ∷ slots) zero s read full own h =
      let alike : x ≡ s = cc read in
      let here : x.state ≡ occupied = rw alike full in
      let same : c.same key x.key ≡ true = rw (alike, own) (c.same_self key) in
      cc (rw (here, same) at h)
  find_there key (x ∷ slots) (suc idx) s read full own h =
      find_there key slots idx s read full own (find_tail key x slots h)

  find_not_there :
      (key : K) (slots : List (Slot K V))
      → ((idx : ℕ) (s : Slot K V) → get_elem? slots idx ≡ some s → s.state ≡ occupied → s.key ≢ key)
      → find key slots ≡ none
  find_not_there key slots h = elim (Option-cases (find key slots)) [
    | inl absent ↦ absent
    | inr (v, e) ↦
        let found = find-IsFound key slots v e in
        absurd (h found.idx found.slot found.read found.full found.own)
  ]

  Apart-all :
      (slots : List (Slot K V))
      → ((i j : ℕ) (s t : Slot K V)
          → get_elem? slots i ≡ some s
          → get_elem? slots j ≡ some t
          → s.state ≡ occupied
          → t.state ≡ occupied
          → s.key ≡ t.key
          → i ≡ j)
      → Apart slots
  Apart-all [] h = tt
  Apart-all (s ∷ slots) h = (
    λ full. find_not_there s.key slots (λ idx t read taken e.
        let same = h (suc idx) 0 t s read refl taken full e in absurd (omega arith)),
    Apart-all slots
        (λ i j a b ra rb fa fb e. let same = h (suc i) (suc j) a b ra rb fa fb e in omega arith),
  )

module _ {ℓ} {K V : Type ℓ} ⦃c : Comparable K⦄ (hash : K → ℕ) (f : K → Option V)
    (slots : List (Slot K V)) (t : IsTable hash f slots) where
  pub IsTable-Apart : Apart slots
  IsTable-Apart = Apart-all slots t.distinct

  pub find-IsTable : (q : K) → find q slots ≡ f q
  find-IsTable q = elim (Option-cases (find q slots)) [
    | inl absent ↦ elim (Option-cases (f q)) [
      | inl gone ↦ absent ∙ sym gone
      | inr (v, there) ↦
          let (idx, h) = t.complete q v there in
          absurd (find_there q slots idx h.slot h.read h.full h.own absent)
    ]
    | inr (v, e) ↦
        let found = find-IsFound q slots v e in
        let known = t.sound found.idx found.slot found.read found.full in
        let value = rw (found.own, found.value) at known in e ∙ sym value
  ]
