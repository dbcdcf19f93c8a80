-- ===== src/Hashmap/Write.antt =====
-- A write to one slot of a table, as an update of the map that it holds (dsa/hashmap/hashmap.go).
use learn_go.Prelude.{
  ℕ, ◌<◌, ◌≡◌, ◌≢◌, refl, ap, ◌∙◌, sym, inl, inr, Option, some, List, length, get_elem?, set,
  length-set, get_elem?-set_self, get_elem?-set_ne, Bool-cases,
}
use learn_go.Prelude.Comparable.{Comparable}
use learn_go.Prelude.Dict.{same_no}
use learn_go.Hashmap.{empty, occupied, Slot, spot}
use learn_go.Hashmap.Path.{spot_bound}
use learn_go.Hashmap.Probing.{state_cases, on, Passes, Reaches, IsHit, IsMiss}
use learn_go.Hashmap.Table.{eq_or_ne, update, entry, IsTable, IsMiss-none}

module _ {ℓ} {K V : Type ℓ} ⦃c : Comparable K⦄ where
  entry-occupied : (s : Slot K V) (v : V) → entry s ≡ some v → s.state ≡ occupied
  entry-occupied s v h = elim (state_cases s.state) [
    | inl e ↦ cc (rw e at h)
    | inr used ↦ elim used [ inl e ↦ cc (rw e at h) | inr e ↦ e ]
  ]

module _ {ℓ} {K V : Type ℓ} ⦃c : Comparable K⦄ (hash : K → ℕ) (f : K → Option V)
    (slots : List (Slot K V)) (t : IsTable hash f slots) (key : K) (idx turn : ℕ)
    (r : Reaches hash slots key idx turn) (x y : Slot K V)
    (old : get_elem? slots idx ≡ some x) where
  fits : idx < length slots
  fits = rw (sym r.here) (spot_bound hash slots key turn t.width)

  read_new : get_elem? (set slots idx y) idx ≡ some y
  read_new = get_elem?-set_self slots idx y fits

  read_old : (j : ℕ) → j ≢ idx → get_elem? (set slots idx y) j ≡ get_elem? slots j
  read_old j h = get_elem?-set_ne slots y (λ e. h (sym e))

  spot_kept : (k : K) (i : ℕ) → spot hash (set slots idx y) k i ≡ spot hash slots k i
  spot_kept k i = rw (length-set slots idx y) refl

  module _ (used : y.state ≢ empty) where
    Passes-kept :
        (k : K) (i : ℕ)
        → Passes hash slots k (on hash slots k i)
        → Passes hash (set slots idx y) k (on hash (set slots idx y) k i)
    Passes-kept k i h = elim (eq_or_ne (spot hash slots k i) idx) [
      | inl same ↦ rw (spot_kept k i, same, read_new) used
      | inr other ↦ rw (spot_kept k i, read_old (spot hash slots k i) other) h
    ]

    Reaches-kept :
        (k : K) (there i : ℕ)
        → Reaches hash slots k there i
        → Reaches hash (set slots idx y) k there i
    Reaches-kept k there i h = record {
      bound = rw (length-set slots idx y) h.bound;
      here = spot_kept k i ∙ h.here;
      way = λ j before. Passes-kept k j (h.way j before);
    }

    module _ (own : x.state ≡ occupied → x.key ≡ key)
        (only : (j : ℕ) (z : Slot K V)
          → get_elem? slots j ≡ some z
          → z.state ≡ occupied
          → z.key ≡ key
          → j ≡ idx)
        (mine : y.state ≡ occupied → y.key ≡ key) where
      sound :
          (j : ℕ) (s : Slot K V)
          → get_elem? (set slots idx y) j ≡ some s
          → s.state ≡ occupied
          → update f key (entry y) s.key ≡ some s.value
      sound j s read full = elim (eq_or_ne j idx) [
        | inl same ↦
            let new : some y ≡ some s = rw (same, read_new) at read in
            let alike : y ≡ s = cc new in
            let taken : y.state ≡ occupied = rw alike full in
            let known : s.key ≡ key = rw (sym alike) (mine taken) in
            rw (known, c.same_self key, taken) (ap (λ (z : Slot K V). some z.value) alike)
        | inr other ↦
            let before : get_elem? slots j ≡ some s = rw (read_old j other) at read in
            let apart : s.key ≢ key = λ e. other (only j s before full e) in
            rw (same_no s.key key apart) (t.sound j s before full)
      ]

      IsHit-kept :
          (k : K) (there : ℕ)
          → k ≢ key
          → IsHit hash slots k there
          → IsHit hash (set slots idx y) k there
      IsHit-kept k there apart h = record {
        turn = h.turn;
        reach = Reaches-kept k there h.turn h.reach;
        slot = h.slot;
        read =
            read_old there (λ e.
              let read : get_elem? slots idx ≡ some h.slot = rw e at h.read in
              let alike : x ≡ h.slot = cc (old, read) in apart (sym h.own ∙ rw alike at own h.full))
            ∙ h.read;
        full = h.full;
        own = h.own;
      }

      complete :
          (k : K) (v : V)
          → update f key (entry y) k ≡ some v
          → (there : ℕ) × IsHit hash (set slots idx y) k there
      complete k v h = elim (Bool-cases (c.same k key)) [
        | inl same ↦
            let given : entry y ≡ some v = rw same at h in
            let full = entry-occupied y v given in
            let alike = c.eq_of_same k key same in
            rw alike (
              idx,
              record {
                turn = turn;
                reach = Reaches-kept key idx turn r;
                slot = y;
                read = read_new;
                full = full;
                own = mine full;
              },
            )
        | inr other ↦
            let (there, hit) = t.complete k v (rw other at h) in
            (
              there,
              IsHit-kept k there (λ e. let yes' = c.same_self key in cc (rw e at other, yes')) hit,
            )
      ]

      distinct_new :
          (j : ℕ) (s : Slot K V)
          → j ≢ idx
          → get_elem? (set slots idx y) j ≡ some s
          → s.state ≡ occupied
          → y.state ≡ occupied
          → s.key ≢ y.key
      distinct_new j s other read full taken e =
          other (only j s (rw (read_old j other) at read) full (e ∙ mine taken))

      is_new : (i : ℕ) (a : Slot K V) → i ≡ idx → get_elem? (set slots idx y) i ≡ some a → y ≡ a
      is_new i a same read = let new : some y ≡ some a = rw (same, read_new) at read in cc new

      distinct :
          (i j : ℕ) (a b : Slot K V)
          → get_elem? (set slots idx y) i ≡ some a
          → get_elem? (set slots idx y) j ≡ some b
          → a.state ≡ occupied
          → b.state ≡ occupied
          → a.key ≡ b.key
          → i ≡ j
      distinct i j a b ra rb fa fb e = elim (eq_or_ne i idx) [
        | inl first ↦ elim (eq_or_ne j idx) [
          | inl second ↦ first ∙ sym second
          | inr other ↦
              let alike = is_new i a first ra in
              absurd (distinct_new j b other rb fb (rw alike fa) (rw alike (sym e)))
        ]
        | inr apart ↦ elim (eq_or_ne j idx) [
          | inl second ↦
              let alike = is_new j b second rb in
              absurd (distinct_new i a apart ra fa (rw alike fb) (rw alike e))
          | inr other ↦
              t.distinct i j a b (rw (read_old i apart) at ra) (rw (read_old j other) at rb) fa fb e
        ]
      ]

      -- The table that a write leaves.
      pub write-IsTable : IsTable hash (update f key (entry y)) (set slots idx y)
      write-IsTable = record {
        width = rw (length-set slots idx y) t.width;
        sound = sound;
        complete = complete;
        distinct = distinct;
      }

module _ {ℓ} {K V : Type ℓ} ⦃c : Comparable K⦄ (hash : K → ℕ) (f : K → Option V)
    (slots : List (Slot K V)) (t : IsTable hash f slots) (key : K) (idx : ℕ) where
  -- A key that is absent is put where its probe ended.
  pub IsMiss-IsTable :
      (v : V)
      → IsMiss hash slots key idx
      → IsTable hash
          (update f key (some v))
          (set slots idx (record { key = key; value = v; state = occupied }))
  IsMiss-IsTable v m =
      let absent = IsMiss-none hash f slots t key idx m in
      write-IsTable hash f slots t key idx m.turn m.reach m.slot
        (record { key = key; value = v; state = occupied }) m.read (λ h. cc h)
        (λ full. absurd (m.free full))
        (λ j z read full own. let found = t.sound j z read full in cc (rw (own, absent) at found))
        (λ full. refl)

  -- The slot of a key is overwritten, with the same key or with a tombstone.
  pub IsHit-IsTable :
      (y : Slot K V) (h : IsHit hash slots key idx)
      → y.state ≢ empty
      → (y.state ≡ occupied → y.key ≡ key)
      → IsTable hash (update f key (entry y)) (set slots idx y)
  IsHit-IsTable y h used mine =
      write-IsTable hash f slots t key idx h.turn h.reach h.slot y h.read used (λ full. h.own)
        (λ j z read full own. t.distinct j idx z h.slot read h.read full h.full (own ∙ sym h.own))
        mine
