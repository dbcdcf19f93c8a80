-- ===== src/Hashmap/Tally.antt =====
-- Counting slots by their state (dsa/hashmap/hashmap.go), and probes on a table with room.
use native.Mathlib.Nat.{pow-suc}
use learn_go.Prelude.{
  ℕ, zero, suc, ◌+◌, ◌*◌, ◌/◌, ◌≤◌, ◌<◌, ◌≡◌, refl, sym, inl, inr, Bool, true, false, Option, none,
  some, List, [], ◌∷◌, length, get_elem?, set, replicate, length-replicate, arith, lt_or_ge, ltb,
}
use learn_go.Prelude.Comparable.{Comparable}
use learn_go.Hashmap.{
  SlotState, empty, is_occupied, is_deleted, Slot, probe_loop, size_loop, slots_for,
}
use learn_go.Hashmap.Path.{IsPower, spot_reaches}
use learn_go.Hashmap.Probing.{state_cases, IsProbed, probe_loop-IsProbed}
use learn_go.Hashmap.Table.{IsTable}

abbrev pub one_if : Bool → ℕ
one_if true = 1
one_if false = 0

module _ {ℓ} {K V : Type ℓ} where
  abbrev pub tally : (SlotState → Bool) → List (Slot K V) → ℕ
  tally test [] = 0
  tally test (s ∷ slots) = one_if (test s.state) + tally test slots

  pub tally-set :
      (test : SlotState → Bool) (slots : List (Slot K V)) (idx : ℕ) (x y : Slot K V)
      → get_elem? slots idx ≡ some x
      → tally test (set slots idx y) + one_if (test x.state)
        ≡ tally test slots + one_if (test y.state)
  tally-set test [] idx x y h = cc h
  tally-set test (s ∷ slots) zero x y h = let alike : s ≡ x = cc h in rw (sym alike) (omega arith)
  tally-set test (s ∷ slots) (suc idx) x y h = omega (arith, tally-set test slots idx x y h)

  pub tally_positive :
      (test : SlotState → Bool) (slots : List (Slot K V)) (idx : ℕ) (x : Slot K V)
      → get_elem? slots idx ≡ some x
      → test x.state ≡ true
      → 0 < tally test slots
  tally_positive test [] idx x h e = cc h
  tally_positive test (s ∷ slots) zero x h e =
      let alike : s ≡ x = cc h in rw (alike, e) (omega arith)
  tally_positive test (s ∷ slots) (suc idx) x h e =
      omega (arith, tally_positive test slots idx x h e)

  -- A table that is not full has an empty slot.
  pub record HasGap (slots : List (Slot K V)) : Type ℓ where
    pub idx : ℕ
    pub bound : idx < length slots
    pub hole : Slot K V
    pub read : get_elem? slots idx ≡ some hole
    pub vacant : hole.state ≡ empty

  pub tally-HasGap :
      (slots : List (Slot K V))
      → tally is_occupied slots + tally is_deleted slots < length slots
      → HasGap slots
  tally-HasGap [] h = absurd (omega arith)
  tally-HasGap (s ∷ slots) h = elim (state_cases s.state) [
    | inl e ↦ record { idx = 0; bound = omega arith; hole = s; read = refl; vacant = e }
    | inr used ↦
        let full : one_if (is_occupied s.state) + one_if (is_deleted s.state) ≡ 1 = elim used [
          | inl e ↦ rw e refl
          | inr e ↦ rw e refl
        ] in
        let g = tally-HasGap slots (omega arith) in
        record {
          idx = suc g.idx;
          bound = omega (arith, g.bound);
          hole = g.hole;
          read = g.read;
          vacant = g.vacant;
        }
  ]

  pub tally-replicate :
      (test : SlotState → Bool) (n : ℕ) (s : Slot K V)
      → test s.state ≡ false
      → tally test (replicate n s) ≡ 0
  tally-replicate test zero s h = refl
  tally-replicate test (suc n) s h = rw h (omega (arith, tally-replicate test n s h))

  replicate_reads : (n idx : ℕ) (s t : Slot K V) → get_elem? (replicate n s) idx ≡ some t → s ≡ t
  replicate_reads zero idx s t h = cc h
  replicate_reads (suc n) zero s t h = cc h
  replicate_reads (suc n) (suc idx) s t h = replicate_reads n idx s t h

module _ {ℓ} {K V : Type ℓ} ⦃c : Comparable K⦄ (hash : K → ℕ) where
  -- A probe on a table with room ends, in the slot of the key or in one where it may be put.
  pub probe-IsProbed :
      (f : K → Option V) (slots : List (Slot K V)) (key : K)
      → IsTable hash f slots
      → tally is_occupied slots + tally is_deleted slots < length slots
      → IsProbed hash slots key (probe_loop hash slots key (length slots) 0 none)
  probe-IsProbed f slots key t h =
      let gap = tally-HasGap slots h in
      let (turn, bound, here) = spot_reaches hash slots key gap.idx t.width gap.bound in
      probe_loop-IsProbed hash slots key t.width turn bound gap.hole (rw here gap.read) gap.vacant
        (length slots) 0 none (omega arith) tt (λ j k. absurd (omega arith))

  -- New slots hold the empty map.
  pub blank-IsTable :
      (n : ℕ) (s : Slot K V)
      → IsPower n
      → s.state ≡ empty
      → IsTable hash (λ _. none) (replicate n s)
  blank-IsTable n s p e = record {
    width = rw (length-replicate n s) p;
    sound = λ idx t read full.
        let alike = replicate_reads n idx s t read in
        let vacant : t.state ≡ empty = rw (sym alike) e in cc (vacant, full);
    complete = λ key v h. cc h;
    distinct = λ i j a b ra rb fa fb k.
        let alike = replicate_reads n i s a ra in
        let vacant : a.state ≡ empty = rw (sym alike) e in cc (vacant, fa);
  }

-- slotsFor gives a power of two that is large enough.
size_loop_enough :
    (fuel size needed : ℕ) → 0 < size → needed ≤ fuel + size → needed ≤ size_loop fuel size needed
size_loop_enough zero size needed h k = omega arith
size_loop_enough (suc fuel) size needed h k =
    ground (arith, size_loop_enough fuel (size * 2) needed)

size_loop-IsPower : (fuel size needed : ℕ) → IsPower size → IsPower (size_loop fuel size needed)
size_loop-IsPower zero size needed p = p
size_loop-IsPower (suc fuel) size needed (k, e) = elim (lt_or_ge size needed) [
  | inl more ↦
      let small : ltb size needed ≡ true = ground arith in
      rw small (size_loop-IsPower fuel (size * 2) needed (suc k, omega (arith, pow-suc 2 k)))
  | inr done ↦ let big : ltb size needed ≡ false = ground arith in rw big (k, e)
]

pub slots_for-IsPower : (n : ℕ) → IsPower (slots_for n)
unfolding slots_for
slots_for-IsPower n = size_loop-IsPower (n * 10 / 7 + 1) 8 (n * 10 / 7 + 1) (3, refl)

pub slots_for_room : (n : ℕ) → 10 * n ≤ 7 * slots_for n
unfolding slots_for
slots_for_room n =
    let needed = n * 10 / 7 + 1 in
    omega (arith, size_loop_enough needed 8 needed (omega arith) (omega arith))
