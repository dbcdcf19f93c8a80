-- ===== src/Hashmap/Rehash.antt =====
-- resize (dsa/hashmap/hashmap.go): the new table holds the same map.
use learn_go.Prelude.{
  ℕ, suc, ◌+◌, ◌≡◌, ◌≢◌, refl, ap, ◌∙◌, sym, inl, inr, false, Option, none, some, List, [], ◌∷◌,
  replicate, length-replicate, arith, Bool-cases,
}
use learn_go.Prelude.Comparable.{Comparable}
use learn_go.Hashmap.{
  occupied, is_occupied, is_deleted, Slot, HashMap, probe, blank, slots_for, resize_loop, resize,
}
use learn_go.Hashmap.Path.{power_positive}
use learn_go.Hashmap.Probing.{state_cases}
use learn_go.Hashmap.Table.{update, IsTable}
use learn_go.Hashmap.Find.{find, Apart, find-IsTable, IsTable-Apart}
use learn_go.Hashmap.Tally.{
  one_if, tally, tally-replicate, blank-IsTable, slots_for-IsPower, slots_for_room,
}
use learn_go.Hashmap.Move.{vacant, store_fits, IsRoomy, move_to, moved, IsRoomy-same, IsRoomy-rest}

abbrev pub either {ℓ} : {A : Type ℓ} → Option A → Option A → Option A
either none b = b
either (some v) b = some v

module _ {ℓ} {K V : Type ℓ} ⦃c : Comparable K⦄ (hash : K → ℕ) where
  pub record IsRehashed (g : K → Option V) (old : List (Slot K V)) (m m' : HashMap K V)
      : Type ℓ where
    pub roomy : IsRoomy hash (λ q. either (g q) (find q old)) 0 m'
    pub total : m'.count ≡ m.count + tally is_occupied old
    pub dead_kept : m'.dead ≡ m.dead

  abbrev Fresh : (K → Option V) → List (Slot K V) → Type ℓ
  Fresh g old = (q : K) (v : V) → find q old ≡ some v → g q ≡ none

  module _ (g : K → Option V) (s : Slot K V) (old : List (Slot K V)) where
    skip : s.state ≢ occupied → (q : K) → find q (s ∷ old) ≡ find q old
    skip h q = elim (state_cases s.state) [
      | inl e ↦ rw e refl
      | inr used ↦ elim used [ inl e ↦ rw e refl | inr e ↦ absurd (h e) ]
    ]

    own_entry : s.state ≡ occupied → find s.key (s ∷ old) ≡ some s.value
    own_entry e = rw (e, c.same_self s.key) refl

    other_entry :
        s.state ≡ occupied → (q : K) → c.same q s.key ≡ false → find q (s ∷ old) ≡ find q old
    other_entry e q h = rw (e, h) refl

    Fresh-next :
        s.state ≡ occupied
        → find s.key old ≡ none
        → Fresh g (s ∷ old)
        → Fresh (update g s.key (some s.value)) old
    Fresh-next e gone fresh q v h = elim (Bool-cases (c.same q s.key)) [
      | inl same ↦
          let own : find s.key old ≡ some v = rw (c.eq_of_same q s.key same) at h in cc (own, gone)
      | inr other ↦ rw other (fresh q v (other_entry e q other ∙ h))
    ]

    either-next :
        s.state ≡ occupied
        → Fresh g (s ∷ old)
        → (q : K)
        → either (update g s.key (some s.value) q) (find q old) ≡ either (g q) (find q (s ∷ old))
    either-next e fresh q = elim (Bool-cases (c.same q s.key)) [
      | inl same ↦
          let own : find q (s ∷ old) ≡ some s.value = rw (e, same) refl in
          rw (same, fresh q s.value own, e) refl
      | inr other ↦ rw (other, e) refl
    ]

  module _ (g : K → Option V) (s : Slot K V) (old : List (Slot K V)) (m m' : HashMap K V) where
    IsRehashed-skip : s.state ≢ occupied → IsRehashed g old m m' → IsRehashed g (s ∷ old) m m'
    IsRehashed-skip h r = record {
      roomy =
          IsRoomy-same hash (λ q. either (g q) (find q old)) (λ q. either (g q) (find q (s ∷ old)))
            0 m' (λ q. ap (either (g q)) (sym (skip g s old h q))) r.roomy;
      total = omega (arith, r.total, vacant s.state h);
      dead_kept = r.dead_kept;
    }

    IsRehashed-next :
        (next : HashMap K V)
        → next.count ≡ m.count + 1
        → next.dead ≡ m.dead
        → s.state ≡ occupied
        → Fresh g (s ∷ old)
        → IsRehashed (update g s.key (some s.value)) old next m'
        → IsRehashed g (s ∷ old) m m'
    IsRehashed-next next more same e fresh r =
        let full : one_if (is_occupied s.state) ≡ 1 = rw e refl in
        record {
          roomy =
              IsRoomy-same hash (λ q. either (update g s.key (some s.value) q) (find q old))
                (λ q. either (g q) (find q (s ∷ old))) 0 m' (either-next g s old e fresh) r.roomy;
          total = omega (arith, r.total);
          dead_kept = r.dead_kept ∙ same;
        }

  either-none : (o : Option V) → o ≡ either o none
  either-none none = refl
  either-none (some v) = refl

  resize_loop-IsRehashed :
      (old : List (Slot K V)) (g : K → Option V) (m : HashMap K V)
      → IsRoomy hash g (tally is_occupied old) m
      → Apart old
      → Fresh g old
      → (m' : HashMap K V) × (resize_loop hash old m ≡ some m') × IsRehashed g old m m'
  unfolding resize_loop probe
  resize_loop-IsRehashed [] g m r a fresh = (
    m,
    refl,
    record {
      roomy = IsRoomy-same hash g (λ q. either (g q) none) 0 m (λ q. either-none (g q)) r;
      total = omega arith;
      dead_kept = refl;
    },
  )
  resize_loop-IsRehashed (s ∷ old) g m r (here, later) fresh =
      let skipped : s.state ≢ occupied
          → (m' : HashMap K V) × (resize_loop hash old m ≡ some m') × IsRehashed g (s ∷ old) m m' =
        λ gone.
          let room =
            IsRoomy-rest hash g (one_if (is_occupied s.state) + tally is_occupied old)
              (tally is_occupied old) m (omega (arith, vacant s.state gone)) r in
          let (m', done, h) =
            resize_loop-IsRehashed old g m room later
              (λ q v k. fresh q v (skip g s old gone q ∙ k)) in
          (m', done, IsRehashed-skip g s old m m' gone h) in
      elim (state_cases s.state) [
        | inl e ↦ let (m', done, h) = skipped (λ k. cc (e, k)) in (m', rw e done, h)
        | inr used ↦ elim used [
          | inl e ↦ let (m', done, h) = skipped (λ k. cc (e, k)) in (m', rw e done, h)
          | inr e ↦
              let full : one_if (is_occupied s.state) + tally is_occupied old
                  ≡ suc (tally is_occupied old) =
                rw e (omega arith) in
              let room =
                IsRoomy-rest hash g (one_if (is_occupied s.state) + tally is_occupied old)
                  (suc (tally is_occupied old)) m full r in
              let mv =
                moved hash g (tally is_occupied old) m room s e
                  (fresh s.key s.value (own_entry g s old e)) in
              let next =
                move_to hash g (tally is_occupied old) m room s e
                  (fresh s.key s.value (own_entry g s old e)) mv.idx mv.found mv.steps in
              let (m', done, h) =
                resize_loop-IsRehashed old (update g s.key (some s.value)) next mv.after later
                  (Fresh-next g s old e (here e) fresh) in
              (
                m',
                rw
                    (
                      e,
                      mv.done,
                      store_fits m.slots mv.idx
                          (record { key = s.key; value = s.value; state = occupied }) mv.fits,
                    )
                    done,
                IsRehashed-next g s old m m' next refl refl e fresh h,
              )
        ]
      ]

module _ {ℓ} {K V : Type ℓ} ⦃c : Comparable K⦄ (hash : K → ℕ) (zero_key : K) (zero_value : V) where
  -- New slots, with room for `n` keys.
  pub blank-IsRoomy :
      (n probes : ℕ)
      → IsRoomy hash
          (λ _. none)
          n
          (record {
            slots = replicate (slots_for n) (blank hash zero_key zero_value);
            count = 0;
            dead = 0;
            probes = probes;
          })
  blank-IsRoomy n probes =
      let s : Slot K V = blank hash zero_key zero_value in
      let size = length-replicate (slots_for n) s in
      let positive = power_positive (slots_for n) (slots_for-IsPower n) in
      record {
        table = blank-IsTable hash (slots_for n) s (slots_for-IsPower n) refl;
        counts = sym (tally-replicate is_occupied (slots_for n) s refl);
        clean = tally-replicate is_deleted (slots_for n) s refl;
        light = omega (arith, slots_for_room n);
        some_slot = omega arith;
      }

  -- resize rebuilds the table without tombstones, and it holds the same map.
  pub resize-IsRoomy :
      (f : K → Option V) (m : HashMap K V)
      → IsTable hash f m.slots
      → m.count ≡ tally is_occupied m.slots
      → (m' : HashMap K V) × (resize hash zero_key zero_value m ≡ some m')
        × IsRoomy hash f 0 m'
        × (m'.count ≡ m.count)
        × (m'.dead ≡ 0)
  unfolding resize
  resize-IsRoomy f m t counts =
      let start =
        IsRoomy-rest hash (λ _. none) m.count (tally is_occupied m.slots)
          (record {
            slots = replicate (slots_for m.count) (blank hash zero_key zero_value);
            count = 0;
            dead = 0;
            probes = m.probes;
          })
          counts (blank-IsRoomy m.count m.probes) in
      let (m', done, h) =
        resize_loop-IsRehashed hash m.slots (λ _. none)
          (record m {
            slots = replicate (slots_for m.count) (blank hash zero_key zero_value);
            count = 0;
            dead = 0;
          })
          start (IsTable-Apart hash f m.slots t) (λ q v e. refl) in
      (
        m',
        done,
        IsRoomy-same hash (λ q. find q m.slots) f 0 m' (find-IsTable hash f m.slots t) h.roomy,
        omega (arith, h.total),
        h.dead_kept,
      )
