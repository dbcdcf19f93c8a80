-- ===== src/Hashmap/Probing.antt =====
-- What probe returns (dsa/hashmap/hashmap.go): where a key is, or where it may be put.
use learn_go.Prelude.{
  ℕ, zero, suc, ◌+◌, ◌≤◌, ◌<◌, ◌≡◌, ◌≢◌, refl, ◌⊎◌, inl, inr, Bool, true, false, Option, none, some,
  List, [], ◌∷◌, length, get_elem?, arith, lt_or_ge, Bool-cases,
}
use learn_go.Prelude.Comparable.{Comparable}
use learn_go.Hashmap.{SlotState, empty, occupied, deleted, Slot, Probe, spot, probe_loop, or_else}
use learn_go.Hashmap.Path.{IsPower, spot_bound}

pub get_elem?-some {ℓ} :
    {A : Type ℓ} (s : List A) (i : ℕ) → i < length s → (x : A) × (get_elem? s i ≡ some x)
get_elem?-some [] i h = absurd (omega arith)
get_elem?-some (x ∷ s) zero h = (x, refl)
get_elem?-some (x ∷ s) (suc i) h = get_elem?-some s i (omega arith)

pub get_elem?_bound {ℓ} :
    {A : Type ℓ} (s : List A) (i : ℕ) (x : A) → get_elem? s i ≡ some x → i < length s
get_elem?_bound [] i x h = cc h
get_elem?_bound (y ∷ s) zero x h = omega arith
get_elem?_bound (y ∷ s) (suc i) x h = omega (arith, get_elem?_bound s i x h)

pub state_cases : (s : SlotState) → (s ≡ empty) ⊎ ((s ≡ deleted) ⊎ (s ≡ occupied))
state_cases empty = inl refl
state_cases deleted = inr (inl refl)
state_cases occupied = inr (inr refl)

module _ {ℓ} {K V : Type ℓ} ⦃c : Comparable K⦄ (hash : K → ℕ) (slots : List (Slot K V))
    (key : K) where
  abbrev pub on : ℕ → Option (Slot K V)
  on i = get_elem? slots (spot hash slots key i)

  -- A probe goes on at the slot.
  abbrev pub Passes : Option (Slot K V) → Type 0
  Passes none = ⊥
  Passes (some s) = s.state ≢ empty

  -- A slot that holds no key, or another one.
  abbrev pub Other : Option (Slot K V) → Type ℓ
  Other none = Unit
  Other (some s) = s.state ≡ occupied → s.key ≢ key

  -- The probe gets to the slot `idx` in the round `turn`.
  pub record Reaches (idx turn : ℕ) : Type 0 where
    pub bound : turn < length slots
    pub here : spot hash slots key turn ≡ idx
    pub way : (j : ℕ) → j < turn → Passes (on j)

  -- The key is in the slot `idx`.
  pub record IsHit (idx : ℕ) : Type ℓ where
    pub turn : ℕ
    pub reach : Reaches idx turn
    pub slot : Slot K V
    pub read : get_elem? slots idx ≡ some slot
    pub full : slot.state ≡ occupied
    pub own : slot.key ≡ key

  -- The key is not on the way to the first empty slot, and `idx` is a slot on it that holds none.
  pub record IsMiss (idx : ℕ) : Type ℓ where
    pub turn : ℕ
    pub reach : Reaches idx turn
    pub slot : Slot K V
    pub read : get_elem? slots idx ≡ some slot
    pub free : slot.state ≢ occupied
    pub stop : ℕ
    pub stop_bound : stop < length slots
    pub last : Slot K V
    pub ended : (on stop ≡ some last) × (last.state ≡ empty)
    pub others : (j : ℕ) → j < stop → Other (on j)

  abbrev pub Outcome : Bool → ℕ → Type ℓ
  Outcome true = IsHit
  Outcome false = IsMiss

  -- What the loop knows of the first tombstone.
  pub record IsTombstone (i idx : ℕ) : Type ℓ where
    pub turn : ℕ
    pub earlier : turn < i
    pub here : spot hash slots key turn ≡ idx
    pub slot : Slot K V
    pub read : get_elem? slots idx ≡ some slot
    pub free : slot.state ≢ occupied

  abbrev pub First : ℕ → Option ℕ → Type ℓ
  First i none = Unit
  First i (some idx) = IsTombstone i idx

  pub record IsProbed (r : Option Probe) : Type ℓ where
    pub at : ℕ
    pub hit : Bool
    pub steps : ℕ
    pub done : r ≡ some (record { index = some at; found = hit; examined = steps })
    pub outcome : Outcome hit at

  First-later : (i : ℕ) (first : Option ℕ) → First i first → First (suc i) first
  First-later i none h = tt
  First-later i (some idx) h = record {
    turn = h.turn;
    earlier = omega (arith, h.earlier);
    here = h.here;
    slot = h.slot;
    read = h.read;
    free = h.free;
  }

  module _ (p : IsPower (length slots)) (gap : ℕ) (gap_bound : gap < length slots) (hole : Slot K V)
      (gap_read : on gap ≡ some hole) (gap_empty : hole.state ≡ empty) where
    -- One round of the loop.
    module _ (left i : ℕ) (first : Option ℕ) (s : Slot K V) (read : on i ≡ some s)
        (i_bound : i < length slots) (f : First i first)
        (past : (j : ℕ) → j < i → Passes (on j) × Other (on j)) where
      way_to : (turn : ℕ) → turn ≤ i → (j : ℕ) → j < turn → Passes (on j)
      way_to turn h j k = (past j (omega arith)).0

      IsHit-here : s.state ≡ occupied → s.key ≡ key → IsHit (spot hash slots key i)
      IsHit-here full own = record {
        turn = i;
        reach = record { bound = i_bound; here = refl; way = way_to i (omega arith) };
        slot = s;
        read = read;
        full = full;
        own = own;
      }

      IsMiss-here :
          (first : Option ℕ)
          → First i first
          → s.state ≡ empty
          → IsMiss (or_else first (spot hash slots key i))
      IsMiss-here none g e = record {
        turn = i;
        reach = record { bound = i_bound; here = refl; way = way_to i (omega arith) };
        slot = s;
        read = read;
        free = λ full. cc (e, full);
        stop = i;
        stop_bound = i_bound;
        last = s;
        ended = (read, e);
        others = λ j h. (past j h).1;
      }
      IsMiss-here (some idx) g e = record {
        turn = g.turn;
        reach = record {
          bound = omega (arith, g.earlier);
          here = g.here;
          way = way_to g.turn (omega (arith, g.earlier));
        };
        slot = g.slot;
        read = g.read;
        free = g.free;
        stop = i;
        stop_bound = i_bound;
        last = s;
        ended = (read, e);
        others = λ j h. (past j h).1;
      }

      buried :
          (first : Option ℕ)
          → First i first
          → s.state ≡ deleted
          → First (suc i) (some (or_else first (spot hash slots key i)))
      buried none g e = record {
        turn = i;
        earlier = omega arith;
        here = refl;
        slot = s;
        read = read;
        free = λ full. cc (e, full);
      }
      buried (some idx) g e = First-later i (some idx) g

      past_here :
          s.state ≢ empty
          → (s.state ≡ occupied → s.key ≢ key)
          → (j : ℕ) → j < suc i
          → Passes (on j) × Other (on j)
      past_here a b j h = elim (lt_or_ge j i) [
        | inl before ↦ past j before
        | inr after ↦ let same : j ≡ i = omega arith in rw (same, read) (a, b)
      ]

      round :
          ((first' : Option ℕ)
            → First (suc i) first'
            → ((j : ℕ) → j < suc i → Passes (on j) × Other (on j))
            → IsProbed (probe_loop hash slots key left (suc i) first'))
          → IsProbed (probe_loop hash slots key (suc left) i first)
      round next = elim (state_cases s.state) [
        | inl e ↦
            rw (read, e)
              (record {
                at = or_else first (spot hash slots key i);
                hit = false;
                steps = suc i;
                done = refl;
                outcome = IsMiss-here first f e;
              })
        | inr used ↦ elim used [
          | inl e ↦
              rw (read, e)
                (next (some (or_else first (spot hash slots key i))) (buried first f e)
                  (past_here (λ h. cc (e, h)) (λ h. cc (e, h))))
          | inr e ↦ elim (Bool-cases (c.same s.key key)) [
            | inl same ↦
                rw (read, e, same)
                  (record {
                    at = spot hash slots key i;
                    hit = true;
                    steps = suc i;
                    done = refl;
                    outcome = IsHit-here e (c.eq_of_same s.key key same);
                  })
            | inr other ↦
                rw (read, e, other)
                  (next first (First-later i first f) (
                    past_here (λ h. cc (e, h))
                      (λ h k. let no = rw k at other in let yes = c.same_self key in cc (no, yes))))
          ]
        ]
      ]

    pub probe_loop-IsProbed :
        (left i : ℕ) (first : Option ℕ)
        → i + left ≡ length slots
        → First i first
        → ((j : ℕ) → j < i → Passes (on j) × Other (on j))
        → IsProbed (probe_loop hash slots key left i first)
    probe_loop-IsProbed zero i first e f past =
        let (more, _) = past gap (omega arith) in absurd ((rw gap_read at more) gap_empty)
    probe_loop-IsProbed (suc left) i first e f past =
        let (s, read) =
          get_elem?-some slots (spot hash slots key i) (spot_bound hash slots key i p) in
        round left i first s read (omega arith) f past
          (λ first' g more. probe_loop-IsProbed left (suc i) first' (omega arith) g more)
