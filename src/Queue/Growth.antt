-- ===== src/Queue/Growth.antt =====
-- grow and Push of dsa/queue/queue.go: the larger buffer holds the same list, from its first slot on.
use learn_go.Prelude.{
  ℕ, ◌+◌, ◌-◌, ◌*◌, ◌≤◌, ◌<◌, ◌≡◌, refl, ap, ◌∙◌, inl, inr, min, max, true, false, some, List, [],
  ◌∷◌, ◌++◌, length, length-take, length-drop, length-replicate, get_elem?, take, drop, replicate,
  arith, leb, ◌==◌, lt_or_ge,
}
use learn_go.Prelude.Index.{get_elem?-take, get_elem?-drop}
use learn_go.Prelude.Copy.{copy, length-copy, copy_before, copy_inside}
use learn_go.Queue.{Queue, grow, push}
use learn_go.Queue.Ring.{Holds, spot, push_back-Holds}

first_spot : (cap i : ℕ) → i < cap → spot cap (0 + i) ≡ i
first_spot cap i h = ground arith

module _ {ℓ} {T : Type ℓ} where
  -- The buffer after a growth, and its places: the part behind the head first, then the rest.
  bigger : T → List T → List T
  bigger z items = replicate (max 1 (length items * 2)) z

  abbrev unrolled : T → List T → ℕ → List T
  unrolled z items head =
      let front = drop head items in
      copy (copy (bigger z items) 0 front) (min (length (bigger z items)) (length front))
        (take head items)

  length-bigger : (z : T) (items : List T) → length (bigger z items) ≡ max 1 (length items * 2)
  unfolding bigger
  length-bigger z items = length-replicate (max 1 (length items * 2)) z

  length-unrolled :
      (z : T) (items : List T) (head : ℕ)
      → head ≤ length items
      → length (unrolled z items head) ≡ max 1 (length items * 2)
  length-unrolled z items head h =
      let big = bigger z items in
      let front = drop head items in
      let wide = length-bigger z items in
      let ahead = length-drop head items in
      let behind = length-take head items in
      let first = length-copy big 0 front (omega arith) in
      length-copy (copy big 0 front) (min (length big) (length front)) (take head items)
        (omega arith)
      ∙ (first ∙ wide)

  unrolled_places :
      (z : T) (items : List T) (head i : ℕ)
      → head ≤ length items
      → i < length items
      → get_elem? (unrolled z items head) i ≡ get_elem? items (spot (length items) (head + i))
  unrolled_places z items head i h k =
      let big = bigger z items in
      let front = drop head items in
      let wide = length-bigger z items in
      let ahead = length-drop head items in
      let behind = length-take head items in
      let first = length-copy big 0 front (omega arith) in
      let n = min (length big) (length front) in
      elim (lt_or_ge i (length front)) [
        | inl early ↦
            copy_before (copy big 0 front) n (take head items) i (omega arith) (omega arith)
            ∙ (copy_inside big 0 front i (omega arith) (omega arith) (omega arith)
                ∙ (get_elem?-drop head items (i - 0) ∙ ap (get_elem? items) (ground arith)))
        | inr late ↦
            copy_inside (copy big 0 front) n (take head items) i (omega arith) (omega arith)
              (omega arith)
            ∙ (get_elem?-take head items (i - n) (omega arith)
                ∙ ap (get_elem? items) (ground arith))
      ]

  full_tail :
      (q : Queue T) (xs : List T) → Holds q xs → length xs ≡ length q.items → q.tail ≡ q.head
  full_tail q xs h full = elim h.head_in [
    | inl inside ↦ ground (arith, h.tail_at)
    | inr none_at_all ↦ ground (arith, h.tail_at)
  ]

  -- Growth of a full buffer keeps its list, and makes room.
  grow-Holds :
      (z : T) (q : Queue T) (xs : List T)
      → Holds q xs
      → length xs ≡ length q.items
      → (q' : Queue T) × (grow z q ≡ some q') × Holds q' xs × (length xs < length q'.items)
  unfolding grow bigger
  grow-Holds z q xs h full =
      let start : q.head ≤ length q.items = omega (arith, h.head_in) in
      let same = full_tail q xs h full in
      let wide = length-unrolled z q.items q.head start in
      let from : leb q.head (length q.items) ≡ true = ground arith in
      (
        record { items = unrolled z q.items q.head; head = 0; tail = q.count; count = q.count },
        rw (same, from) refl,
        record {
          size = h.size;
          fits = omega arith;
          head_in = inl (omega arith);
          tail_at = rw wide (ground (arith, h.size));
          placed = λ i k.
              ap (get_elem? (unrolled z q.items q.head)) (first_spot _ i (omega arith))
              ∙ (unrolled_places z q.items q.head i start (omega arith) ∙ h.placed i k);
        },
        omega arith,
      )

  -- Push never panics, and adds to the end of the list that the buffer holds.
  pub push-Holds :
      (z : T) (q : Queue T) (xs : List T) (v : T)
      → Holds q xs
      → (q' : Queue T) × (push z q v ≡ some q') × Holds q' (xs ++ v ∷ [])
  unfolding push
  push-Holds z q xs v h = elim (lt_or_ge (length xs) (length q.items)) [
    | inl room ↦
        let (q', done, held) = push_back-Holds q xs v h room in
        let not_full : (q.count == length q.items) ≡ false = ground (arith, h.size) in
        (q', rw not_full done, held)
    | inr over ↦
        let (wider, grown, kept, room) = grow-Holds z q xs h (omega (arith, h.fits)) in
        let (q', done, held) = push_back-Holds wider xs v kept room in
        let full : (q.count == length q.items) ≡ true = ground (arith, h.size, h.fits) in
        (q', rw (full, grown) done, held)
  ]
