-- ===== src/Sorting/Insertion.antt =====
-- InsertionFunc (dsa/sorting/quadratic.go) is a stable sort.

use learn_go.Prelude.{
  ℕ, suc, ◌+◌, ◌-◌, ◌≡◌, refl, ap, ◌∙◌, sym, some, ◌>>=◌, Bool-cases, inl, inr, List, [], ◌∷◌, ◌++◌,
  append_assoc, append-nil, length, length-append, get_elem?, arith, if◌then◌else◌,
}
use learn_go.Prelude.Index.{upward, length-upward}
use learn_go.Prelude.Copy.{store, get_elem?-middle, store-middle}
use learn_go.Prelude.Ordered.{is_gt}
use learn_go.Sorting.{slide, insert_at, insertion_loop, insertion}
use learn_go.Sorting.Order.{
  Comparison, AllOf, AllOf-imp, ◌≼◌, IsAscending, IsStableSort, AllOf-append, IsAscending-append,
  ≼_of_gt, IsRearranged, IsRearranged-refl, IsRearranged-trans, IsRearranged-append,
  IsRearranged-swap,
}

module _ {ℓ} {A : Type ℓ} ⦃o : Comparison A⦄ where
  -- Where the element ends up, in the part in front of it read backwards.
  abbrev placed : A → List A → List A
  placed c [] = c ∷ []
  placed c (x ∷ s) = let rest = placed c s in if is_gt (o.compare x c) then x ∷ rest else c ∷ x ∷ s

  -- The slide behind the reversed part `r`, over the slot of `h`, and the write at its end.
  slide-placed :
      (r : List A) (c h : A) (b : List A)
      → (slide (upward r ++ h ∷ b) c (length r) >>= λ x. store x.0 x.1 c)
        ≡ some (upward (placed c r) ++ b)
  unfolding slide
  slide-placed [] c h b = store-middle [] h c b 0 refl
  slide-placed (x ∷ r) c h b =
      let long = length-upward r in
      let grouped : upward (x ∷ r) ++ h ∷ b ≡ upward r ++ x ∷ h ∷ b =
        append_assoc (upward r) (x ∷ []) (h ∷ b) in
      let here : get_elem? (upward (x ∷ r) ++ h ∷ b) (length r) ≡ some x =
        ap (λ s. get_elem? s (length r)) grouped
        ∙ get_elem?-middle (upward r) x (h ∷ b) (length r) (omega arith) in
      elim (Bool-cases (is_gt (o.compare x c))) [
        | inl greater ↦
            let moved : store (upward (x ∷ r) ++ h ∷ b) (suc (length r)) x
                ≡ some (upward r ++ x ∷ x ∷ b) =
              store-middle (upward (x ∷ r)) h x b (suc (length r))
                (omega (arith, length-append (upward r) (x ∷ [])))
              ∙ ap some (append_assoc (upward r) (x ∷ []) (x ∷ b)) in
            let rest = slide-placed r c x (x ∷ b) in
            let end : upward (placed c r) ++ x ∷ b ≡ (upward (placed c r) ++ x ∷ []) ++ b =
              sym (append_assoc (upward (placed c r)) (x ∷ []) b) in
            rw (here, greater, moved) (rest ∙ ap some end)
        | inr stops ↦
            rw (here, stops)
              (store-middle (upward (x ∷ r)) h c b (suc (length r))
                  (omega (arith, length-append (upward r) (x ∷ [])))
                ∙ ap some (sym (append_assoc (upward (x ∷ r)) (c ∷ []) b)))
      ]

  placed-length : (c : A) (r : List A) → length (placed c r) ≡ suc (length r)
  placed-length c [] = refl
  placed-length c (x ∷ r) = ground (arith, placed-length c r)

  abbrev placed_all : List A → List A → List A
  placed_all [] r = r
  placed_all (c ∷ b) r = placed_all b (placed c r)

  insert_at-placed :
      (r : List A) (c : A) (b : List A) (i : ℕ)
      → i ≡ length r
      → insert_at (upward r ++ c ∷ b) i ≡ some (upward (placed c r) ++ b)
  unfolding insert_at
  insert_at-placed r c b i h =
      let here = get_elem?-middle (upward r) c b i (omega (arith, length-upward r)) in
      rw (here, h) (slide-placed r c c b)

  insertion_loop-placed_all :
      (b r : List A) (i : ℕ)
      → i ≡ length r
      → insertion_loop (upward r ++ b) i (length b) ≡ some (upward (placed_all b r))
  unfolding insertion_loop
  insertion_loop-placed_all [] r i h = ap some (append-nil (upward r))
  insertion_loop-placed_all (c ∷ b) r i h =
      let step = insert_at-placed r c b i h in
      rw step (insertion_loop-placed_all b (placed c r) (i + 1) (omega (arith, placed-length c r)))

  -- Elements in order backwards.
  abbrev IsDescending : List A → Type 0
  IsDescending [] = Unit
  IsDescending (x ∷ s) = AllOf (λ y. y ≼ x) s × IsDescending s

  AllOf-placed : (P : A → Type 0) (c : A) (r : List A) → P c → AllOf P r → AllOf P (placed c r)
  AllOf-placed P c [] h k = (h, tt)
  AllOf-placed P c (x ∷ r) h k = ground (arith, AllOf-placed P c r h k.1)

  placed-IsDescending : (c : A) (r : List A) → IsDescending r → IsDescending (placed c r)
  placed-IsDescending c [] d = (tt, tt)
  placed-IsDescending c (x ∷ r) d = elim (Bool-cases (is_gt (o.compare x c))) [
    | inl greater ↦ rw greater (
      AllOf-placed (λ y. y ≼ x) c r (≼_of_gt x c (ground arith)) d.0,
      placed-IsDescending c r d.1,
    )
    | inr stops ↦
        let below : x ≼ c = λ e. ground arith in
        rw stops ((below, AllOf-imp (λ y h. o.chain y x c h below) r d.0), d)
  ]

  placed_all-IsDescending : (b r : List A) → IsDescending r → IsDescending (placed_all b r)
  placed_all-IsDescending [] r d = d
  placed_all-IsDescending (c ∷ b) r d =
      placed_all-IsDescending b (placed c r) (placed-IsDescending c r d)

  AllOf-upward : (P : A → Type 0) (r : List A) → AllOf P r → AllOf P (upward r)
  AllOf-upward P [] h = tt
  AllOf-upward P (x ∷ r) h = AllOf-append P (upward r) (x ∷ []) (AllOf-upward P r h.1) (h.0, tt)

  upward-IsAscending : (r : List A) → IsDescending r → IsAscending (upward r)
  upward-IsAscending [] d = tt
  upward-IsAscending (x ∷ r) d =
      IsAscending-append (upward r) (x ∷ []) (upward-IsAscending r d.1) (tt, tt)
        (AllOf-upward (λ y. AllOf (λ z. y ≼ z) (x ∷ [])) r (AllOf-imp (λ y h. (h, tt)) r d.0))

  placed-IsRearranged :
      (c : A) (r : List A) → IsRearranged (upward (placed c r)) (upward r ++ c ∷ [])
  placed-IsRearranged c [] = IsRearranged-refl (c ∷ [])
  placed-IsRearranged c (x ∷ r) = elim (Bool-cases (is_gt (o.compare x c))) [
    | inl greater ↦
        rw (greater, append_assoc (upward r) (x ∷ []) (c ∷ []))
          (IsRearranged-trans
            (rw (append_assoc (upward r) (c ∷ []) (x ∷ [])) at
              (IsRearranged-append (placed-IsRearranged c r) (IsRearranged-refl (x ∷ []))))
            (IsRearranged-append (IsRearranged-refl (upward r))
              (IsRearranged-swap x c (ground arith))))
    | inr stops ↦ rw stops (IsRearranged-refl _)
  ]

  placed_all-IsRearranged : (b r : List A) → IsRearranged (upward (placed_all b r)) (upward r ++ b)
  placed_all-IsRearranged [] r = rw (append-nil (upward r)) (IsRearranged-refl (upward r))
  placed_all-IsRearranged (c ∷ b) r = IsRearranged-trans (placed_all-IsRearranged b (placed c r)) (
      rw (append_assoc (upward r) (c ∷ []) b) at
        (IsRearranged-append (placed-IsRearranged c r) (IsRearranged-refl b)))

  -- InsertionFunc never panics, and returns the slice in order, with equivalent elements in the
  -- order that they had.
  pub insertion-IsStableSort :
      (s : List A) → (t : List A) × (insertion s ≡ some t) × IsStableSort s t
  unfolding insertion insertion_loop
  insertion-IsStableSort [] =
      ([], refl, record { ascending = tt; rearranged = IsRearranged-refl [] })
  insertion-IsStableSort (c ∷ b) =
      let same : length (c ∷ b) - 1 ≡ length b = omega arith in
      (
        upward (placed_all b (c ∷ [])),
        rw same (insertion_loop-placed_all b (c ∷ []) 1 refl),
        record {
          ascending = upward-IsAscending _ (placed_all-IsDescending b (c ∷ []) (tt, tt));
          rearranged = placed_all-IsRearranged b (c ∷ []);
        },
      )
