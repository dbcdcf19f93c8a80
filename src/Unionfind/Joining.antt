-- ===== src/Unionfind/Joining.antt =====
-- Union of dsa/patterns/unionfind (unionfind.go): one root under the other.
use native.Mathlib.Nat.{two-pow-succ}
use learn_go.Prelude.{
  ℕ, suc, ◌+◌, ◌^◌, ◌≤◌, max, ◌≡◌, ◌≢◌, refl, sym, ◌∙◌, ap, ◌⊎◌, inl, inr, some, List, arith,
  Bool-cases, if◌then◌else◌, lt_or_ge,
}
use learn_go.Prelude.Comparable.{Comparable}
use learn_go.Prelude.Dict
use learn_go.Unionfind.Forest.{Known, Known-put, IsForest}

pow_joined : (a b m n : ℕ) → 2 ^ a ≤ m → 2 ^ b ≤ n → n ≤ m → 2 ^ max a (b + 1) ≤ m + n
pow_joined a b m n h k l = elim (lt_or_ge b a) [
  | inl less ↦ let e : max a (b + 1) ≡ a = omega arith in rw e (omega arith)
  | inr more ↦ let e : max a (b + 1) ≡ suc b = omega arith in rw e (omega (arith, two-pow-succ b))
]

module _ {ℓ} {T : Type ℓ} ⦃c : Comparable T⦄ where
  -- The roots after small is put under big.
  abbrev pub joined : (T → T) → T → T → T → T
  joined rep big small q = if c.same (rep q) small then big else rep q

  abbrev pub raised : (T → ℕ) → T → T → T → ℕ
  raised rank big small q = if c.same q big then max (rank big) (rank small + 1) else rank q

  pub joined-moved : (rep : T → T) (big small q : T) → rep q ≡ small → joined rep big small q ≡ big
  joined-moved rep big small q e = rw (e, c.same_self small) refl

  pub joined-other :
      (rep : T → T) (big small q : T) → rep q ≢ small → joined rep big small q ≡ rep q
  joined-other rep big small q h = rw (Dict.same_no (rep q) small h) refl

  raised-big :
      (rank : T → ℕ) (big small : T) → raised rank big small big ≡ max (rank big) (rank small + 1)
  raised-big rank big small = rw (c.same_self big) refl

  raised-other : (rank : T → ℕ) (big small q : T) → q ≢ big → raised rank big small q ≡ rank q
  raised-other rank big small q h = rw (Dict.same_no q big h) refl

  raised_more : (rank : T → ℕ) (big small q : T) → rank q ≤ raised rank big small q
  raised_more rank big small q = elim (Bool-cases (c.same q big)) [
    | inl alike ↦
        let e = c.eq_of_same q big alike in rw (e, raised-big rank big small) (omega arith)
    | inr apart ↦ rw apart (omega arith)
  ]

  pub same_or_not : (x y : T) → (x ≡ y) ⊎ (x ≢ y)
  same_or_not x y = elim (Bool-cases (c.same x y)) [
    | inl alike ↦ inl (c.eq_of_same x y alike)
    | inr apart ↦ inr (Dict.ne_of_same x y apart)
  ]

  module _ (rep : T → T) (rank : T → ℕ) (d : List (T × T)) (sizes : List (T × ℕ))
      (t : IsForest rep rank d sizes) (big small : T) (m n : ℕ) where
    pub hung-IsForest :
        Dict.get d big ≡ some big
        → Dict.get d small ≡ some small
        → big ≢ small
        → Dict.get sizes big ≡ some m
        → Dict.get sizes small ≡ some n
        → n ≤ m
        → IsForest
            (joined rep big small)
            (raised rank big small)
            (Dict.put small big d)
            (Dict.put big (m + n) sizes)
    hung-IsForest root_big root_small ne at_big at_small order =
        let big_self = t.own big root_big in
        let small_self = t.own small root_small in
        let big_stays : rep big ≢ small = λ e. ne (sym big_self ∙ e) in
        let to_big : joined rep big small big ≡ big =
          joined-other rep big small big big_stays ∙ big_self in
        let small_moves = joined-moved rep big small small small_self in
        let level = raised-big rank big small in
        let small_level = raised-other rank big small small (λ e. ne (sym e)) in
        record {
          stays = λ y p e. elim (Dict.put_cases small y big p d e) [
            | inl (at_n, is_big) ↦ rw (at_n, is_big) (to_big ∙ sym small_moves)
            | inr (other, old) ↦ ap (λ q. if c.same q small then big else q) (t.stays y p old)
          ];
          closed = λ y p e. elim (Dict.put_cases small y big p d e) [
            | inl (at_n, is_big) ↦ rw is_big (Known-put d small big big (big, root_big))
            | inr (other, old) ↦ Known-put d small big p (t.closed y p old)
          ];
          rises = λ y p e up. elim (Dict.put_cases small y big p d e) [
            | inl (at_n, is_big) ↦ rw (at_n, is_big) (omega (arith, level, small_level))
            | inr (other, old) ↦
                let low = raised-other rank big small y (λ e.
                  let r = rw e at old in
                  up (
                    let same : some big ≡ some p = sym root_big ∙ r in
                    let b : big ≡ p = cc same in sym b ∙ sym e)) in
                omega (arith, low, raised_more rank big small p, t.rises y p old up)
          ];
          own = λ y e. elim (Dict.put_cases small y big y d e) [
            | inl (at_n, is_big) ↦ absurd (ne (sym is_big ∙ at_n))
            | inr (other, old) ↦
                let self = t.own y old in
                joined-other rep big small y (λ s. other (sym self ∙ s)) ∙ self
          ];
          top = λ y k. elim (same_or_not (rep y) small) [
            | inl moved ↦
                rw (joined-moved rep big small y moved)
                  (Dict.get-put_other small big big d ne ∙ root_big)
            | inr other ↦
                rw (joined-other rep big small y other)
                  (Dict.get-put_other small (rep y) big d other ∙ t.top y (before y k))
          ];
          below = λ y k. elim (same_or_not y big) [
            | inl is_big ↦ rw (is_big, to_big) (omega arith)
            | inr not_big ↦ elim (same_or_not (rep y) small) [
              | inl moved ↦ rw (joined-moved rep big small y moved) (
                  let b = t.below y (before y k) in
                  let at_small = ap rank moved in
                  omega (arith, level, raised-other rank big small y not_big))
              | inr other ↦ rw (joined-other rep big small y other) (
                  omega (
                    arith,
                    t.below y (before y k),
                    raised-other rank big small y not_big,
                    raised_more rank big small (rep y),
                  ))
            ]
          ];
          alone = λ y e.
              let (other, gone) = Dict.put_lacks small y big d e in
              let (self, base) = t.alone y gone in
              (
                joined-other rep big small y (λ s. other (sym self ∙ s)) ∙ self,
                raised-other rank big small y (λ s. let g = rw s at gone in cc (g, root_big))
                    ∙ base,
              );
          sized = λ y e. elim (Dict.put_cases small y big y d e) [
            | inl (at_n, is_big) ↦ absurd (ne (sym is_big ∙ at_n))
            | inr (other, old) ↦ elim (same_or_not y big) [
              | inl is_big ↦
                  rw (is_big, level)
                    (
                      m + n,
                      Dict.get-put_self big (m + n) sizes,
                      pow_joined (rank big) (rank small) m n (large big m root_big at_big)
                          (large small n root_small at_small) order,
                    )
              | inr not_big ↦
                  let (w, held, big_enough) = t.sized y old in
                  (
                    w,
                    Dict.get-put_other big y (m + n) sizes not_big ∙ held,
                    rw (raised-other rank big small y not_big) big_enough,
                  )
            ]
          ];
        }
      where
        before : (y : T) → Known (Dict.put small big d) y → Known d y
        before y (p, e) = elim (Dict.put_cases small y big p d e) [
          | inl (at_n, is_big) ↦ rw at_n (small, root_small)
          | inr (other, old) ↦ (p, old)
        ]

        large : (x : T) (w : ℕ) → Dict.get d x ≡ some x → Dict.get sizes x ≡ some w → 2 ^ rank x ≤ w
        large x w root at =
            let (v, held, enough) = t.sized x root in
            let same : v ≡ w = cc (held, at) in omega arith
