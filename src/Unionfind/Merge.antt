-- ===== src/Unionfind/Merge.antt =====
-- The end of Union of dsa/patterns/unionfind (unionfind.go): two roots become one.
use learn_go.Prelude.{
  ℕ, ◌≤◌, ◌≡◌, ◌≢◌, refl, sym, ◌∙◌, ap, ◌⊎◌, inl, inr, Bool, true, false, not, Option, some, arith,
  Bool-cases, if◌then◌else◌, ltb,
}
use learn_go.Prelude.Comparable.{Comparable}
use learn_go.Prelude.Dict
use learn_go.Unionfind.{Sets, size_at, hang}
use learn_go.Unionfind.Forest.{Known, Known-put, IsForest}
use learn_go.Unionfind.Roots.{Counted, hang-Counted, put-back}
use learn_go.Unionfind.Joining.{
  joined, raised, joined-moved, joined-other, hung-IsForest, same_or_not,
}
use learn_go.Unionfind.Members.{Sized, hang-Sized}

module _ {ℓ} {T : Type ℓ} ⦃c : Comparable T⦄ where
  -- The one new equality of a union.
  abbrev pub Splits : (T → T) → (T → T) → T → T → Type ℓ
  Splits rep rep' a b =
      (p q : T)
      → rep' p ≡ rep' q
      → (rep p ≡ rep q) ⊎ (((rep p ≡ a) × (rep q ≡ b)) ⊎ ((rep p ≡ b) × (rep q ≡ a)))

  joined-Splits : (rep : T → T) (big small : T) → Splits rep (joined rep big small) big small
  joined-Splits rep big small p q e = elim (same_or_not (rep p) small) [
    | inl p_moves ↦ elim (same_or_not (rep q) small) [
      | inl q_moves ↦ inl (p_moves ∙ sym q_moves)
      | inr q_stays ↦ inr (
          inr (
            p_moves,
            sym (joined-other rep big small q q_stays)
                ∙ sym e
                ∙ joined-moved rep big small p p_moves,
          ))
    ]
    | inr p_stays ↦ elim (same_or_not (rep q) small) [
      | inl q_moves ↦ inr (
          inl (
            sym (joined-other rep big small p p_stays) ∙ e ∙ joined-moved rep big small q q_moves,
            q_moves,
          ))
      | inr q_stays ↦
          inl
            (sym (joined-other rep big small p p_stays) ∙ e ∙ joined-other rep big small q q_stays)
    ]
  ]

  swap-Splits : (rep rep' : T → T) (a b : T) → Splits rep rep' a b → Splits rep rep' b a
  swap-Splits rep rep' a b h p q e = elim (h p q e) [
    | inl same ↦ inl same
    | inr (inl (x, y)) ↦ inr (inr (x, y))
    | inr (inr (x, y)) ↦ inr (inl (x, y))
  ]

  -- The sets after the sets a and b became one.
  pub record Merged (rep : T → T) (a b : T) (before s : Sets T) : Type ℓ where
    pub rep' : T → T
    pub rank' : T → ℕ
    pub forest : IsForest rep' rank' s.parent s.size
    pub keeps : (p q : T) → rep p ≡ rep q → rep' p ≡ rep' q
    pub joins : (p q : T) → rep p ≡ a → rep q ≡ b → rep' p ≡ rep' q
    pub splits : Splits rep rep' a b
    pub keeps_known : (y : T) → Known before.parent y → Known s.parent y
    pub back : (y : T) → Known s.parent y → Known before.parent y
    pub counted : Counted before → Counted s
    pub membered : Sized rep before.parent before.size → Sized rep' s.parent s.size

  hang-IsForest :
      (rep : T → T) (rank : T → ℕ) (s : Sets T) (big small : T)
      → IsForest rep rank s.parent s.size
      → Dict.get s.parent big ≡ some big
      → Dict.get s.parent small ≡ some small
      → big ≢ small
      → size_at s small ≤ size_at s big
      → IsForest
          (joined rep big small)
          (raised rank big small)
          (hang s big small).parent
          (hang s big small).size
  hang-IsForest rep rank s big small t root_big root_small ne order =
      let (m, at_big, large) = t.sized big root_big in
      let (n, at_small, small_large) = t.sized small root_small in
      let big_size : size_at s big ≡ m = rw at_big refl in
      let small_size : size_at s small ≡ n = rw at_small refl in
      rw (big_size, small_size)
        (hung-IsForest rep rank s.parent s.size t big small m n root_big root_small ne at_big
          at_small (omega arith))

  hang-Merged :
      (rep : T → T) (rank : T → ℕ) (s : Sets T) (big small : T)
      → IsForest rep rank s.parent s.size
      → Dict.get s.parent big ≡ some big
      → Dict.get s.parent small ≡ some small
      → big ≢ small
      → size_at s small ≤ size_at s big
      → Merged rep big small s (hang s big small)
  hang-Merged rep rank s big small t root_big root_small ne order = record {
    rep' = joined rep big small;
    rank' = raised rank big small;
    forest = hang-IsForest rep rank s big small t root_big root_small ne order;
    keeps = λ p q e. ap (λ r. if c.same r small then big else r) e;
    joins = λ p q is_big is_small.
        joined-other rep big small p (λ e. ne (sym is_big ∙ e))
        ∙ is_big
        ∙ sym (joined-moved rep big small q is_small);
    splits = joined-Splits rep big small;
    keeps_known = λ y k. Known-put s.parent small big y k;
    back = put-back s.parent small big (small, root_small);
    counted = hang-Counted s big small root_small ne;
    membered = hang-Sized rep s big small root_big root_small ne;
  }

  swap-Merged :
      (rep : T → T) (a b : T) (before s : Sets T)
      → Merged rep a b before s
      → Merged rep b a before s
  swap-Merged rep a b before s m = record {
    rep' = m.rep';
    rank' = m.rank';
    forest = m.forest;
    keeps = m.keeps;
    joins = λ p q is_b is_a. sym (m.joins q p is_a is_b);
    splits = swap-Splits rep m.rep' a b m.splits;
    keeps_known = m.keeps_known;
    back = m.back;
    counted = m.counted;
    membered = m.membered;
  }

  -- The end of Union, on two roots.
  pub linked :
      (rep : T → T) (rank : T → ℕ) (s : Sets T) (a b : T)
      → IsForest rep rank s.parent s.size
      → Dict.get s.parent a ≡ some a
      → Dict.get s.parent b ≡ some b
      → (after : Sets T) × (if◌then◌else◌ {A = Option (Bool × Sets T)}
            (c.same a b)
            (some (false, s))
            (some (true, (if ltb (size_at s a) (size_at s b) then hang s b a else hang s a b)))
          ≡ some (not (c.same a b), after))
        × Merged rep a b s after
  linked rep rank s a b t root_a root_b = elim (Bool-cases (c.same a b)) [
    | inl alike ↦
        let e = c.eq_of_same a b alike in
        (
          s,
          rw alike refl,
          record {
            rep' = rep;
            rank' = rank;
            forest = t;
            keeps = λ p q h. h;
            joins = λ p q is_a is_b. is_a ∙ e ∙ sym is_b;
            splits = λ p q h. inl h;
            keeps_known = λ y k. k;
            back = λ y k. k;
            counted = λ t. t;
            membered = λ t. t;
          },
        )
    | inr apart ↦
        let ne = Dict.ne_of_same a b apart in
        elim (Bool-cases (ltb (size_at s a) (size_at s b))) [
          | inl less ↦ (
            hang s b a,
            rw (apart, less) refl,
            swap-Merged rep b a s (hang s b a)
                (hang-Merged rep rank s b a t root_b root_a (λ e. ne (sym e)) (ground arith)),
          )
          | inr more ↦ (
            hang s a b,
            rw (apart, more) refl,
            hang-Merged rep rank s a b t root_a root_b ne (ground arith),
          )
        ]
  ]
