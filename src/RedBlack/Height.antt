-- ===== src/RedBlack/Height.antt =====
-- What the rules buy (dsa/redblack/redblack.go): a height logarithmic in the number of keys, and
-- the answer true of the code's own check IsValid.
use native.Mathlib.Nat.{two-pow-succ}
use learn_go.Prelude.{
  ℕ, zero, suc, ◌+◌, ◌-◌, ◌*◌, ◌^◌, ◌≤◌, ◌≡◌, refl, sym, ◌∙◌, inl, inr, lt_or_ge, Bool, true, false,
  Option, none, some, List, [], ◌∷◌, arith, if◌then◌else◌,
}
use learn_go.Prelude.Ordered.{Ordered, ◌≺◌, gt_of_lt}
use learn_go.Prelude.Assoc.{All, All-imp, IsSorted, IsSorted-IsSplit, All_split}
use learn_go.RedBlack.Node.{Node, nil, node, is_red, in_order, count_nodes, height}
use learn_go.RedBlack.Tree.{
  Tree, is23, black_balanced, black_height, ordered, exceeds, precedes, is_valid,
}
use learn_go.RedBlack.Balance.{IsBlackHeight, Is23}
use learn_go.RedBlack.Valid.{IsValid, count_nodes-length}

module _ {ℓ κ} {K : Type ℓ} {V : Type κ} where
  height-le :
      (t : Node K V) (n : ℕ)
      → IsBlackHeight t n
      → Is23 t
      → height t ≤ 2 * n + (if is_red t then 1 else 0)
  unfolding height is_red
  height-le nil n b s = omega arith
  height-le (node true l k v r) n b s = ground (arith, height-le l n b.0 s.2, height-le r n b.1 s.3)
  height-le (node false l k v r) n b s =
      ground (arith, height-le l (n - 1) b.1 s.2, height-le r (n - 1) b.2 s.3)

  pow-le-count_nodes : (t : Node K V) (n : ℕ) → IsBlackHeight t n → 2 ^ n ≤ count_nodes t + 1
  unfolding count_nodes
  pow-le-count_nodes nil n b = rw b (omega arith)
  pow-le-count_nodes (node true l k v r) n b =
      omega (arith, pow-le-count_nodes l n b.0, pow-le-count_nodes r n b.1)
  pow-le-count_nodes (node false l k v r) zero b = absurd (omega arith)
  pow-le-count_nodes (node false l k v r) (suc n) b =
      let same : suc n - 1 ≡ n = omega arith in
      omega (
        arith,
        two-pow-succ n,
        pow-le-count_nodes l n (rw same at b.1),
        pow-le-count_nodes r n (rw same at b.2),
      )

  -- A way from the root to nil, with the number of its nodes and of the black ones among them.
  pub data Way : Node K V → ℕ → ℕ → Type (ℓ ⊔ κ) where
    end : Way nil 0 0
    to_left :
        (c : Bool) (l : Node K V) (k : K) (v : V) (r : Node K V) (n b : ℕ)
        → Way l n b
        → Way (node c l k v r) (suc n) (if c then b else suc b)
    to_right :
        (c : Bool) (l : Node K V) (k : K) (v : V) (r : Node K V) (n b : ℕ)
        → Way r n b
        → Way (node c l k v r) (suc n) (if c then b else suc b)

  Way-height : {t : Node K V} {n b : ℕ} → Way t n b → n ≤ height t
  unfolding height
  Way-height end = omega arith
  Way-height (to_left c l k v r n b w) = let rest = Way-height w in omega arith
  Way-height (to_right c l k v r n b w) = let rest = Way-height w in omega arith

  Way-black_height : {t : Node K V} {n b : ℕ} → Way t n b → (m : ℕ) → IsBlackHeight t m → b ≡ m
  Way-black_height end m h = sym h
  Way-black_height (to_left true l k v r n b w) m h = Way-black_height w m h.0
  Way-black_height (to_left false l k v r n b w) m h =
      let rest = Way-black_height w (m - 1) h.1 in omega arith
  Way-black_height (to_right true l k v r n b w) m h = Way-black_height w m h.1
  Way-black_height (to_right false l k v r n b w) m h =
      let rest = Way-black_height w (m - 1) h.2 in omega arith

  -- The height is that of a longest way.
  longest-Way : (t : Node K V) → (n : ℕ) × (b : ℕ) × Way t n b × (n ≡ height t)
  unfolding height
  longest-Way nil = (0, 0, end, refl)
  longest-Way (node c l k v r) =
      let (m, a, left, m_same) = longest-Way l in
      let (n, b, right, n_same) = longest-Way r in
      elim (lt_or_ge (height l) (height r)) [
        | inl less ↦ (suc n, if c then b else suc b, to_right c l k v r n b right, omega arith)
        | inr more ↦ (suc m, if c then a else suc a, to_left c l k v r m a left, omega arith)
      ]

  is23-Is23 : (root : Bool) (t : Node K V) → Is23 t → is23 root t ≡ true
  unfolding is23 is_red
  is23-Is23 root nil s = refl
  is23-Is23 root (node c l k v r) s = ground (arith, is23-Is23 false l s.2, is23-Is23 false r s.3)

  black_height-IsBlackHeight : (t : Node K V) (n : ℕ) → IsBlackHeight t n → black_height t ≡ n
  unfolding black_height
  black_height-IsBlackHeight nil n b = sym b
  black_height-IsBlackHeight (node true l k v r) n b = black_height-IsBlackHeight l n b.0
  black_height-IsBlackHeight (node false l k v r) n b =
      omega (arith, black_height-IsBlackHeight l (n - 1) b.1)

  black_balanced-IsBlackHeight :
      (t : Node K V) (n : ℕ) → IsBlackHeight t n → black_balanced t (some n) ≡ true
  unfolding black_balanced
  black_balanced-IsBlackHeight nil n b = ground arith
  black_balanced-IsBlackHeight (node true l k v r) n b =
      rw (black_balanced-IsBlackHeight l n b.0) (black_balanced-IsBlackHeight r n b.1)
  black_balanced-IsBlackHeight (node false l k v r) zero b = absurd (omega arith)
  black_balanced-IsBlackHeight (node false l k v r) (suc n) b =
      let same : suc n - 1 ≡ n = omega arith in
      rw (black_balanced-IsBlackHeight l n (rw same at b.1))
        (black_balanced-IsBlackHeight r n (rw same at b.2))

module _ {ℓ} {K : Type ℓ} ⦃o : Ordered K⦄ where
  precedes_lt : (x k : K) → x ≺ k → precedes x (some k) ≡ true
  unfolding precedes
  precedes_lt x k h = rw (h, precedes)

  exceeds_lt : (k x : K) → k ≺ x → exceeds (some k) x ≡ true
  unfolding exceeds
  exceeds_lt k x h = rw (gt_of_lt k x h, exceeds)

  unbounded : (k : K) → (exceeds none k ≡ true) × (precedes k none ≡ true)
  unfolding exceeds precedes
  unbounded k = (refl, refl)

module _ {ℓ κ} {K : Type ℓ} {V : Type κ} ⦃o : Ordered K⦄ where
  ordered-IsSorted :
      (t : Node K V) (lo hi : Option K)
      → All (λ k. exceeds lo k ≡ true) (in_order t)
      → All (λ k. precedes k hi ≡ true) (in_order t)
      → IsSorted (in_order t)
      → ordered t lo hi ≡ true
  unfolding ordered in_order
  ordered-IsSorted nil lo hi p q s = refl
  ordered-IsSorted (node c l k v r) lo hi p q s =
      let split = IsSorted-IsSplit (in_order l) k v (in_order r) s in
      let (pl, pr) = All_split _ (in_order l) ((k, v) ∷ in_order r) p in
      let (ql, qr) = All_split _ (in_order l) ((k, v) ∷ in_order r) q in
      rw
        (
          pr.0,
          qr.0,
          ordered-IsSorted l lo (some k) pl
              (All-imp (λ x. precedes_lt x k) (in_order l) split.below) split.left,
        )
        (ordered-IsSorted r (some k) hi (All-imp (λ x. exceeds_lt k x) (in_order r) split.above)
          qr.1 split.right)

  All_true : {P : K → Type 0} → ((k : K) → P k) → (xs : List (K × V)) → All P xs
  All_true f [] = tt
  All_true f ((k, v) ∷ xs) = (f k, All_true f xs)

  -- What the height and the black height of a tree of `count` keys are.
  pub record IsLogarithmic (t : Tree K V) : Type (ℓ ⊔ κ) where
    pub even : {n b : ℕ} → Way t.root n b → b ≡ black_height t.root
    pub within : {n b : ℕ} → Way t.root n b → n ≤ height t.root
    pub attained : (n : ℕ) × (b : ℕ) × Way t.root n b × (n ≡ height t.root)
    pub twice : height t.root ≤ 2 * black_height t.root
    pub logarithmic : 2 ^ black_height t.root ≤ t.count + 1

  -- In a valid tree every way from the root to nil has as many black nodes as the black height
  -- says, the height is the number of nodes on a longest way, it is at most twice the black height,
  -- and 2 to the black height is at most the number of keys plus one.
  pub height_bound : (t : Tree K V) → IsValid t → IsLogarithmic t
  height_bound t s =
      let same = black_height-IsBlackHeight t.root s.height s.balanced in
      record {
        even = λ w. Way-black_height w s.height s.balanced ∙ sym same;
        within = λ w. Way-height w;
        attained = longest-Way t.root;
        twice =
            rw same (ground (arith, height-le t.root s.height s.balanced s.colored, s.black_root));
        logarithmic = rw same (
            omega (
              arith,
              pow-le-count_nodes t.root s.height s.balanced,
              count_nodes-length t.root,
              s.counted,
            ));
      }

  -- The check IsValid of the code accepts every valid tree.
  pub is_valid-IsValid : (t : Tree K V) → IsValid t → is_valid t ≡ true
  unfolding is_valid
  is_valid-IsValid t s =
      let below = All_true (λ k. (unbounded k).0) (in_order t.root) in
      let above = All_true (λ k. (unbounded k).1) (in_order t.root) in
      ground (
        arith,
        ordered-IsSorted t.root none none below above s.sorted,
        is23-Is23 true t.root s.colored,
        black_height-IsBlackHeight t.root s.height s.balanced,
        black_balanced-IsBlackHeight t.root s.height s.balanced,
        count_nodes-length t.root,
        s.counted,
      )
