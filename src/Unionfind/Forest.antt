-- ===== src/Unionfind/Forest.antt =====
-- The forest of dsa/patterns/unionfind (unionfind.go): every element climbs to the root of its set
-- (`rep`), through parents of growing rank (`rank`, which the code does not store).
use learn_go.Prelude.{
  ℕ, ◌^◌, ◌≤◌, ◌<◌, ◌≡◌, ◌≢◌, refl, sym, ◌∙◌, inl, inr, none, some, List, [], arith, Bool-cases,
  Option-cases,
}
use learn_go.Prelude.Comparable.{Comparable}
use learn_go.Prelude.Dict
use learn_go.Unionfind.{Sets, add}

module _ {ℓ} {T : Type ℓ} ⦃c : Comparable T⦄ where
  -- x is a key of the map.
  abbrev pub Known : List (T × T) → T → Type ℓ
  Known d x = (p : T) × (Dict.get d x ≡ some p)

  pub Known-put : (d : List (T × T)) (q w x : T) → Known d x → Known (Dict.put q w d) x
  Known-put d q w x (p, found) = elim (Bool-cases (c.same x q)) [
    | inl alike ↦ let e = c.eq_of_same x q alike in rw e (w, Dict.get-put_self q w d)
    | inr apart ↦ (p, Dict.get-put_other q x w d (Dict.ne_of_same x q apart) ∙ found)
  ]

  pub record IsForest (rep : T → T) (rank : T → ℕ) (d : List (T × T)) (sizes : List (T × ℕ))
      : Type ℓ where
    -- An element and its parent are in one set, and the parent is an element.
    pub stays : (x p : T) → Dict.get d x ≡ some p → rep p ≡ rep x
    pub closed : (x p : T) → Dict.get d x ≡ some p → Known d p
    pub rises : (x p : T) → Dict.get d x ≡ some p → p ≢ x → rank x < rank p
    pub own : (x : T) → Dict.get d x ≡ some x → rep x ≡ x
    -- The set's root is its own parent and has the largest rank.
    pub top : (x : T) → Known d x → Dict.get d (rep x) ≡ some (rep x)
    pub below : (x : T) → Known d x → rank x ≤ rank (rep x)
    -- An unknown element is alone.
    pub alone : (x : T) → Dict.get d x ≡ none → (rep x ≡ x) × (rank x ≡ 0)
    pub sized :
        (x : T) → Dict.get d x ≡ some x → (m : ℕ) × (Dict.get sizes x ≡ some m) × (2 ^ rank x ≤ m)

  -- New: nothing is known.
  pub new-IsForest : IsForest (λ x. x) (λ x. 0) [] []
  new-IsForest = record {
    stays = λ x p e. cc e;
    closed = λ x p e. cc e;
    rises = λ x p e. cc e;
    own = λ x e. refl;
    top = λ x (p, e). cc e;
    below = λ x k. omega arith;
    alone = λ x e. (refl, refl);
    sized = λ x e. cc e;
  }

  module _ (rep : T → T) (rank : T → ℕ) (d : List (T × T)) (sizes : List (T × ℕ))
      (t : IsForest rep rank d sizes) where
    -- A new element is its own root.
    pub put-IsForest :
        (x : T) → Dict.get d x ≡ none → IsForest rep rank (Dict.put x x d) (Dict.put x 1 sizes)
    put-IsForest x fresh =
        let (self, base) = t.alone x fresh in
        let here = Dict.get-put_self x x d in
        record {
          stays = λ y p e. elim (Dict.put_cases x y x p d e) [
            | inl (at_x, is_x) ↦ rw (at_x, is_x) refl
            | inr (ne, old) ↦ t.stays y p old
          ];
          closed = λ y p e. elim (Dict.put_cases x y x p d e) [
            | inl (at_x, is_x) ↦ rw is_x (x, here)
            | inr (ne, old) ↦ Known-put d x x p (t.closed y p old)
          ];
          rises = λ y p e apart. elim (Dict.put_cases x y x p d e) [
            | inl (at_x, is_x) ↦ absurd (apart (is_x ∙ sym at_x))
            | inr (ne, old) ↦ t.rises y p old apart
          ];
          own = λ y e. elim (Dict.put_cases x y x y d e) [
            | inl (at_x, is_x) ↦ rw at_x self
            | inr (ne, old) ↦ t.own y old
          ];
          top = λ y (p, e). elim (Dict.put_cases x y x p d e) [
            | inl (at_x, is_x) ↦ rw (at_x, self) here
            | inr (ne, old) ↦
                let root = t.top y (p, old) in
                Dict.get-put_other x (rep y) x d
                  (λ same. let gap = rw same at root in cc (gap, fresh))
                ∙ root
          ];
          below = λ y (p, e). elim (Dict.put_cases x y x p d e) [
            | inl (at_x, is_x) ↦ rw (at_x, self) (omega arith)
            | inr (ne, old) ↦ t.below y (p, old)
          ];
          alone = λ y e. t.alone y (Dict.put_lacks x y x d e).1;
          sized = λ y e. elim (Dict.put_cases x y x y d e) [
            | inl (at_x, is_x) ↦ rw (at_x, base) (1, Dict.get-put_self x 1 sizes, omega arith)
            | inr (ne, old) ↦
                let (m, held, large) = t.sized y old in
                (m, Dict.get-put_other x y 1 sizes ne ∙ held, large)
          ];
        }

  pub add-IsForest :
      (rep : T → T) (rank : T → ℕ) (s : Sets T) (x : T)
      → IsForest rep rank s.parent s.size
      → IsForest rep rank (add s x).1.parent (add s x).1.size
        × Known (add s x).1.parent x
        × ((y : T) → Known s.parent y → Known (add s x).1.parent y)
  unfolding add
  add-IsForest rep rank s x t = elim (Option-cases (Dict.get s.parent x)) [
    | inl fresh ↦
        rw (fresh, add)
          (
            put-IsForest rep rank s.parent s.size t x fresh,
            (x, Dict.get-put_self x x s.parent),
            λ y k. Known-put s.parent x x y k,
          )
    | inr (p, found) ↦ rw (found, add) (t, (p, found), λ y k. k)
  ]
