-- ===== src/Unionfind/Spread.antt =====
-- What unions do to the elements and to the count (dsa/patterns/unionfind, unionfind.go).
use mathlib.Core.List.{Memᴰ}
use mathlib.Core.List.Memᴰ
use learn_go.Prelude.{ℕ, ◌≡◌, ◌⊎◌, inl, inr, List, [], ◌∷◌}
use learn_go.Prelude.Comparable.{Comparable}
use learn_go.Unionfind.{Sets, Edge, add}
use learn_go.Unionfind.Forest.{Known, IsForest, add-IsForest}
use learn_go.Unionfind.Roots.{Counted, add-Counted, add-back}
use learn_go.Unionfind.Merge.{Merged}
use learn_go.Unionfind.Linking.{ends}

module _ {ℓ} {T : Type ℓ} ⦃c : Comparable T⦄ where
  -- What a union of x and y does to the elements and to the count.
  pub record Touched (s : Sets T) (x y : T) (after : Sets T) : Type ℓ where
    pub keeps : (z : T) → Known s.parent z → Known after.parent z
    pub first : Known after.parent x
    pub second : Known after.parent y
    pub back : (z : T) → Known after.parent z → Known s.parent z ⊎ ((z ≡ x) ⊎ (z ≡ y))
    pub counted : Counted s → Counted after

  pub Merged-Touched :
      (rep : T → T) (rank : T → ℕ) (s after : Sets T) (x y : T)
      → IsForest rep rank s.parent s.size
      → Merged rep (rep x) (rep y) (add (add s x).1 y).1 after
      → Touched s x y after
  Merged-Touched rep rank s after x y t m =
      let (t1, known_x, still1) = add-IsForest rep rank s x t in
      let (t2, known_y, still2) = add-IsForest rep rank (add s x).1 y t1 in
      record {
        keeps = λ z k. m.keeps_known z (still2 z (still1 z k));
        first = m.keeps_known x (still2 x known_x);
        second = m.keeps_known y known_y;
        back = λ z k. elim (add-back (add s x).1 y z (m.back z k)) [
          | inr is_y ↦ inr (inr is_y)
          | inl old ↦ elim (add-back s x z old) [
            | inr is_x ↦ inr (inl is_x)
            | inl older ↦ inl older
          ]
        ];
        counted = λ w. m.counted (add-Counted (add s x).1 y (add-Counted s x w));
      }

  -- What the unions of a list of edges do to the elements and to the count.
  pub record Spread (s : Sets T) (edges : List (Edge T)) (after : Sets T) : Type ℓ where
    pub keeps : (z : T) → Known s.parent z → Known after.parent z
    pub met : (z : T) → Memᴰ z (ends edges) → Known after.parent z
    pub back : (z : T) → Known after.parent z → Known s.parent z ⊎ Memᴰ z (ends edges)
    pub counted : Counted s → Counted after

  pub Spread-self : (s : Sets T) → Spread s [] s
  Spread-self s = record {
    keeps = λ z k. k;
    met = λ z m. absurd (Memᴰ.not-nil m);
    back = λ z k. inl k;
    counted = λ w. w;
  }

  pub Touched-Spread :
      (e : Edge T) (edges : List (Edge T)) (s next after : Sets T)
      → Touched s e.from e.to next
      → Spread next edges after
      → Spread s (e ∷ edges) after
  Touched-Spread e edges s next after t r = record {
    keeps = λ z k. r.keeps z (t.keeps z k);
    met = λ z m. elim (Memᴰ.cases_cons m) [
      | inl is_from ↦ rw is_from (r.keeps e.from t.first)
      | inr more ↦ elim (Memᴰ.cases_cons more) [
        | inl is_to ↦ rw is_to (r.keeps e.to t.second)
        | inr later ↦ r.met z later
      ]
    ];
    back = λ z k. elim (r.back z k) [
      | inr later ↦ inr (Memᴰ.tail (Memᴰ.tail later))
      | inl before ↦ elim (t.back z before) [
        | inl old ↦ inl old
        | inr (inl is_from) ↦ inr (Memᴰ.head is_from)
        | inr (inr is_to) ↦ inr (Memᴰ.tail (Memᴰ.head is_to))
      ]
    ];
    counted = λ w. r.counted (t.counted w);
  }
