-- ===== src/Unionfind/Calls.antt =====
-- Union, Find, Lookup, Connected and SizeOf of dsa/patterns/unionfind (unionfind.go) on a forest.
use native.Mathlib.Nat.{pow-le-pow_right}
use learn_go.Prelude.{
  ℕ, ◌+◌, ◌^◌, ◌≤◌, ◌≡◌, refl, ◌∙◌, ap, ◌⊎◌, inl, inr, not, none, some, length, arith, Option-cases,
}
use learn_go.Prelude.Comparable.{Comparable}
use learn_go.Prelude.Dict
use learn_go.Unionfind.{Sets, add, find, size_of, lookup, union, connected}
use learn_go.Unionfind.Forest.{Known, IsForest, add-IsForest}
use learn_go.Unionfind.Roots.{add-back, Alike-Counted, Alike-trans}
use learn_go.Unionfind.Climb.{root-Rooted}
use learn_go.Unionfind.Members.{Members, Sized, Alike-Sized, add-Sized}
use learn_go.Unionfind.Merge.{Merged, linked}

module _ {ℓ} {T : Type ℓ} ⦃c : Comparable T⦄ where
  add-find_steps : (s : Sets T) (x : T) → (add s x).1.find_steps ≡ s.find_steps
  unfolding add
  add-find_steps s x = elim (Option-cases (Dict.get s.parent x)) [
    | inl absent ↦ rw (absent, add) refl
    | inr (p, found) ↦ rw (found, add) refl
  ]

  module _ (zero_value : T) (rep : T → T) (rank : T → ℕ) where
    -- Union ends, answers whether the sets were apart, and makes them one.
    pub union-Merged :
        (s : Sets T) (x y : T)
        → IsForest rep rank s.parent s.size
        → (after : Sets T) × (union zero_value s x y ≡ some (not (c.same (rep x) (rep y)), after))
          × Merged rep (rep x) (rep y) (add (add s x).1 y).1 after
    unfolding union
    union-Merged s x y t =
        let (t1, known_x, still1) = add-IsForest rep rank s x t in
        let (t2, known_y, still2) = add-IsForest rep rank (add s x).1 y t1 in
        let first = root-Rooted zero_value rep rank (add (add s x).1 y).1 x t2 (still2 x known_x) in
        let second =
          root-Rooted zero_value rep rank first.after y first.forest
            (first.alike.keeps y known_y) in
        let top_x =
          second.forest.top x (second.alike.keeps x (first.alike.keeps x (still2 x known_x))) in
        let top_y = second.forest.top y (second.alike.keeps y (first.alike.keeps y known_y)) in
        let (after, done, merged) =
          linked rep rank second.after (rep x) (rep y) second.forest top_x top_y in
        let both =
          Alike-trans (add (add s x).1 y).1.parent first.after.parent second.after.parent
            first.alike second.alike in
        let same_sizes : second.after.size ≡ (add (add s x).1 y).1.size =
          second.sizes ∙ first.sizes in
        let still_sized : Sized rep (add (add s x).1 y).1.parent (add (add s x).1 y).1.size
            → Sized rep second.after.parent second.after.size =
          λ w. rw same_sizes (
            Alike-Sized rep (add (add s x).1 y).1.parent second.after.parent
              (add (add s x).1 y).1.size both w) in
        (
          after,
          rw (first.done, second.done) done,
          record {
            rep' = merged.rep';
            rank' = merged.rank';
            forest = merged.forest;
            keeps = merged.keeps;
            joins = merged.joins;
            splits = merged.splits;
            keeps_known = λ z k. merged.keeps_known z (both.keeps z k);
            back = λ z k. both.back z (merged.back z k);
            counted = λ w. merged.counted (
                Alike-Counted (add (add s x).1 y).1 second.after both (second.total ∙ first.total)
                  w);
            membered = λ w. merged.membered (still_sized w);
          },
        )

    -- Find ends at the root, and keeps the sets.
    pub find-IsForest :
        (s : Sets T) (x : T)
        → IsForest rep rank s.parent s.size
        → (after : Sets T) × (find zero_value s x ≡ some (rep x, after))
          × IsForest rep rank after.parent after.size
    unfolding find
    find-IsForest s x t =
        let (t1, known, still) = add-IsForest rep rank s x t in
        let r = root-Rooted zero_value rep rank (add s x).1 x t1 known in
        (r.after, r.done, r.forest)

    pub connected-IsForest :
        (s : Sets T) (x y : T)
        → IsForest rep rank s.parent s.size
        → (after : Sets T) × (connected zero_value s x y ≡ some (c.same (rep x) (rep y), after))
          × IsForest rep rank after.parent after.size
    unfolding connected
    connected-IsForest s x y t =
        let (s1, done1, t1) = find-IsForest s x t in
        let (s2, done2, t2) = find-IsForest s1 y t1 in (s2, rw (done1, done2) refl, t2)

    pub lookup-IsForest :
        (s : Sets T) (x : T)
        → IsForest rep rank s.parent s.size
        → (after : Sets T) × (lookup zero_value s x
            ≡ some (elim (Dict.get s.parent x) [ none ↦ none | some p ↦ some (rep x) ], after))
          × IsForest rep rank after.parent after.size
    unfolding lookup
    lookup-IsForest s x t = elim (Option-cases (Dict.get s.parent x)) [
      | inl absent ↦ (s, rw (absent, lookup) refl, t)
      | inr (p, found) ↦
          let r = root-Rooted zero_value rep rank s x t (p, found) in
          (r.after, rw (found, lookup, r.done) refl, r.forest)
    ]

    -- SizeOf answers with the number of the elements in the set.
    pub size_of-Members :
        (s : Sets T) (x : T)
        → IsForest rep rank s.parent s.size
        → Sized rep s.parent s.size
        → (after : Sets T) × (k : ℕ) × (m : Members rep after.parent after.size (rep x)) × (size_of
              zero_value s x
            ≡ some (length m.members, after))
          × Known after.parent x
          × ((y : T) → Known after.parent y → Known s.parent y ⊎ (y ≡ x))
          × ((y : T) → Known s.parent y → Known after.parent y)
          × (after.find_steps ≡ s.find_steps + k)
          × (2 ^ k ≤ length m.members)
    unfolding size_of find
    size_of-Members s x t w =
        let (t1, known, still) = add-IsForest rep rank s x t in
        let r = root-Rooted zero_value rep rank (add s x).1 x t1 known in
        let (k, count, short) = r.steps in
        let here = r.alike.keeps x known in
        let top = r.forest.top x here in
        let (n, held, large) = r.forest.sized (rep x) top in
        let same_sizes = r.sizes in
        let sized : Sized rep r.after.parent r.after.size = rw same_sizes (
          Alike-Sized rep (add s x).1.parent r.after.parent (add s x).1.size r.alike
            (add-Sized rep rank s x t w)) in
        let m = sized (rep x) top in
        let number = m.number in
        let same : n ≡ length m.members = cc (held, number) in
        (
          r.after,
          k,
          m,
          rw (r.done, number) refl,
          here,
          (λ y q. add-back s x y (r.alike.back y q)),
          (λ y q. r.alike.keeps y (still y q)),
          count ∙ ap (λ w. w + k) (add-find_steps s x),
          let more : 2 ^ k ≤ 2 ^ rank (rep x) = pow-le-pow_right {n = 2} (omega arith) short in
              omega arith,
        )
