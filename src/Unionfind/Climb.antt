-- ===== src/Unionfind/Climb.antt =====
-- root of dsa/patterns/unionfind (unionfind.go): its two loops, on a forest.
use native.Mathlib.Nat.{two-pow-succ}
use learn_go.Prelude.{
  ℕ, zero, suc, ◌+◌, ◌^◌, ◌≤◌, ◌<◌, ◌≡◌, ◌≢◌, refl, sym, ◌∙◌, ap, inl, inr, some, List, [], ◌∷◌,
  length, arith, Bool-cases,
}
use learn_go.Prelude.Comparable.{Comparable}
use learn_go.Prelude.Dict
use learn_go.Unionfind.{Sets, climb, compress, root}
use learn_go.Unionfind.Roots.{Alike, Alike-self, Alike-trans, put-Alike}
use learn_go.Unionfind.Forest.{Known, Known-put, IsForest}

pow_grows : (n : ℕ) → n < 2 ^ n
pow_grows zero = omega arith
pow_grows (suc n) = omega (arith, two-pow-succ n, pow_grows n)

module _ {ℓ} {T : Type ℓ} ⦃c : Comparable T⦄ where
  -- The nodes of a path: elements below the root r.
  abbrev pub Below : (T → T) → (T → ℕ) → List (T × T) → T → List T → Type ℓ
  Below rep rank d r [] = (p : T) × (Dict.get d r ≡ some p)
  Below rep rank d r (n ∷ path) =
      let rest = Below rep rank d r path in Known d n × (rep n ≡ r) × (rank n < rank r) × rest

  module _ (rep : T → T) (rank : T → ℕ) (sizes : List (T × ℕ)) where
    -- A node that is put right under its root.
    pub lift-IsForest :
        (d : List (T × T)) (n r : T)
        → IsForest rep rank d sizes
        → Known d n
        → Known d r
        → rep n ≡ r
        → rank n < rank r
        → IsForest rep rank (Dict.put n r d) sizes
    lift-IsForest d n r t known (q, top) is_r lower =
        let root : Dict.get d r ≡ some r = rw (sym is_r) (t.top n known) in
        let r_self = t.own r root in
        let apart : r ≢ n = λ e. let level = ap rank e in omega arith in
        record {
          stays = λ y p e. elim (Dict.put_cases n y r p d e) [
            | inl (at_n, is_root) ↦ rw (at_n, is_root, is_r) r_self
            | inr (ne, old) ↦ t.stays y p old
          ];
          closed = λ y p e. elim (Dict.put_cases n y r p d e) [
            | inl (at_n, is_root) ↦ rw is_root (Known-put d n r r (r, root))
            | inr (ne, old) ↦ Known-put d n r p (t.closed y p old)
          ];
          rises = λ y p e other. elim (Dict.put_cases n y r p d e) [
            | inl (at_n, is_root) ↦ rw (at_n, is_root) lower
            | inr (ne, old) ↦ t.rises y p old other
          ];
          own = λ y e. elim (Dict.put_cases n y r y d e) [
            | inl (at_n, is_root) ↦ absurd (apart (sym is_root ∙ at_n))
            | inr (ne, old) ↦ t.own y old
          ];
          top = λ y (p, e). elim (Dict.put_cases n y r p d e) [
            | inl (at_n, is_root) ↦ rw (at_n, is_r) (Dict.get-put_other n r r d apart ∙ root)
            | inr (ne, old) ↦
                let high = t.top y (p, old) in
                Dict.get-put_other n (rep y) r d (λ same.
                  let level = ap rank (sym (ap rep same ∙ is_r) ∙ t.own (rep y) high ∙ same) in
                  omega arith)
                ∙ high
          ];
          below = λ y (p, e). elim (Dict.put_cases n y r p d e) [
            | inl (at_n, is_root) ↦ rw at_n (t.below n known)
            | inr (ne, old) ↦ t.below y (p, old)
          ];
          alone = λ y e. t.alone y (Dict.put_lacks n y r d e).1;
          sized = λ y e. elim (Dict.put_cases n y r y d e) [
            | inl (at_n, is_root) ↦ absurd (apart (sym is_root ∙ at_n))
            | inr (ne, old) ↦ t.sized y old
          ];
        }

    Below-put :
        (d : List (T × T)) (n w r : T) (path : List T)
        → Below rep rank d r path
        → Below rep rank (Dict.put n w d) r path
    Below-put d n w r [] k = Known-put d n w r k
    Below-put d n w r (x ∷ path) (k, is_r, lower, rest) =
        (Known-put d n w x k, is_r, lower, Below-put d n w r path rest)

    Below-root : (d : List (T × T)) (r : T) (path : List T) → Below rep rank d r path → Known d r
    Below-root d r [] k = k
    Below-root d r (x ∷ path) (k, is_r, lower, rest) = Below-root d r path rest

    pub compress-IsForest :
        (d : List (T × T)) (r : T) (path : List T)
        → IsForest rep rank d sizes
        → Below rep rank d r path
        → IsForest rep rank (compress path r d) sizes × Alike d (compress path r d)
    compress-IsForest d r [] t b = (t, Alike-self d)
    compress-IsForest d r (n ∷ path) t ((p, found), is_r, lower, rest) =
        let k : Known d n = (p, found) in
        let apart : r ≢ n = λ e. let level = ap rank e in omega arith in
        let child : p ≢ n = λ e. apart (sym is_r ∙ t.own n (found ∙ ap (λ q. some q) e)) in
        let next = lift-IsForest d n r t k (Below-root d r path rest) is_r lower in
        let (kept, still) =
          compress-IsForest (Dict.put n r d) r path next (Below-put d n r r path rest) in
        (
          kept,
          Alike-trans d (Dict.put n r d) (compress path r (Dict.put n r d))
              (put-Alike d n p r found child apart) still,
        )

    -- The first loop: with fuel for the ranks that are left it ends at the root.
    pub climb-Below :
        (zero_value : T) (fuel : ℕ) (d : List (T × T)) (x : T)
        → IsForest rep rank d sizes
        → Known d x
        → rank (rep x) < fuel + rank x
        → (path : List T) × (climb zero_value fuel d x ≡ some (rep x, path))
          × Below rep rank d (rep x) path
          × (length path + rank x ≤ rank (rep x))
    climb-Below zero_value zero d x t k h = absurd (let b = t.below x k in omega arith)
    climb-Below zero_value (suc fuel) d x t (p, found) h = elim (Bool-cases (c.same p x)) [
      | inl alike ↦
          let e = c.eq_of_same p x alike in
          let self = t.own x (found ∙ ap (λ q. some q) e) in
          (
            [],
            rw (found, alike, self) refl,
            (rep x, t.top x (p, found)),
            let b = t.below x (p, found) in omega arith,
          )
      | inr apart ↦
          let ne = Dict.ne_of_same p x apart in
          let same = t.stays x p found in
          let up = t.rises x p found ne in
          let high : rank (rep p) ≡ rank (rep x) = ap rank same in
          let (path, done, low, short) =
            climb-Below zero_value fuel d p t (t.closed x p found) (omega arith) in
          (
            x ∷ path,
            rw (found, apart, done, same) refl,
            (
              (p, found),
              refl,
              let b = t.below p (t.closed x p found) in omega arith,
              rw same at low,
            ),
            omega arith,
          )
    ]

  module _ (zero_value : T) (rep : T → T) (rank : T → ℕ) where
    -- root of a known element: it ends, at the root, and keeps the forest and its elements; the
    -- pointers that it follows are few for the size of the set.
    pub record Rooted (s : Sets T) (x : T) : Type ℓ where
      pub after : Sets T
      pub done : root zero_value s x ≡ some (rep x, after)
      pub forest : IsForest rep rank after.parent after.size
      pub alike : Alike s.parent after.parent
      pub sizes : after.size ≡ s.size
      pub total : after.count ≡ s.count
      pub steps : (k : ℕ) × (after.find_steps ≡ s.find_steps + k) × (k ≤ rank (rep x))

    pub root-Rooted :
        (s : Sets T) (x : T) → IsForest rep rank s.parent s.size → Known s.parent x → Rooted s x
    unfolding root
    root-Rooted s x t k =
        let (m, held, large) = t.sized (rep x) (t.top x k) in
        let enough = Dict.total_bound s.size (rep x) m held in
        let small = pow_grows (rank (rep x)) in
        let (path, done, low, short) =
          climb-Below rep rank s.size zero_value (Dict.total s.size) s.parent x t k (omega arith) in
        let (kept, still) = compress-IsForest rep rank s.size s.parent (rep x) path t low in
        record {
          after = record s {
            parent = compress path (rep x) s.parent;
            find_steps = s.find_steps + length path;
          };
          done = rw done refl;
          forest = kept;
          alike = still;
          sizes = refl;
          total = refl;
          steps = (length path, refl, omega arith);
        }
