-- ===== src/Unionfind/Graph.antt =====
-- dsa/patterns/unionfind (unionfind.go) on the edges of a graph: two elements are in one set when a
-- chain of edges links them.
use mathlib.Core.List.{Memᴰ}
use mathlib.Core.List.Memᴰ
use learn_go.Prelude.{
  ℕ, ◌≡◌, refl, sym, inl, inr, not, Option, none, some, List, [], ◌∷◌, Bool-cases,
}
use learn_go.Prelude.Comparable.{Comparable}
use learn_go.Prelude.Dict
use learn_go.Unionfind.{Sets, Edge, new, add, union, cycle_loop, has_cycle, union_all}
use learn_go.Unionfind.Forest.{add-IsForest, IsForest, new-IsForest}
use learn_go.Unionfind.Members.{Sized, new-Sized, add-Sized}
use learn_go.Unionfind.Merge.{Merged}
use learn_go.Unionfind.Calls.{union-Merged}
use learn_go.Unionfind.Linking.{
  here, along, flip, chain, Linked, Linked-map, Tracks, Linked-same, new-Tracks, FirstCycle, past,
  to_past, of_past,
}
use learn_go.Unionfind.Spread.{Touched, Merged-Touched, Spread, Spread-self, Touched-Spread}

module _ {ℓ} {T : Type ℓ} ⦃c : Comparable T⦄ where
  Merged-Tracks :
      (edges : List (Edge T)) (rep : T → T) (e : Edge T) (before s : Sets T)
      → Tracks edges rep
      → (m : Merged rep (rep e.from) (rep e.to) before s) → Tracks (e ∷ edges) m.rep'
  Merged-Tracks edges rep e before s t m = record {
    held = λ x mem. elim (Memᴰ.cases_cons mem) [
      | inl same ↦ rw same (m.joins e.from e.to refl refl)
      | inr old ↦ m.keeps x.from x.to (t.held x old)
    ];
    traced = λ p q same. elim (m.splits p q same) [
      | inl before ↦ old p q before
      | inr (inl (at_from, at_to)) ↦
          chain e.from (old p e.from at_from) (chain e.to edge (old e.to q (sym at_to)))
      | inr (inr (at_to, at_from)) ↦
          chain e.to (old p e.to at_to) (chain e.from (flip edge) (old e.from q (sym at_from)))
    ];
  }
    where
      edge : Linked (e ∷ edges) e.from e.to
      edge = along e (Memᴰ.head refl) refl refl

      old : (p q : T) → rep p ≡ rep q → Linked (e ∷ edges) p q
      old p q same = Linked-map edges (e ∷ edges) (λ x mem. Memᴰ.tail mem) p q (t.traced p q same)

  -- A forest that tracks the edges.
  pub record Joined (edges : List (Edge T)) (s : Sets T) : Type ℓ where
    pub rep : T → T
    pub rank : T → ℕ
    pub forest : IsForest rep rank s.parent s.size
    pub tracks : Tracks edges rep
    pub sized : Sized rep s.parent s.size

  pub new-Joined : Joined [] new
  new-Joined = record {
    rep = λ x. x;
    rank = λ x. 0;
    forest = new-IsForest;
    tracks = new-Tracks;
    sized = new-Sized;
  }

  module _ (zero_value : T) where
    union-Joined :
        (edges : List (Edge T)) (s : Sets T) (e : Edge T)
        → (j : Joined edges s)
        → (after : Sets T) × (union zero_value s e.from e.to
            ≡ some (not (c.same (j.rep e.from) (j.rep e.to)), after))
          × Joined (e ∷ edges) after
          × Touched s e.from e.to after
    union-Joined edges s e j =
        let (after, done, m) = union-Merged zero_value j.rep j.rank s e.from e.to j.forest in
        (
          after,
          done,
          record {
            rep = m.rep';
            rank = m.rank';
            forest = m.forest;
            tracks = Merged-Tracks edges j.rep e (add (add s e.from).1 e.to).1 after j.tracks m;
            sized = m.membered (
                add-Sized j.rep j.rank (add s e.from).1 e.to
                  (add-IsForest j.rep j.rank s e.from j.forest).0
                  (add-Sized j.rep j.rank s e.from j.forest j.sized));
          },
          Merged-Touched j.rep j.rank s after e.from e.to j.forest m,
        )

    cycle_loop-FirstCycle :
        (edges seen : List (Edge T)) (s : Sets T)
        → Joined seen s
        → (answer : Option (Edge T)) × (cycle_loop zero_value edges s ≡ some answer)
          × FirstCycle seen edges answer
    unfolding cycle_loop
    cycle_loop-FirstCycle [] seen s j = (none, refl, refl)
    cycle_loop-FirstCycle (e ∷ edges) seen s j =
        let (after, done, next, touched) = union-Joined seen s e j in
        elim (Bool-cases (c.same e.from e.to)) [
          | inl loop ↦ (some e, rw loop refl, inl (here (c.eq_of_same e.from e.to loop), refl))
          | inr proper ↦ elim (Bool-cases (c.same (j.rep e.from) (j.rep e.to))) [
            | inl joined ↦ (
              some e,
              rw (proper, done, joined) refl,
              inl (
                j.tracks.traced e.from e.to (c.eq_of_same (j.rep e.from) (j.rep e.to) joined),
                refl,
              ),
            )
            | inr apart ↦
                let (answer, rest, first) = cycle_loop-FirstCycle edges (e ∷ seen) after next in
                (
                  answer,
                  rw (proper, done, apart) rest,
                  inr (
                    λ l.
                        Dict.ne_of_same (j.rep e.from) (j.rep e.to) apart
                          (Linked-same seen j.rep j.tracks e.from e.to l),
                    first,
                  ),
                )
          ]
        ]

    -- HasCycle ends, and answers with the first edge whose two ends are linked by the edges before
    -- it, and with no edge when there is none such.
    pub has_cycle-FirstCycle :
        (edges : List (Edge T))
        → (answer : Option (Edge T)) × (has_cycle zero_value edges ≡ some answer)
          × FirstCycle [] edges answer
    unfolding has_cycle
    has_cycle-FirstCycle edges = cycle_loop-FirstCycle edges [] new new-Joined

    union_all-Joined :
        (edges seen : List (Edge T)) (s : Sets T)
        → Joined seen s
        → (after : Sets T) × (union_all zero_value edges s ≡ some after)
          × Joined (past edges seen) after
          × Spread s edges after
    unfolding union_all
    union_all-Joined [] seen s j = (s, refl, j, Spread-self s)
    union_all-Joined (e ∷ edges) seen s j =
        let (next, done, k, touched) = union-Joined seen s e j in
        let (after, rest, m, spread) = union_all-Joined edges (e ∷ seen) next k in
        (after, rw done rest, m, Touched-Spread e edges s next after touched spread)

    pub joined_all :
        (edges : List (Edge T)) (start : Sets T)
        → Joined [] start
        → (s : Sets T) × (union_all zero_value edges start ≡ some s)
          × Joined edges s
          × Spread start edges s
    joined_all edges start k =
        let (s, done, j, spread) = union_all-Joined edges [] start k in
        (
          s,
          done,
          record {
            rep = j.rep;
            rank = j.rank;
            forest = j.forest;
            tracks = record {
              held = λ e m. j.tracks.held e (to_past edges [] e m);
              traced = λ p q same.
                  Linked-map (past edges []) edges (λ e m. from_past e m) p q
                    (j.tracks.traced p q same);
            };
            sized = j.sized;
          },
          spread,
        )
      where
        from_past : (e : Edge T) → Memᴰ e (past edges []) → Memᴰ e edges
        from_past e m = elim (of_past edges [] e m) [
          | inl mine ↦ mine
          | inr nothing ↦ absurd (Memᴰ.not-nil nothing)
        ]
