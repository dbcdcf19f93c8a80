-- ===== src/Unionfind/Components.antt =====
-- CountComponents of dsa/patterns/unionfind (unionfind.go).
use mathlib.Core.List.{Memᴰ}
use mathlib.Core.List.Memᴰ
use learn_go.Prelude.{◌≡◌, ◌≢◌, refl, sym, ◌∙◌, ◌⊎◌, inl, inr, some, List, [], ◌∷◌, length}
use learn_go.Prelude.Comparable.{Comparable}
use learn_go.Unionfind.{Sets, Edge, new, add, add_all, count_components}
use learn_go.Unionfind.Forest.{Known, add-IsForest}
use learn_go.Unionfind.Roots.{Apart, Apart-map, Counted, add-Counted, add-back, new-Counted}
use learn_go.Unionfind.Members.{add-Sized}
use learn_go.Unionfind.Linking.{Linked, Linked-same, ends}
use learn_go.Unionfind.Graph.{Joined, new-Joined, joined_all}

module _ {ℓ} {T : Type ℓ} ⦃c : Comparable T⦄ where
  -- The nodes that were added.
  record Listed (s : Sets T) (nodes : List T) (after : Sets T) : Type ℓ where
    pub joined : Joined [] after
    pub counted : Counted after
    pub keeps : (z : T) → Known s.parent z → Known after.parent z
    pub met : (z : T) → Memᴰ z nodes → Known after.parent z
    pub back : (z : T) → Known after.parent z → Known s.parent z ⊎ Memᴰ z nodes

  add_all-Listed :
      (nodes : List T) (s : Sets T) → Joined [] s → Counted s → Listed s nodes (add_all nodes s)
  add_all-Listed [] s j w = record {
    joined = j;
    counted = w;
    keeps = λ z k. k;
    met = λ z m. absurd (Memᴰ.not-nil m);
    back = λ z k. inl k;
  }
  add_all-Listed (n ∷ nodes) s j w =
      let (t, known, still) = add-IsForest j.rep j.rank s n j.forest in
      let next : Joined [] (add s n).1 = record {
        rep = j.rep;
        rank = j.rank;
        forest = t;
        tracks = j.tracks;
        sized = add-Sized j.rep j.rank s n j.forest j.sized;
      } in
      let r = add_all-Listed nodes (add s n).1 next (add-Counted s n w) in
      record {
        joined = r.joined;
        counted = r.counted;
        keeps = λ z k. r.keeps z (still z k);
        met = λ z m. elim (Memᴰ.cases_cons m) [
          | inl first ↦ rw first (r.keeps n known)
          | inr later ↦ r.met z later
        ];
        back = λ z k. elim (r.back z k) [
          | inr later ↦ inr (Memᴰ.tail later)
          | inl before ↦ elim (add-back s n z before) [
            | inl old ↦ inl old
            | inr first ↦ inr (Memᴰ.head first)
          ]
        ];
      }

  -- One element of each component: they are nodes or ends of edges, no two of them are linked, and
  -- each node and each end of an edge is linked to one of them.
  pub record Represents (nodes : List T) (edges : List (Edge T)) (roots : List T) : Type ℓ where
    pub present : (r : T) → Memᴰ r roots → Memᴰ r nodes ⊎ Memᴰ r (ends edges)
    pub apart : Apart (λ r q. ¬ Linked edges r q) roots
    pub reached :
        (x : T) → Memᴰ x nodes ⊎ Memᴰ x (ends edges) → (r : T) × Memᴰ r roots × Linked edges x r

  -- CountComponents ends, and answers with the number of elements in a list that has one element of
  -- each component.
  pub count_components-Represents :
      (zero_value : T) (nodes : List T) (edges : List (Edge T))
      → (roots : List T) × (count_components zero_value nodes edges ≡ some (length roots))
        × Represents nodes edges roots
  unfolding count_components
  count_components-Represents zero_value nodes edges =
      let start = add_all-Listed nodes new new-Joined new-Counted in
      let (s, done, j, spread) = joined_all zero_value edges (add_all nodes new) start.joined in
      let w = spread.counted start.counted in
      (
        w.roots,
        rw (done, w.number) refl,
        record {
          present = λ r m. elim (spread.back r (r, w.each r m)) [
            | inr edge ↦ inr edge
            | inl before ↦ elim (start.back r before) [
              | inr node ↦ inl node
              | inl (p, nothing) ↦ cc nothing
            ]
          ];
          apart =
              Apart-map (λ r q. r ≢ q) (λ r q. ¬ Linked edges r q) w.roots
                (λ r q m n ne l. ne (
                  sym (j.forest.own r (w.each r m))
                  ∙ Linked-same edges j.rep j.tracks r q l
                  ∙ j.forest.own q (w.each q n)))
                w.once;
          reached = λ x m.
              let known : Known s.parent x = elim m [
                | inl node ↦ spread.keeps x (start.met x node)
                | inr edge ↦ spread.met x edge
              ] in
              let top = j.forest.top x known in
              (
                j.rep x,
                w.every (j.rep x) top,
                j.tracks.traced x (j.rep x) (sym (j.forest.own (j.rep x) top)),
              );
        },
      )
