-- ===== src/Unionfind/Queries.antt =====
-- Connected and SizeOf of dsa/patterns/unionfind (unionfind.go), after Union on the edges of a graph.
use mathlib.Core.List.{Memᴰ}
use learn_go.Prelude.{
  ℕ, ◌+◌, ◌^◌, ◌≤◌, ◌≡◌, sym, ◌∙◌, inl, inr, ◌↔◌, Bool, true, some, length, Option-cases, ◌≢◌, List,
}
use learn_go.Prelude.Comparable.{Comparable}
use learn_go.Prelude.Dict
use learn_go.Unionfind.{Sets, Edge, new, size_of, connected, union_all}
use learn_go.Unionfind.Forest.{Known}
use learn_go.Unionfind.Roots.{Apart}
use learn_go.Unionfind.Calls.{size_of-Members, connected-IsForest}
use learn_go.Unionfind.Linking.{Linked, Linked-same}
use learn_go.Unionfind.Graph.{new-Joined, joined_all}

module _ {ℓ} {T : Type ℓ} ⦃c : Comparable T⦄ where
  module _ (zero_value : T) where
    -- After Union was called on the ends of every edge, Connected ends, and answers true just for
    -- the pairs that a chain of the edges links.
    pub connected-Linked :
        (edges : List (Edge T)) (p q : T)
        → (s : Sets T) × (answer : Bool) × (after : Sets T) × (union_all zero_value edges new
            ≡ some s)
          × (connected zero_value s p q ≡ some (answer, after))
          × ((answer ≡ true) ↔ Linked edges p q)
    connected-Linked edges p q =
        let (s, done, j, spread) = joined_all zero_value edges new new-Joined in
        let (after, asked, t) = connected-IsForest zero_value j.rep j.rank s p q j.forest in
        (
          s,
          c.same (j.rep p) (j.rep q),
          after,
          done,
          asked,
          (
            (λ alike. j.tracks.traced p q (c.eq_of_same (j.rep p) (j.rep q) alike)),
            (λ l. rw (Linked-same edges j.rep j.tracks p q l) (c.same_self (j.rep q))),
          ),
        )

    -- After Union was called on the ends of every edge, SizeOf ends, and answers with the number of
    -- the elements that a chain of the edges links to x; it follows k pointers only where these are
    -- at least 2^k.
    pub size_of-Linked :
        (edges : List (Edge T)) (x : T)
        → (members : List T) × (s after : Sets T) × (k : ℕ) × (union_all zero_value edges new
            ≡ some s)
          × (size_of zero_value s x ≡ some (length members, after))
          × Apart (λ y z. y ≢ z) members
          × ((y : T) → Memᴰ y members ↔ Linked edges x y)
          × (after.find_steps ≡ s.find_steps + k)
          × (2 ^ k ≤ length members)
    size_of-Linked edges x =
        let (s, done, j, spread) = joined_all zero_value edges new new-Joined in
        let (after, k, m, asked, known, back, keeps, count, large) =
          size_of-Members zero_value j.rep j.rank s x j.forest j.sized in
        let known_linked : (y : T) → j.rep x ≡ j.rep y → Known after.parent y = λ y same.
          elim (Option-cases (Dict.get s.parent y)) [
            | inr (p, found) ↦ keeps y (p, found)
            | inl fresh ↦
                let up : j.rep x ≡ y = same ∙ (j.forest.alone y fresh).0 in
                elim (Option-cases (Dict.get s.parent x)) [
                  | inr (q, old) ↦
                      let top = j.forest.top x (q, old) in
                      let found = rw up at top in cc (found, fresh)
                  | inl unknown ↦ rw (sym up ∙ (j.forest.alone x unknown).0) known
                ]
          ] in
        (
          m.members,
          s,
          after,
          k,
          done,
          asked,
          m.once,
          (λ y. (
            (λ mem. j.tracks.traced x y (sym (m.inside y mem).1)),
            (λ l.
                let same = Linked-same edges j.rep j.tracks x y l in
                m.all y (known_linked y same) (sym same)),
          )),
          count,
          large,
        )
