-- ===== src/Unionfind/Members.antt =====
-- The sizes of dsa/patterns/unionfind (unionfind.go) are the numbers of the elements in the sets.
use mathlib.Core.List.{Memᴰ}
use mathlib.Core.List.Memᴰ
use learn_go.Prelude.{
  ℕ, ◌+◌, ◌≡◌, ◌≢◌, refl, sym, ◌∙◌, ap, inl, inr, none, some, List, [], ◌∷◌, ◌++◌, length,
  length-append, arith, Option-cases,
}
use learn_go.Prelude.Comparable.{Comparable}
use learn_go.Prelude.Dict
use learn_go.Unionfind.{Sets, add, hang, size_at}
use learn_go.Unionfind.Forest.{Known, Known-put, IsForest}
use learn_go.Unionfind.Roots.{Apart, Alike, put-back}
use learn_go.Unionfind.Joining.{joined, joined-moved, joined-other, same_or_not}

Apart-append {ℓ} :
    {A : Type ℓ} (rel : A → A → Type ℓ) (xs ys : List A)
    → Apart rel xs
    → Apart rel ys
    → ((x y : A) → Memᴰ x xs → Memᴰ y ys → rel x y)
    → Apart rel (xs ++ ys)
Apart-append rel [] ys d e f = e
Apart-append rel (x ∷ xs) ys (d, rest) e f = (
  λ q m. elim (Memᴰ.append_cases xs m) [
    | inl inside ↦ d q inside
    | inr beyond ↦ f x q (Memᴰ.head refl) beyond
  ],
  Apart-append rel xs ys rest e (λ a b m n. f a b (Memᴰ.tail m) n),
)

module _ {ℓ} {T : Type ℓ} ⦃c : Comparable T⦄ where
  -- The elements of the set with the root r, each once.
  pub record Members (rep : T → T) (d : List (T × T)) (sizes : List (T × ℕ)) (r : T) : Type ℓ where
    pub members : List T
    pub number : Dict.get sizes r ≡ some (length members)
    pub once : Apart (λ x y. x ≢ y) members
    pub inside : (y : T) → Memᴰ y members → Known d y × (rep y ≡ r)
    pub all : (y : T) → Known d y → rep y ≡ r → Memᴰ y members

  abbrev pub Sized : (T → T) → List (T × T) → List (T × ℕ) → Type ℓ
  Sized rep d sizes = (r : T) → Dict.get d r ≡ some r → Members rep d sizes r

  pub new-Sized : Sized (λ x. x) [] []
  new-Sized r e = cc e

  pub Alike-Sized :
      (rep : T → T) (d d' : List (T × T)) (sizes : List (T × ℕ))
      → Alike d d'
      → Sized rep d sizes
      → Sized rep d' sizes
  Alike-Sized rep d d' sizes a t r root =
      let m = t r (a.stood r root) in
      record {
        members = m.members;
        number = m.number;
        once = m.once;
        inside = λ y mem. let (k, e) = m.inside y mem in (a.keeps y k, e);
        all = λ y k e. m.all y (a.back y k) e;
      }

  pub put-Sized :
      (rep : T → T) (rank : T → ℕ) (d : List (T × T)) (sizes : List (T × ℕ)) (x : T)
      → IsForest rep rank d sizes
      → Dict.get d x ≡ none
      → Sized rep d sizes
      → Sized rep (Dict.put x x d) (Dict.put x 1 sizes)
  put-Sized rep rank d sizes x f fresh t r root = elim (Dict.put_cases x r x r d root) [
    | inl (at_x, is_x) ↦ record {
      members = x ∷ [];
      number = rw at_x (Dict.get-put_self x 1 sizes ∙ ap (λ n. some n) (omega arith));
      once = (λ q m. absurd (Memᴰ.not-nil m), tt);
      inside = λ y m.
          let e = Memᴰ.eq_of_singleton m in rw (e, at_x) ((x, Dict.get-put_self x x d), self);
      all = λ y (p, k) e. elim (Dict.put_cases x y x p d k) [
        | inl (y_is, other) ↦ Memᴰ.head y_is
        | inr (ne, old) ↦
            let top = f.top y (p, old) in
            let same : rep y ≡ x = e ∙ at_x in let found = rw same at top in cc (found, fresh)
      ];
    }
    | inr (other, old) ↦
        let m = t r old in
        record {
          members = m.members;
          number = Dict.get-put_other x r 1 sizes other ∙ m.number;
          once = m.once;
          inside = λ y mem. let (k, e) = m.inside y mem in (Known-put d x x y k, e);
          all = λ y (p, k) e. elim (Dict.put_cases x y x p d k) [
            | inl (y_is, q) ↦ absurd (other (sym e ∙ ap rep y_is ∙ self))
            | inr (ne, before) ↦ m.all y (p, before) e
          ];
        }
  ]
    where
      self : rep x ≡ x
      self = (f.alone x fresh).0

  pub add-Sized :
      (rep : T → T) (rank : T → ℕ) (s : Sets T) (x : T)
      → IsForest rep rank s.parent s.size
      → Sized rep s.parent s.size
      → Sized rep (add s x).1.parent (add s x).1.size
  unfolding add
  add-Sized rep rank s x f t = elim (Option-cases (Dict.get s.parent x)) [
    | inl fresh ↦ rw (fresh, add) (put-Sized rep rank s.parent s.size x f fresh t)
    | inr (p, found) ↦ rw (found, add) t
  ]

  -- Union adds the two sizes, and the set of big gets the elements of the set of small.
  pub hang-Sized :
      (rep : T → T) (s : Sets T) (big small : T)
      → Dict.get s.parent big ≡ some big
      → Dict.get s.parent small ≡ some small
      → big ≢ small
      → Sized rep s.parent s.size
      → Sized (joined rep big small) (hang s big small).parent (hang s big small).size
  hang-Sized rep s big small root_big root_small ne t r root =
      elim (Dict.put_cases small r big r s.parent root) [
        | inl (at_small, is_big) ↦ absurd (ne (sym is_big ∙ at_small))
        | inr (other, old) ↦ elim (same_or_not r big) [
          | inl is_big ↦
              let a = t big root_big in
              let b = t small root_small in
              let total : size_at s big + size_at s small ≡ length (a.members ++ b.members) =
                rw (a.number, b.number) (sym (length-append a.members b.members)) in
              rw is_big (record {
                members = a.members ++ b.members;
                number =
                    Dict.get-put_self big (size_at s big + size_at s small) s.size
                    ∙ ap (λ n. some n) total;
                once =
                    Apart-append (λ x y. x ≢ y) a.members b.members a.once b.once
                      (λ x y m n e.
                        let (k, up) = a.inside x m in
                        let (l, down) = b.inside y n in ne (sym up ∙ ap rep e ∙ down));
                inside = λ y m. elim (Memᴰ.append_cases a.members m) [
                  | inl first ↦
                      let (k, e) = a.inside y first in
                      (
                        Known-put s.parent small big y k,
                        joined-other rep big small y (λ w. ne (sym e ∙ w)) ∙ e,
                      )
                  | inr second ↦
                      let (k, e) = b.inside y second in
                      (Known-put s.parent small big y k, joined-moved rep big small y e)
                ];
                all = λ y k e.
                    let known = put-back s.parent small big (small, root_small) y k in
                    elim (same_or_not (rep y) small) [
                      | inl moved ↦ Memᴰ.append_right a.members (b.all y known moved)
                      | inr stays ↦
                          Memᴰ.append_left b.members
                            (a.all y known (sym (joined-other rep big small y stays) ∙ e))
                    ];
              })
          | inr not_big ↦
              let m = t r old in
              record {
                members = m.members;
                number =
                    Dict.get-put_other big r (size_at s big + size_at s small) s.size not_big
                    ∙ m.number;
                once = m.once;
                inside = λ y mem.
                    let (k, e) = m.inside y mem in
                    (
                      Known-put s.parent small big y k,
                      joined-other rep big small y (λ w. other (sym e ∙ w)) ∙ e,
                    );
                all = λ y k e. elim (same_or_not (rep y) small) [
                  | inl moved ↦ absurd (not_big (sym e ∙ joined-moved rep big small y moved))
                  | inr stays ↦
                      m.all y (put-back s.parent small big (small, root_small) y k)
                        (sym (joined-other rep big small y stays) ∙ e)
                ];
              }
        ]
      ]
