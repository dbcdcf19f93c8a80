-- ===== src/Unionfind/Roots.antt =====
-- The count of dsa/patterns/unionfind (unionfind.go) is the number of roots.
use mathlib.Core.List.{Memᴰ}
use mathlib.Core.List.Memᴰ
use learn_go.Prelude.{
  ◌+◌, ◌≡◌, ◌≢◌, refl, sym, ◌∙◌, ◌⊎◌, inl, inr, false, none, some, List, [], ◌∷◌, length, arith,
  Bool-cases, Option-cases, if◌then◌else◌,
}
use learn_go.Prelude.Comparable.{Comparable}
use learn_go.Prelude.Dict
use learn_go.Unionfind.{Sets, add, hang}
use learn_go.Unionfind.Forest.{Known, Known-put}

module _ {ℓ} {A : Type ℓ} where
  -- Each entry is related to each later one.
  abbrev pub Apart : (A → A → Type ℓ) → List A → Type ℓ
  Apart rel [] = Unit
  Apart rel (r ∷ roots) = let rest = Apart rel roots in ((q : A) → Memᴰ q roots → rel r q) × rest

  pub Apart-map :
      (rel other : A → A → Type ℓ) (roots : List A)
      → ((r q : A) → Memᴰ r roots → Memᴰ q roots → rel r q → other r q)
      → Apart rel roots
      → Apart other roots
  Apart-map rel other [] f d = d
  Apart-map rel other (r ∷ roots) f (d, rest) = (
    λ q m. f r q (Memᴰ.head refl) (Memᴰ.tail m) (d q m),
    Apart-map rel other roots (λ x y m n. f x y (Memᴰ.tail m) (Memᴰ.tail n)) rest,
  )

module _ {ℓ} {T : Type ℓ} ⦃c : Comparable T⦄ where
  abbrev remove : T → List T → List T
  remove x [] = []
  remove x (r ∷ roots) = let rest = remove x roots in if c.same r x then roots else r ∷ rest

  of_remove : (x q : T) (roots : List T) → Memᴰ q (remove x roots) → Memᴰ q roots
  of_remove x q [] m = m
  of_remove x q (r ∷ roots) m = elim (Bool-cases (c.same r x)) [
    | inl alike ↦ Memᴰ.tail (rw alike at m)
    | inr apart ↦
        let kept : Memᴰ q (r ∷ remove x roots) = rw apart at m in
        elim (Memᴰ.cases_cons kept) [
          | inl first ↦ Memᴰ.head first
          | inr later ↦ Memᴰ.tail (of_remove x q roots later)
        ]
  ]

  to_remove : (x q : T) (roots : List T) → q ≢ x → Memᴰ q roots → Memᴰ q (remove x roots)
  to_remove x q [] ne m = m
  to_remove x q (r ∷ roots) ne m = elim (Memᴰ.cases_cons m) [
    | inl first ↦
        let apart : c.same r x ≡ false = rw (sym first) (Dict.same_no q x ne) in
        rw apart (Memᴰ.head first)
    | inr later ↦ elim (Bool-cases (c.same r x)) [
      | inl alike ↦ rw alike later
      | inr apart ↦ rw apart (Memᴰ.tail (to_remove x q roots ne later))
    ]
  ]

  remove-Apart :
      (x : T) (roots : List T) → Apart (λ r q. r ≢ q) roots → Apart (λ r q. r ≢ q) (remove x roots)
  remove-Apart x [] d = d
  remove-Apart x (r ∷ roots) (d, rest) = elim (Bool-cases (c.same r x)) [
    | inl alike ↦ rw alike rest
    | inr apart ↦ rw apart (λ q m. d q (of_remove x q roots m), remove-Apart x roots rest)
  ]

  gone :
      (x : T) (roots : List T)
      → Apart (λ r q. r ≢ q) roots
      → (q : T) → Memᴰ q (remove x roots)
      → q ≢ x
  gone x [] d q m = absurd (Memᴰ.not-nil m)
  gone x (r ∷ roots) (d, rest) q m = elim (Bool-cases (c.same r x)) [
    | inl alike ↦ let e = c.eq_of_same r x alike in λ same. d q (rw alike at m) (e ∙ sym same)
    | inr apart ↦
        let kept : Memᴰ q (r ∷ remove x roots) = rw apart at m in
        elim (Memᴰ.cases_cons kept) [
          | inl first ↦ λ same. Dict.ne_of_same r x apart (sym first ∙ same)
          | inr later ↦ gone x roots rest q later
        ]
  ]

  length-remove :
      (x : T) (roots : List T) → Memᴰ x roots → length roots ≡ length (remove x roots) + 1
  length-remove x [] m = absurd (Memᴰ.not-nil m)
  length-remove x (r ∷ roots) m = elim (Bool-cases (c.same r x)) [
    | inl alike ↦ rw alike (omega arith)
    | inr apart ↦ elim (Memᴰ.cases_cons m) [
      | inl first ↦ absurd (Dict.ne_of_same r x apart (sym first))
      | inr later ↦ rw apart (omega (arith, length-remove x roots later))
    ]
  ]

  -- The list of the roots, each once.
  pub record Counted (s : Sets T) : Type ℓ where
    pub roots : List T
    pub each : (r : T) → Memᴰ r roots → Dict.get s.parent r ≡ some r
    pub every : (r : T) → Dict.get s.parent r ≡ some r → Memᴰ r roots
    pub once : Apart (λ r q. r ≢ q) roots
    pub number : s.count ≡ length roots

  -- The same elements and the same roots.
  pub record Alike (d d' : List (T × T)) : Type ℓ where
    pub keeps : (y : T) → Known d y → Known d' y
    pub back : (y : T) → Known d' y → Known d y
    pub stays : (r : T) → Dict.get d r ≡ some r → Dict.get d' r ≡ some r
    pub stood : (r : T) → Dict.get d' r ≡ some r → Dict.get d r ≡ some r

  pub Alike-self : (d : List (T × T)) → Alike d d
  Alike-self d = record { keeps = λ y k. k; back = λ y k. k; stays = λ r e. e; stood = λ r e. e }

  pub Alike-trans : (d d' d'' : List (T × T)) → Alike d d' → Alike d' d'' → Alike d d''
  Alike-trans d d' d'' a b = record {
    keeps = λ y k. b.keeps y (a.keeps y k);
    back = λ y k. a.back y (b.back y k);
    stays = λ r e. b.stays r (a.stays r e);
    stood = λ r e. a.stood r (b.stood r e);
  }

  -- A node put under another element.
  pub put-back :
      (d : List (T × T)) (n r : T) → Known d n → (y : T) → Known (Dict.put n r d) y → Known d y
  put-back d n r k y (p, e) = elim (Dict.put_cases n y r p d e) [
    | inl (at_n, is_r) ↦ rw at_n k
    | inr (ne, old) ↦ (p, old)
  ]

  pub put-Alike :
      (d : List (T × T)) (n p r : T)
      → Dict.get d n ≡ some p
      → p ≢ n
      → r ≢ n
      → Alike d (Dict.put n r d)
  put-Alike d n p r found ne apart = record {
    keeps = λ y k. Known-put d n r y k;
    back = put-back d n r (p, found);
    stays = λ q e.
        Dict.get-put_other n q r d (λ same.
          let here = rw same at e in
          let out : some n ≡ some p = sym here ∙ found in let u : n ≡ p = cc out in ne (sym u))
        ∙ e;
    stood = λ q e. elim (Dict.put_cases n q r q d e) [
      | inl (at_n, is_r) ↦ absurd (apart (sym is_r ∙ at_n))
      | inr (other, old) ↦ old
    ];
  }

  pub Alike-Counted :
      (s s' : Sets T) → Alike s.parent s'.parent → s'.count ≡ s.count → Counted s → Counted s'
  Alike-Counted s s' a e t = record {
    roots = t.roots;
    each = λ r m. a.stays r (t.each r m);
    every = λ r h. t.every r (a.stood r h);
    once = t.once;
    number = e ∙ t.number;
  }

  -- One root put under another.
  pub hang-Counted :
      (s : Sets T) (big small : T)
      → Dict.get s.parent small ≡ some small
      → big ≢ small
      → Counted s
      → Counted (hang s big small)
  hang-Counted s big small root ne t = record {
    roots = remove small t.roots;
    each = λ r m.
        Dict.get-put_other small r big s.parent (gone small t.roots t.once r m)
        ∙ t.each r (of_remove small r t.roots m);
    every = λ r h. elim (Dict.put_cases small r big r s.parent h) [
      | inl (at_small, is_big) ↦ absurd (ne (sym is_big ∙ at_small))
      | inr (other, old) ↦ to_remove small r t.roots other (t.every r old)
    ];
    once = remove-Apart small t.roots t.once;
    number = omega (arith, t.number, length-remove small t.roots (t.every small root));
  }

  pub add-Counted : (s : Sets T) (x : T) → Counted s → Counted (add s x).1
  unfolding add
  add-Counted s x t = elim (Option-cases (Dict.get s.parent x)) [
    | inr (p, found) ↦ rw (found, add) t
    | inl fresh ↦
        rw (fresh, add)
          (record {
            roots = x ∷ t.roots;
            each = λ r m. elim (Memᴰ.cases_cons m) [
              | inl first ↦ rw first (Dict.get-put_self x x s.parent)
              | inr later ↦ Dict.get-put_other x r x s.parent (other fresh r later) ∙ t.each r later
            ];
            every = λ r h. elim (Dict.put_cases x r x r s.parent h) [
              | inl (at_x, is_x) ↦ Memᴰ.head at_x
              | inr (ne, old) ↦ Memᴰ.tail (t.every r old)
            ];
            once = (λ q m e. other fresh q m (sym e), t.once);
            number = omega (arith, t.number);
          })
  ]
    where
      other : Dict.get s.parent x ≡ none → (r : T) → Memᴰ r t.roots → r ≢ x
      other fresh r m e = let root = t.each r m in let found = rw e at root in cc (found, fresh)

  pub add-back : (s : Sets T) (x y : T) → Known (add s x).1.parent y → Known s.parent y ⊎ (y ≡ x)
  unfolding add
  add-back s x y = elim (Option-cases (Dict.get s.parent x)) [
    | inr (p, found) ↦ rw (found, add) (λ k. inl k)
    | inl fresh ↦
        rw (fresh, add)
          (λ (p, e). elim (Dict.put_cases x y x p s.parent e) [
            | inl (at_x, is_x) ↦ inr at_x
            | inr (ne, old) ↦ inl (p, old)
          ])
  ]

  pub new-Counted : Counted (record { parent = []; size = []; count = 0; find_steps = 0 })
  new-Counted = record {
    roots = [];
    each = λ r m. absurd (Memᴰ.not-nil m);
    every = λ r e. cc e;
    once = tt;
    number = refl;
  }
