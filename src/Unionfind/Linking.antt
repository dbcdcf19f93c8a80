-- ===== src/Unionfind/Linking.antt =====
-- Elements that a chain of edges links (dsa/patterns/unionfind, unionfind.go).
use mathlib.Core.List.{Memᴰ}
use mathlib.Core.List.Memᴰ
use learn_go.Prelude.{◌≡◌, sym, ◌∙◌, ap, ◌⊎◌, inl, inr, Option, none, some, List, [], ◌∷◌}
use learn_go.Unionfind.{Edge}

module _ {ℓ} {T : Type ℓ} where
  -- A chain of edges, taken in either direction.
  pub data Linked (edges : List (Edge T)) : T → T → Type ℓ where
    here : {p q : T} → p ≡ q → Linked edges p q
    along : {p q : T} (e : Edge T) → Memᴰ e edges → e.from ≡ p → e.to ≡ q → Linked edges p q
    flip : {p q : T} → Linked edges q p → Linked edges p q
    chain : {p q : T} (r : T) → Linked edges p r → Linked edges r q → Linked edges p q

  pub Linked-map :
      (a b : List (Edge T))
      → ((e : Edge T) → Memᴰ e a → Memᴰ e b)
      → (p q : T) → Linked a p q
      → Linked b p q
  Linked-map a b f p q (here e) = here e
  Linked-map a b f p q (along e m x y) = along e (f e m) x y
  Linked-map a b f p q (flip l) = flip (Linked-map a b f q p l)
  Linked-map a b f p q (chain r l k) = chain r (Linked-map a b f p r l) (Linked-map a b f r q k)

  -- The roots tell which elements are linked.
  pub record Tracks (edges : List (Edge T)) (rep : T → T) : Type ℓ where
    pub held : (e : Edge T) → Memᴰ e edges → rep e.from ≡ rep e.to
    pub traced : (p q : T) → rep p ≡ rep q → Linked edges p q

  pub Linked-same :
      (edges : List (Edge T)) (rep : T → T)
      → Tracks edges rep
      → (p q : T) → Linked edges p q
      → rep p ≡ rep q
  Linked-same edges rep t p q (here e) = ap rep e
  Linked-same edges rep t p q (along e m x y) = ap rep (sym x) ∙ t.held e m ∙ ap rep y
  Linked-same edges rep t p q (flip l) = sym (Linked-same edges rep t q p l)
  Linked-same edges rep t p q (chain r l k) =
      Linked-same edges rep t p r l ∙ Linked-same edges rep t r q k

  pub new-Tracks : Tracks [] (λ x. x)
  new-Tracks = record { held = λ e m. absurd (Memᴰ.not-nil m); traced = λ p q e. here e }

  -- The first edge whose ends the edges before it link, if there is one.
  abbrev pub FirstCycle : List (Edge T) → List (Edge T) → Option (Edge T) → Type ℓ
  FirstCycle seen [] answer = answer ≡ none
  FirstCycle seen (e ∷ edges) answer =
      let rest = FirstCycle (e ∷ seen) edges answer in
      (Linked seen e.from e.to × (answer ≡ some e)) ⊎ (¬ Linked seen e.from e.to × rest)

  -- The ends of the edges.
  abbrev pub ends : List (Edge T) → List T
  ends [] = []
  ends (e ∷ edges) = e.from ∷ e.to ∷ ends edges

  -- The edges, the last first.
  abbrev pub past : List (Edge T) → List (Edge T) → List (Edge T)
  past [] seen = seen
  past (e ∷ edges) seen = past edges (e ∷ seen)

  past_all : (edges seen : List (Edge T)) (x : Edge T) → Memᴰ x seen → Memᴰ x (past edges seen)
  past_all [] seen x m = m
  past_all (e ∷ edges) seen x m = past_all edges (e ∷ seen) x (Memᴰ.tail m)

  pub to_past : (edges seen : List (Edge T)) (x : Edge T) → Memᴰ x edges → Memᴰ x (past edges seen)
  to_past [] seen x m = absurd (Memᴰ.not-nil m)
  to_past (e ∷ edges) seen x m = elim (Memᴰ.cases_cons m) [
    | inl same ↦ past_all edges (e ∷ seen) x (Memᴰ.head same)
    | inr later ↦ to_past edges (e ∷ seen) x later
  ]

  pub of_past :
      (edges seen : List (Edge T)) (x : Edge T)
      → Memᴰ x (past edges seen)
      → Memᴰ x edges ⊎ Memᴰ x seen
  of_past [] seen x m = inr m
  of_past (e ∷ edges) seen x m = elim (of_past edges (e ∷ seen) x m) [
    | inl later ↦ inl (Memᴰ.tail later)
    | inr old ↦ elim (Memᴰ.cases_cons old) [
      | inl same ↦ inl (Memᴰ.head same)
      | inr before ↦ inr before
    ]
  ]
