-- ===== src/Hashmap/Iterate.antt =====
-- All and Keys (dsa/hashmap/hashmap.go): the pairs that the slots give.
use learn_go.Prelude.{ℕ, ◌≡◌, refl, ◌∙◌, sym, inl, inr, Option, none, List, [], ◌∷◌, length, arith}
use learn_go.Prelude.Comparable.{Comparable}
use learn_go.Prelude.Dict
use learn_go.Hashmap.{Slot, HashMap, pairs}
use learn_go.Hashmap.Probing.{state_cases}
use learn_go.Hashmap.Find.{find, Apart, find-IsTable, IsTable-Apart}
use learn_go.Hashmap.Methods.{Holds}

module _ {ℓ} {K V : Type ℓ} ⦃c : Comparable K⦄ where
  -- No key stands twice in the list.
  abbrev pub Distinct : List (K × V) → Type ℓ
  Distinct [] = Unit
  Distinct ((k, v) ∷ d) = let rest = Distinct d in (Dict.get d k ≡ none) × rest

  get-pairs : (q : K) (slots : List (Slot K V)) → Dict.get (pairs slots) q ≡ find q slots
  get-pairs q [] = refl
  get-pairs q (s ∷ slots) = elim (state_cases s.state) [
    | inl e ↦ rw e (get-pairs q slots)
    | inr (inl e) ↦ rw e (get-pairs q slots)
    | inr (inr e) ↦ rw (e, get-pairs q slots) refl
  ]

  pairs-Distinct : (slots : List (Slot K V)) → Apart slots → Distinct (pairs slots)
  pairs-Distinct [] a = tt
  pairs-Distinct (s ∷ slots) (here, later) = elim (state_cases s.state) [
    | inl e ↦ rw e (pairs-Distinct slots later)
    | inr (inl e) ↦ rw e (pairs-Distinct slots later)
    | inr (inr e) ↦ rw e (get-pairs s.key slots ∙ here e, pairs-Distinct slots later)
  ]

  no_slots : (slots : List (Slot K V)) → length slots ≡ 0 → pairs slots ≡ []
  no_slots [] e = refl
  no_slots (s ∷ slots) e = absurd (omega (arith, e))

module _ {ℓ} {K V : Type ℓ} ⦃c : Comparable K⦄ (hash : K → ℕ) where
  -- All of a table that holds a map yields, to a caller that reads to the end, the entries of the
  -- map, each once.
  pub pairs-Holds :
      (f : K → Option V) (m : HashMap K V)
      → Holds hash f m
      → ((q : K) → Dict.get (pairs m.slots) q ≡ f q) × Distinct (pairs m.slots)
  pairs-Holds f m h = elim h.shape [
    | inl (none_yet, empty_map) ↦
        let nothing = no_slots m.slots none_yet in rw nothing (λ q. sym (empty_map q), tt)
    | inr t ↦ (
      λ q. get-pairs q m.slots ∙ find-IsTable hash f m.slots t q,
      pairs-Distinct m.slots (IsTable-Apart hash f m.slots t),
    )
  ]
