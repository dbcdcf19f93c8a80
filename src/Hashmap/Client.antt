-- ===== src/Hashmap/Client.antt =====
-- Sequences of calls of the hash table (dsa/hashmap/hashmap.go), against a finite map.
use learn_go.Prelude.{ℕ, ◌≡◌, refl, Bool, Option, none, some, ◌>>=◌, List, [], ◌∷◌}
use learn_go.Prelude.Comparable.{Comparable}
use learn_go.Hashmap.{HashMap, new, put, get, delete}
use learn_go.Hashmap.Table.{update}
use learn_go.Hashmap.Methods.{present, Holds, get-Holds}
use learn_go.Hashmap.Change.{new-Holds}
use learn_go.Hashmap.Refine.{put-Holds, delete-Holds}

pub data Call {ℓ} (K V : Type ℓ) : Type ℓ where
  store : K → V → Call K V
  look : K → Call K V
  erase : K → Call K V

pub data Answer {ℓ} (V : Type ℓ) : Type ℓ where
  stored : Answer V
  looked : Option V → Answer V
  erased : Bool → Answer V

module _ {ℓ} {K V : Type ℓ} ⦃c : Comparable K⦄ where
  -- What a finite map answers.
  abbrev pub promised : List (Call K V) → (K → Option V) → List (Answer V)
  promised [] f = []
  promised (store k v ∷ calls) f = stored ∷ promised calls (update f k (some v))
  promised (look k ∷ calls) f = looked (f k) ∷ promised calls f
  promised (erase k ∷ calls) f = erased (present (f k)) ∷ promised calls (update f k none)

module _ {ℓ} {K V : Type ℓ} ⦃c : Comparable K⦄ (hash : K → ℕ) (zero_key : K) (zero_value : V) where
  abbrev pub answers : List (Call K V) → HashMap K V → Option (List (Answer V))
  answers [] m = some []
  answers (store k v ∷ calls) m =
      put hash zero_key zero_value m k v >>= λ m'. answers calls m' >>= λ rest. some (stored ∷ rest)
  answers (look k ∷ calls) m =
      get hash m k >>= λ (m', found). answers calls m' >>= λ rest. some (looked found ∷ rest)
  answers (erase k ∷ calls) m = delete hash zero_key zero_value m k >>= λ (m', gone).
      answers calls m' >>= λ rest. some (erased gone ∷ rest)

  answers-Holds :
      (calls : List (Call K V)) (f : K → Option V) (m : HashMap K V)
      → Holds hash f m
      → answers calls m ≡ some (promised calls f)
  answers-Holds [] f m h = refl
  answers-Holds (store k v ∷ calls) f m h =
      let (m', done, kept) = put-Holds hash zero_key zero_value f m k v h in
      rw (done, answers-Holds calls (update f k (some v)) m' kept) refl
  answers-Holds (look k ∷ calls) f m h =
      let (m', done, kept) = get-Holds hash f m k h in rw (done, answers-Holds calls f m' kept) refl
  answers-Holds (erase k ∷ calls) f m h =
      let (m', done, kept) = delete-Holds hash zero_key zero_value f m k h in
      rw (done, answers-Holds calls (update f k none) m' kept) refl

  -- Whatever calls of Put, Get and Delete a client makes on a new hash map of any capacity and
  -- with any hash, no call panics, and the answers are those of a finite map.
  pub answers-promised :
      (capacity : ℕ) (calls : List (Call K V))
      → answers calls (new hash zero_key zero_value capacity) ≡ some (promised calls (λ _. none))
  answers-promised capacity calls =
      answers-Holds calls (λ _. none) (new hash zero_key zero_value capacity)
        (new-Holds hash zero_key zero_value capacity)
