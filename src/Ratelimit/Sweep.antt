-- ===== src/Ratelimit/Sweep.antt =====
-- sweepExpired (ratelimit/keyed.go) on the map, seen from one key.
use learn_go.Prelude.{
  ℕ, ◌-◌, ◌≡◌, refl, ◌⊎◌, inl, inr, Bool, Option, none, some, List, [], ◌∷◌, arith, if◌then◌else◌,
  ltb, Bool-cases,
}
use learn_go.Prelude.Ordered.{Ordered, ◌≺◌}
use learn_go.Prelude.Assoc
use learn_go.Prelude.Assoc.{All, IsSorted, get_above}
use learn_go.Ratelimit.{keep_values, sweep_expired}

abbrev pub unless {ℓ} : {V : Type ℓ} → (V → Bool) → Option V → Option V
unless expired none = none
unless expired (some v) = if expired v then none else some v

module _ {ℓ κ} {K : Type ℓ} {V : Type κ} ⦃o : Ordered K⦄ (expired : V → Bool) where
  All-keep_values : (P : K → Type 0) (m : List (K × V)) → All P m → All P (keep_values expired m)
  unfolding keep_values
  All-keep_values P [] h = tt
  All-keep_values P ((k, v) ∷ m) h = ground (arith, All-keep_values P m h.1)

  keep_values-IsSorted : (m : List (K × V)) → IsSorted m → IsSorted (keep_values expired m)
  unfolding keep_values
  keep_values-IsSorted [] h = tt
  keep_values-IsSorted ((k, v) ∷ m) h =
      ground (arith, keep_values-IsSorted m h.1, All-keep_values (λ x. k ≺ x) m h.0)

  get-keep_values :
      (m : List (K × V)) (key : K)
      → IsSorted m
      → Assoc.get (keep_values expired m) key ≡ unless expired (Assoc.get m key)
  unfolding keep_values
  get-keep_values [] key h = refl
  get-keep_values ((k, v) ∷ m) key h =
      ground (arith, get-keep_values m key h.1, o.same_of_cmp key k, get_above k m h.0)

  -- A sweep leaves the entry of a key, or removes it if it has expired.
  pub record IsSwept (m m' : List (K × V)) (key : K) : Type (ℓ ⊔ κ) where
    pub sorted : IsSorted m'
    pub entry :
        (Assoc.get m' key ≡ Assoc.get m key) ⊎ (Assoc.get m' key ≡ unless expired (Assoc.get m key))

  pub sweep_expired-IsSwept :
      (last now every : ℕ) (m : List (K × V)) (key : K)
      → IsSorted m
      → IsSwept m (sweep_expired last now every m expired).1 key
  unfolding sweep_expired
  sweep_expired-IsSwept last now every m key h = elim (Bool-cases (ltb (now - last) every)) [
    | inl early ↦ rw early (record { sorted = h; entry = inl refl })
    | inr due ↦
        rw due (record { sorted = keep_values-IsSorted m h; entry = inr (get-keep_values m key h) })
  ]
