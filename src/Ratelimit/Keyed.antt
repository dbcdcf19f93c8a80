-- ===== src/Ratelimit/Keyed.antt =====
-- keyedLimiters (ratelimit/keyed.go): one limiter for each key, without the ones that are not used.
-- The limiters are a parameter: `fresh` is what rate.NewLimiter gives to a call that needs one.
use Prim.Native.Nat.Ordering.{lt, eq, gt}
use learn_go.Prelude.{
  ℕ, ◌+◌, ◌*◌, ◌≤◌, ◌≡◌, ◌≢◌, refl, sym, inl, inr, Bool, false, Option, none, some, List, [], ◌∷◌,
  length, arith, ltb, Ordering,
}
use learn_go.Prelude.Ordered.{Ordered}
use learn_go.Prelude.Assoc
use learn_go.Prelude.Assoc.{IsSorted}
use learn_go.Prelude.Map
use learn_go.Ratelimit.{second, sweep_expired}
use learn_go.Ratelimit.Sweep.{IsSwept, sweep_expired-IsSwept}

pub record KeyedEntry {ℓ} (L : Type ℓ) : Type ℓ where
  pub limiter : L
  pub last_seen : ℕ

pub record KeyedLimiters {ℓ κ} (K : Type ℓ) (L : Type κ) : Type (ℓ ⊔ κ) where
  pub limiters : List (K × KeyedEntry L)
  pub ttl : ℕ
  pub sweep_every : ℕ
  pub last_sweep : ℕ

abbrev pub new_keyed_limiters {ℓ κ} : {K : Type ℓ} {L : Type κ} → KeyedLimiters K L
new_keyed_limiters = record {
  limiters = [];
  ttl = 600 * second;
  sweep_every = 60 * second;
  last_sweep = 0;
}

-- The closure of maybeSweep.
abbrev pub idle {ℓ} : {L : Type ℓ} → ℕ → ℕ → KeyedEntry L → Bool
idle now ttl e = ltb (e.last_seen + ttl) now

-- The limiter of the entry that is found, or the new one.
abbrev pub limiter_or {ℓ} : {L : Type ℓ} → L → Option (KeyedEntry L) → L
limiter_or fresh none = fresh
limiter_or fresh (some e) = e.limiter

module _ {ℓ κ} {K : Type ℓ} {L : Type κ} where
  pub maybe_sweep : KeyedLimiters K L → ℕ → KeyedLimiters K L
  unfolding sweep_expired
  maybe_sweep k now =
      let (last, limiters) =
        sweep_expired k.last_sweep now k.sweep_every k.limiters (idle now k.ttl) in
      record k { limiters = limiters; last_sweep = last }

  pub keyed_len : KeyedLimiters K L → ℕ
  keyed_len k = length k.limiters

module _ {ℓ κ} {K : Type ℓ} {L : Type κ} ⦃o : Ordered K⦄ where
  -- keyedLimiters.get.
  pub keyed_get : KeyedLimiters K L → ℕ → K → L → L × KeyedLimiters K L
  keyed_get k now key fresh =
      let s = maybe_sweep k now in
      let l = limiter_or fresh (Assoc.get s.limiters key) in
      (
        l,
        record s { limiters = Assoc.put key (record { limiter = l; last_seen = now }) s.limiters },
      )

  swept :
      (k : KeyedLimiters K L) (now : ℕ) (key : K)
      → IsSorted k.limiters
      → IsSwept (idle now k.ttl) k.limiters (maybe_sweep k now).limiters key
  unfolding maybe_sweep
  swept k now key s =
      sweep_expired-IsSwept (idle now k.ttl) k.last_sweep now k.sweep_every k.limiters key s

  -- The entry of a key, and the time to live.
  record IsHeld (ttl : ℕ) (key : K) (e : KeyedEntry L) (k : KeyedLimiters K L) : Type (ℓ ⊔ κ) where
    sorted : IsSorted k.limiters
    held : Assoc.get k.limiters key ≡ some e
    same_ttl : k.ttl ≡ ttl

  keyed_get-IsHeld :
      (k : KeyedLimiters K L) (now : ℕ) (key : K) (fresh : L)
      → IsSorted k.limiters
      → IsHeld k.ttl key
          (record { limiter = (keyed_get k now key fresh).0; last_seen = now })
          (keyed_get k now key fresh).1
  unfolding keyed_get maybe_sweep
  keyed_get-IsHeld k now key fresh s =
      let m = (maybe_sweep k now).limiters in
      let sw = swept k now key s in
      let entry : KeyedEntry L = record {
        limiter = limiter_or fresh (Assoc.get m key);
        last_seen = now;
      } in
      record {
        sorted = Map.put-IsSorted key entry m sw.sorted;
        held = rw (Map.get-put key key entry m, o.cmp_self key) refl;
        same_ttl = refl;
      }

  -- A sweep within the time to live leaves the entry.
  swept-held :
      (ttl now : ℕ) (key : K) (e : KeyedEntry L) (k : KeyedLimiters K L)
      → IsHeld ttl key e k
      → now ≤ e.last_seen + ttl
      → Assoc.get (maybe_sweep k now).limiters key ≡ some e
  swept-held ttl now key e k p h =
      let sw = swept k now key p.sorted in
      let within : now ≤ e.last_seen + k.ttl = rw p.same_ttl h in
      let used : idle now k.ttl e ≡ false = ground arith in
      elim sw.entry [ inl same ↦ rw (same, p.held) refl | inr cut ↦ rw (cut, p.held, used) refl ]

  keyed_get_found :
      (ttl now : ℕ) (key : K) (fresh : L) (e : KeyedEntry L) (k : KeyedLimiters K L)
      → IsHeld ttl key e k
      → now ≤ e.last_seen + ttl
      → (keyed_get k now key fresh).0 ≡ e.limiter
  unfolding keyed_get
  keyed_get_found ttl now key fresh e k p h = rw (swept-held ttl now key e k p h) refl

  -- A call for another key leaves the entry too.
  other-IsHeld :
      (ttl now : ℕ) (key other : K) (fresh : L) (e : KeyedEntry L) (k : KeyedLimiters K L)
      → other ≢ key
      → now ≤ e.last_seen + ttl
      → IsHeld ttl key e k
      → IsHeld ttl key e (keyed_get k now other fresh).1
  unfolding keyed_get maybe_sweep
  other-IsHeld ttl now key other fresh e k differs h p =
      let m = (maybe_sweep k now).limiters in
      let entry : KeyedEntry L = record {
        limiter = limiter_or fresh (Assoc.get m other);
        last_seen = now;
      } in
      record {
        sorted = Map.put-IsSorted other entry m (swept k now other p.sorted).sorted;
        held =
            rw (Map.get-put other key entry m)
              (not_own entry (o.cmp key other) refl (swept-held ttl now key e k p h));
        same_ttl = p.same_ttl;
      }
    where
      not_own :
          (entry : KeyedEntry L) (side : Ordering) {found : Option (KeyedEntry L)}
          → o.cmp key other ≡ side
          → found ≡ some e
          → elim side [ eq ↦ some entry | _ ↦ found ] ≡ some e
      not_own entry lt same g = g
      not_own entry gt same g = g
      not_own entry eq same g = absurd (differs (sym (o.same_of_cmp key other same)))

  -- Calls of get one after another: the time, the key and the new limiter of each.
  abbrev pub get_all : KeyedLimiters K L → List (ℕ × K × L) → KeyedLimiters K L
  get_all k [] = k
  get_all k ((now, key, fresh) ∷ calls) = get_all (keyed_get k now key fresh).1 calls

  -- None of the calls is for `key`, and none is after `until`.
  abbrev pub AllOthers : K → ℕ → List (ℕ × K × L) → Type ℓ
  AllOthers key until [] = Unit
  AllOthers key until ((now, other, fresh) ∷ calls) =
      (other ≢ key) × (now ≤ until) × AllOthers key until calls

  get_all-IsHeld :
      (ttl : ℕ) (key : K) (e : KeyedEntry L) (k : KeyedLimiters K L) (calls : List (ℕ × K × L))
      → AllOthers key (e.last_seen + ttl) calls
      → IsHeld ttl key e k
      → IsHeld ttl key e (get_all k calls)
  get_all-IsHeld ttl key e k [] others p = p
  get_all-IsHeld ttl key e k ((now, other, fresh) ∷ calls) others p =
      get_all-IsHeld ttl key e (keyed_get k now other fresh).1 calls others.2
        (other-IsHeld ttl now key other fresh e k others.0 others.1 p)

  -- On sorted limiters, a call of get for a key at most `ttl` after another gives the same limiter,
  -- whatever calls for other keys at times up to `ttl` after the first come between the two, with
  -- their sweeps.
  pub keyed_get_again :
      (k : KeyedLimiters K L) (now later : ℕ) (key : K) (fresh renewed : L)
      (between : List (ℕ × K × L))
      → IsSorted k.limiters
      → AllOthers key (now + k.ttl) between
      → later ≤ now + k.ttl
      → (keyed_get (get_all (keyed_get k now key fresh).1 between) later key renewed).0
        ≡ (keyed_get k now key fresh).0
  keyed_get_again k now later key fresh renewed between s others h =
      let got = keyed_get k now key fresh in
      let e : KeyedEntry L = record { limiter = got.0; last_seen = now } in
      keyed_get_found k.ttl later key renewed e (get_all got.1 between)
        (get_all-IsHeld k.ttl key e got.1 between others (keyed_get-IsHeld k now key fresh s)) h
