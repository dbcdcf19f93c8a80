-- ===== src/Ratelimit/Response/Others.antt =====
-- Requests for other keys at a FixedWindow behind the middleware (ratelimit/ratelimit.go).
use Prim.Native.Nat.Ordering.{lt, eq, gt}
use learn_go.Prelude.{
  ℕ, ◌+◌, ◌≤◌, ◌<◌, ◌≡◌, ◌≢◌, refl, sym, ◌∙◌, inl, inr, Bool, Option, none, some, List, [], ◌∷◌,
  arith, Bool-cases, Ordering,
}
use learn_go.Prelude.Int.{pos_part}
use learn_go.Prelude.Ordered.{Ordered}
use learn_go.Prelude.Assoc
use learn_go.Prelude.Assoc.{IsSorted}
use learn_go.Prelude.Map
use learn_go.Ratelimit.{
  Reply, FixedWindow, FixedCounter, fixed_allow, window_over, current_counter, truncate,
}
use learn_go.Ratelimit.Sweep.{unless, sweep_expired-IsSwept}
use learn_go.Ratelimit.Fixed.{next_count, current_counter-start, behind, seen, IsCall, call}
use learn_go.Ratelimit.Aligned.{truncate-window}
use learn_go.Ratelimit.Response.{Headers, middleware}

-- There is no counter, or one of a window that began before `start`.
abbrev pub IsOld : ℕ → Option FixedCounter → Type 0
IsOld start none = Unit
IsOld start (some c) = c.start < start

IsOld-count :
    (start : ℕ) (stored : Option FixedCounter)
    → IsOld start stored
    → (current_counter start stored).count ≡ 0
IsOld-count start none h = refl
IsOld-count start (some c) h = ground arith

unless-IsOld :
    (over : FixedCounter → Bool) (start : ℕ) (stored : Option FixedCounter)
    → IsOld start stored
    → IsOld start (unless over stored)
unless-IsOld over start none h = h
unless-IsOld over start (some c) h = elim (Bool-cases (over c)) [
  | inl cut ↦ rw cut tt
  | inr on ↦ rw on h
]

module _ {ℓ} {K : Type ℓ} ⦃o : Ordered K⦄ where
  -- The counter that a call stores.
  abbrev left : FixedWindow K → ℕ → K → FixedCounter
  left f now key = record {
    start = (seen f now key).start;
    count = next_count (pos_part f.limit) (seen f now key).count;
  }

  module _ (f f' : FixedWindow K) (now later : ℕ) (key : K) (reply : Reply) where
    kept : IsCall f now key reply f' → Assoc.get f'.windows key ≡ some (left f now key)
    kept c = rw (c.stored, Map.get-put key key (left f now key) (behind f now), o.cmp_self key) refl

    sorted_after :
        0 < pos_part f.window → IsSorted f.windows → IsCall f now key reply f' → IsSorted f'.windows
    sorted_after w s c =
        let over = window_over (truncate now (pos_part f.window)) (pos_part f.window) in
        let sw = sweep_expired-IsSwept over f.last_sweep now (pos_part f.window) f.windows key s in
        rw c.stored (Map.put-IsSorted key (left f now key) (behind f now) sw.sorted)

    later_start :
        0 < pos_part f.window
        → IsCall f now key reply f'
        → truncate now (pos_part f.window) + pos_part f.window ≤ later
        → (left f now key).start < truncate later (pos_part f'.window)
    later_start w c h =
        let (_, high) = truncate-window later (pos_part f.window) w in
        let start =
          current_counter-start (truncate now (pos_part f.window)) (Assoc.get (behind f now) key) in
        rw (c.window_kept, start) (omega arith)

  -- A limiter whose counter for `key`, if there is one, is of a window before `start`.
  pub record IsPast (limit window : ℕ) (start : ℕ) (key : K) (f : FixedWindow K) : Type ℓ where
    pub same_limit : pos_part f.limit ≡ limit
    pub same_window : pos_part f.window ≡ window
    pub sorted : IsSorted f.windows
    pub past : IsOld start (Assoc.get f.windows key)

  -- The map behind the sweep of any call keeps it so.
  behind-IsOld :
      (f : FixedWindow K) (now start : ℕ) (key : K)
      → IsSorted f.windows
      → IsOld start (Assoc.get f.windows key)
      → IsOld start (Assoc.get (behind f now) key)
  behind-IsOld f now start key s p =
      let over = window_over (truncate now (pos_part f.window)) (pos_part f.window) in
      let sw = sweep_expired-IsSwept over f.last_sweep now (pos_part f.window) f.windows key s in
      elim sw.entry [
        | inl same ↦ rw same p
        | inr cut ↦ rw cut (unless-IsOld over start (Assoc.get f.windows key) p)
      ]

  request-IsPast :
      (limit window : ℕ) (start now : ℕ) (key k : K) (f : FixedWindow K)
      → 0 < limit
      → 0 < window
      → k ≢ key
      → IsPast limit window start key f
      → IsPast limit window start key (fixed_allow f now k).1
  request-IsPast limit window start now key k f l w other p =
      let c = call f now k (rw p.same_limit l) (rw p.same_window w) in
      let f' = (fixed_allow f now k).1 in
      record {
        same_limit = c.limit_kept ∙ p.same_limit;
        same_window = c.window_kept ∙ p.same_window;
        sorted = sorted_after f f' now 0 k (fixed_allow f now k).0 (rw p.same_window w) p.sorted c;
        past =
            rw (c.stored, Map.get-put k key (left f now k) (behind f now))
              (not_own (o.cmp key k) refl (behind-IsOld f now start key p.sorted p.past));
      }
    where
      not_own :
          (side : Ordering)
          → o.cmp key k ≡ side
          → IsOld start (Assoc.get (behind f now) key)
          → IsOld start (elim side [ eq ↦ some (left f now k) | _ ↦ Assoc.get (behind f now) key ])
      not_own lt e h = h
      not_own gt e h = h
      not_own eq e h = absurd (other (sym (o.same_of_cmp key k e)))

  -- After a call for `key`, from any later window on.
  pub call-IsPast :
      (f : FixedWindow K) (now later : ℕ) (key : K)
      → 0 < pos_part f.limit
      → 0 < pos_part f.window
      → IsSorted f.windows
      → truncate now (pos_part f.window) + pos_part f.window ≤ later
      → IsPast
          (pos_part f.limit)
          (pos_part f.window)
          (truncate later (pos_part f.window))
          key
          (fixed_allow f now key).1
  call-IsPast f now later key l w s h =
      let c = call f now key l w in
      let f' = (fixed_allow f now key).1 in
      let reply = (fixed_allow f now key).0 in
      record {
        same_limit = c.limit_kept;
        same_window = c.window_kept;
        sorted = sorted_after f f' now later key reply w s c;
        past =
            rw (kept f f' now later key reply c)
              (rw c.window_kept at (later_start f f' now later key reply w c h));
      }

  -- A call for `key` in that window starts to count.
  pub seen-IsPast :
      (limit window later : ℕ) (key : K) (f : FixedWindow K)
      → IsPast limit window (truncate later window) key f
      → (seen f later key).count ≡ 0
  seen-IsPast limit window later key f p =
      IsOld-count (truncate later (pos_part f.window)) (Assoc.get (behind f later) key)
        (rw p.same_window (behind-IsOld f later (truncate later window) key p.sorted p.past))

  -- Requests one after another: the time, the key and the headers of each.
  abbrev pub after_all : FixedWindow K → List (ℕ × K × Headers) → FixedWindow K
  after_all f [] = f
  after_all f ((now, k, h) ∷ requests) = after_all (middleware fixed_allow f now k h).1 requests

  -- None of the requests is for `key`.
  abbrev pub AllOthers : K → List (ℕ × K × Headers) → Type ℓ
  AllOthers key [] = Unit
  AllOthers key ((now, k, h) ∷ requests) = (k ≢ key) × AllOthers key requests

  pub after_all-IsPast :
      (limit window : ℕ) (start : ℕ) (key : K) (f : FixedWindow K)
      (requests : List (ℕ × K × Headers))
      → 0 < limit
      → 0 < window
      → AllOthers key requests
      → IsPast limit window start key f
      → IsPast limit window start key (after_all f requests)
  unfolding middleware
  after_all-IsPast limit window start key f [] l w others p = p
  after_all-IsPast limit window start key f ((now, k, h) ∷ requests) l w others p =
      after_all-IsPast limit window start key (fixed_allow f now k).1 requests l w others.1
        (request-IsPast limit window start now key k f l w others.0 p)
