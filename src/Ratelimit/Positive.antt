-- ===== src/Ratelimit/Positive.antt =====
-- The guard on a positive limit and window (ratelimit/ratelimit.go).
use learn_go.Prelude.{◌<◌, ◌≡◌, refl, false, ◌||◌, arith}
use learn_go.Prelude.Int.{ℤ, pos, negsuc, pos_part, leb_ℤ}

leb_ℤ-positive : (z : ℤ) → 0 < pos_part z → leb_ℤ z (pos 0) ≡ false
leb_ℤ-positive (pos n) h = ground arith
leb_ℤ-positive (negsuc n) h = absurd (omega arith)

pub is_configured :
    (limit window : ℤ)
    → 0 < pos_part limit
    → 0 < pos_part window
    → (leb_ℤ limit (pos 0) || leb_ℤ window (pos 0)) ≡ false
is_configured limit window h k = rw (leb_ℤ-positive limit h, leb_ℤ-positive window k) refl
