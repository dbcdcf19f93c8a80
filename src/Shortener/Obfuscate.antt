-- ===== src/Shortener/Obfuscate.antt =====
-- mulMod, modularInverse, Obfuscate and Deobfuscate
-- (capstones/url-shortener/internal/shortener/shortener.go).
use native.Mathlib.Nat.{mod-lt, div-add-mod, add-mul-mod_self_left}
use learn_go.Prelude.{
  ℕ, zero, suc, ◌+◌, ◌-◌, ◌*◌, ◌/◌, ◌%◌, ◌^◌, ◌≤◌, ◌<◌, ◌≡◌, refl, ap, ◌∙◌, sym, false, List,
  if◌then◌else◌, leb, ◌==◌, arith, length,
}
use learn_go.Prelude.Int.{ℤ, pos, negsuc, pos_part, ◌+ℤ◌, ◌-ℤ◌, ◌*ℤ◌}
use learn_go.Shortener.{
  Rune, Result, ok, err, panic, ◌>>=◌, ShortenerError, is_positive, encode, decode,
}
use learn_go.Shortener.Base62.{decode-encode, length-encode}

abbrev pub multiplier : ℕ
multiplier = 1_580_030_173

abbrev pub modulus : ℕ
modulus = 56_800_235_584

-- bits.Mul64: the 128-bit product as a high and a low word.
abbrev pub mul64 : ℕ → ℕ → ℕ × ℕ
mul64 a b = (a * b / 2 ^ 64, a * b % 2 ^ 64)

-- bits.Div64: quotient and remainder of a 128-bit number. It panics where the quotient would not
-- fit, and on a zero divisor.
abbrev pub div64 : ℕ → ℕ → ℕ → Result (ℕ × ℕ)
div64 hi lo y = if leb y hi then panic else ok ((hi * 2 ^ 64 + lo) / y, (hi * 2 ^ 64 + lo) % y)

unfoldable pub mul_mod : ℕ → ℕ → ℕ → Result ℕ
mul_mod a b m = do
  let product = mul64 a b
  division ← div64 (product.0 % m) product.1 m
  ok (division.1)

-- Go's `%` on signed numbers takes the sign of the left side.
abbrev pub rem : ℤ → ℕ → ℤ
rem (pos n) m = pos (n % m)
rem (negsuc n) m = pos 0 -ℤ pos (suc n % m)

-- The loop of modularInverse. The remainders are not negative; the second one falls in every
-- round, so that it bounds the rounds. The result is oldR with oldS.
unfoldable pub inverse_loop : ℕ → ℕ → ℕ → ℤ → ℤ → ℕ × ℤ
inverse_loop zero old_r r old_s s = (old_r, old_s)
inverse_loop (suc fuel) old_r r old_s s =
    let q = old_r / r in
    let rest = inverse_loop fuel r (old_r - q * r) s (old_s -ℤ pos q *ℤ s) in
    if r == 0 then (old_r, old_s) else rest

unfoldable pub modular_inverse : ℕ → ℕ → Result ℕ
unfolding inverse_loop ◌+ℤ◌ ◌-ℤ◌ ◌*ℤ◌
modular_inverse a m =
    let (r, s) = inverse_loop (suc m) (a % m) m (pos 1) (pos 0) in
    if r == 1 then ok (pos_part (rem s m +ℤ pos m) % m) else panic

-- A package variable: its computation runs, or panics, before any call.
unfoldable pub inverse_multiplier : Result ℕ
unfolding modular_inverse
inverse_multiplier = modular_inverse multiplier modulus

unfoldable pub obfuscate : ℕ → Result (List Rune)
obfuscate id =
    if is_positive id
    then (if leb modulus id
        then err ShortenerError.beyond_capacity
        else mul_mod id multiplier modulus >>= encode)
    else err ShortenerError.not_positive

unfoldable pub deobfuscate : List Rune → Result ℕ
deobfuscate slug = do
  scrambled ← decode slug
  inverse ← inverse_multiplier
  mul_mod scrambled inverse modulus

inverse_value : inverse_multiplier ≡ ok 48_436_179_125
unfolding inverse_multiplier
inverse_value = refl

-- The factors are read as words: uint64 of a negative int64 is its bit pattern, 2^64 more.
mul_mod-words : (a b m : ℕ) → 0 < m → mul_mod a b m ≡ ok (a * b % m)
unfolding mul_mod
mul_mod-words a b m h =
    let high = a * b / 2 ^ 64 in
    let low = a * b % 2 ^ 64 in
    let fits : leb m (high % m) ≡ false = ground (arith, mod-lt high h) in
    let split : high % m * 2 ^ 64 + low + m * (high / m * 2 ^ 64) ≡ a * b =
      omega (arith, ap (λ x. x * 2 ^ 64) (div-add-mod high m), div-add-mod (a * b) (2 ^ 64)) in
    rw fits (
      ap ok (
        sym (add-mul-mod_self_left (high % m * 2 ^ 64 + low) m (high / m * 2 ^ 64))
        ∙ ap (λ x. x % m) split))

-- For int64 factors that are not negative and a positive m, mulMod does not panic and returns the
-- product modulo m, also where the factors are m or more: Div64 never panics, since the high word
-- is reduced first. The result is again an int64 that is not negative.
pub mul_mod_lem :
    (a b m : ℕ)
    → a < 2 ^ 63
    → b < 2 ^ 63
    → 0 < m
    → m < 2 ^ 63
    → (mul_mod a b m ≡ ok (a * b % m)) × (a * b % m < 2 ^ 63)
mul_mod_lem a b m ha hb h hm = (mul_mod-words a b m h, omega (arith, mod-lt (a * b) h))

unscramble : (id : ℕ) → id < modulus → id * multiplier % modulus * 48_436_179_125 % modulus ≡ id
unscramble id h = omega arith

scramble_positive : (id : ℕ) → 0 < id → id < modulus → 0 < id * multiplier % modulus
scramble_positive id p h = omega (arith, unscramble id h)

-- Every id in the obfuscated space gets a slug of at most six characters, and Deobfuscate gives
-- the id back from it.
pub deobfuscate-obfuscate :
    (id : ℕ)
    → 0 < id
    → id < modulus
    → (slug : List Rune) × (obfuscate id ≡ ok slug) × (length slug ≤ 6) × (deobfuscate slug ≡ ok id)
unfolding obfuscate deobfuscate
deobfuscate-obfuscate id p h =
    let scrambled = id * multiplier % modulus in
    let room : id * multiplier % modulus < modulus = omega arith in
    let (slug, written, read) = decode-encode scrambled (scramble_positive id p h) (omega arith) in
    (
      slug,
      rw (mul_mod-words id multiplier modulus (omega arith)) (ground (arith, written)),
      length-encode scrambled 6 slug room written,
      rw (read, inverse_value, mul_mod-words scrambled 48_436_179_125 modulus (omega arith))
          (ap ok (unscramble id h)),
    )
