-- ===== src/Shortener/Canonical.antt =====
-- Encode after Decode (capstones/url-shortener/internal/shortener/shortener.go): the canonical slugs.
use native.Mathlib.Nat.{pow-suc, one-le-pow, pow-le-pow_right}
use learn_go.Prelude.{
  ℕ, zero, suc, ◌+◌, ◌*◌, ◌/◌, ◌%◌, ◌^◌, ◌≤◌, ◌<◌, ◌≡◌, ◌≢◌, refl, ap, ◌∙◌, sym, true, false, List,
  [], ◌∷◌, if◌then◌else◌, get_or, arith, length, Bool-cases, Option-cases, inl, inr, ◌⊎◌, lt→ltb,
}
use learn_go.Shortener.{
  Rune, ascii, ok, err, ShortenerError, alphabet, base, int64_mod, is_positive, index_rune,
  encode_loop, encode, decode_loop, decode,
}
use learn_go.Shortener.Base62.{index_rune_sound}

-- More fuel than the number needs changes nothing.
encode_loop_fuel :
    (f g n : ℕ) (b : List Rune) → n ≤ f → n ≤ g → encode_loop f n b ≡ encode_loop g n b
unfolding encode_loop
encode_loop_fuel zero zero n b p q = refl
encode_loop_fuel zero (suc g) n b p q = ground arith
encode_loop_fuel (suc f) zero n b p q = ground arith
encode_loop_fuel (suc f) (suc g) n b p q =
    ground (arith, encode_loop_fuel f g (n / base) (ascii (get_or alphabet (n % base) 0) ∷ b))

encode_loop_step :
    (m : ℕ) (b : List Rune)
    → 0 < m
    → encode_loop m m b
      ≡ encode_loop (m / base) (m / base) (ascii (get_or alphabet (m % base) 0) ∷ b)
unfolding encode_loop
encode_loop_step zero b h = absurd (omega arith)
encode_loop_step (suc m) b h =
    let digit = ascii (get_or alphabet (suc m % base) 0) in
    rw (lt→ltb 0 (suc m) h)
      (encode_loop_fuel m (suc m / base) (suc m / base) (digit ∷ b) (omega arith) (omega arith))

-- One more digit at the end of a number is one more character at the end of its slug.
encode_loop-digit :
    (n d : ℕ) (b : List Rune)
    → d < 62
    → 0 < n * base + d
    → encode_loop (n * base + d) (n * base + d) b
      ≡ encode_loop n n (ascii (get_or alphabet d 0) ∷ b)
encode_loop-digit n d b h p =
    let quotient : (n * base + d) / base ≡ n = omega arith in
    let remainder : (n * base + d) % base ≡ d = omega arith in
    encode_loop_step (n * base + d) b p ∙ rw (quotient, remainder)

-- A slug is canonical if its runes are ASCII bytes and it does not begin with the digit zero.
abbrev pub IsAscii : List Rune → Type 0
IsAscii [] = Unit
IsAscii (r ∷ rs) = (r.width ≡ 1) × IsAscii rs

abbrev pub IsCanonical : List Rune → Type 0
IsCanonical [] = ⊥
IsCanonical (r ∷ rs) = (r.point ≢ b'0') × IsAscii (r ∷ rs)

decode_loop-cons_ok :
    (r : Rune) (rs : List Rune) (acc id : ℕ)
    → decode_loop (r ∷ rs) acc ≡ ok id
    → (d : ℕ) × (d < 62)
      × (r.point ≡ get_or alphabet d 0)
      × (decode_loop rs ((acc * base + d) % int64_mod) ≡ ok id)
unfolding decode_loop
decode_loop-cons_ok r rs acc id e = elim (Option-cases (index_rune alphabet r.point)) [
  | inl absent ↦ cc (rw (absent, decode_loop) at e)
  | inr (d, found) ↦
      (let (below, there) = index_rune_sound alphabet r.point d found in
        (d, below, sym there, rw (found, decode_loop) at e))
]

rune_path : (r : Rune) (c : ℕ) → r.width ≡ 1 → r.point ≡ c → ascii c ≡ r
rune_path r c w e = ground arith

room_for_digit :
    (acc d n : ℕ)
    → d < 62
    → (acc + 1) * base ^ suc n ≤ 2 ^ 63
    → (acc * base + d + 1) * base ^ n ≤ 2 ^ 63
room_for_digit acc d n h k =
    let scaled : (acc * base + d + 1) * base ^ n ≤ (acc * base + 62) * base ^ n = grind arith in
    let unit : (acc + 1) * base ^ suc n ≡ (acc * base + 62) * base ^ n =
      ap (λ x. (acc + 1) * x) (pow-suc base n) ∙ omega arith in
    omega (arith, scaled, unit)

accumulator_bound : (a n : ℕ) → (a + 1) * base ^ n ≤ 2 ^ 63 → a < 2 ^ 63
accumulator_bound a n h = grind (arith, one-le-pow n base)

-- While the accumulator stays below 2^63, encoding the result writes the digits that were read.
encode_loop-decode_loop :
    (rs : List Rune) (acc id : ℕ)
    → IsAscii rs
    → (acc + 1) * base ^ length rs ≤ 2 ^ 63
    → 0 < acc
    → decode_loop rs acc ≡ ok id
    → encode_loop id id [] ≡ encode_loop acc acc rs
unfolding decode_loop
encode_loop-decode_loop [] acc id a h p e =
    let fits : is_positive acc ≡ true = ground (arith, accumulator_bound acc 0 h) in
    let same : acc ≡ id = cc (rw (fits, decode_loop) at e) in rw same
encode_loop-decode_loop (r ∷ rs) acc id a h p e =
    let (d, below, there, rest) = decode_loop-cons_ok r rs acc id e in
    let room = room_for_digit acc d (length rs) below h in
    let small : (acc * base + d) % int64_mod ≡ acc * base + d =
      omega (arith, accumulator_bound (acc * base + d) (length rs) room) in
    encode_loop-decode_loop rs (acc * base + d) id a.1 room (omega arith) (rw small at rest)
    ∙ encode_loop-digit acc d rs below (omega arith)
    ∙ ap (λ x. encode_loop acc acc (x ∷ rs)) (rune_path r _ a.0 there)

decode_loop_bounds :
    (rs : List Rune) (acc id : ℕ) → decode_loop rs acc ≡ ok id → is_positive id ≡ true
decode_loop_bounds [] acc id e = unfold decode_loop in last (Bool-cases (is_positive acc)) e
  where
    last :
        (is_positive acc ≡ true) ⊎ (is_positive acc ≡ false)
        → (if is_positive acc then ok acc else err ShortenerError.invalid_slug) ≡ ok id
        → is_positive id ≡ true
    last (inl f) h = let same : acc ≡ id = cc (rw f at h) in rw (← same) f
    last (inr f) h = cc (rw f at h)
decode_loop_bounds (r ∷ rs) acc id e =
    decode_loop_bounds rs _ id (decode_loop-cons_ok r rs acc id e).3

-- Whatever the slug, a number that Decode returns is a positive int64, even where the
-- accumulator wrapped around.
pub decode_bounds : (slug : List Rune) (id : ℕ) → decode slug ≡ ok id → (0 < id) × (id < 2 ^ 63)
unfolding decode
decode_bounds [] id e = cc
decode_bounds (r ∷ rs) id e = ground (arith, decode_loop_bounds (r ∷ rs) 0 id e)

ten_digits : (d n : ℕ) → d < 62 → n ≤ 9 → (d + 1) * base ^ n ≤ 2 ^ 63
ten_digits d n h k =
    let power : base ^ n ≤ base ^ 9 = pow-le-pow_right (omega arith) k in
    let scaled : (d + 1) * base ^ n ≤ 62 * base ^ n = grind arith in omega (arith, scaled, power)

-- Encode gives back every canonical slug of at most ten characters that Decode accepts.
pub encode-decode :
    (slug : List Rune) (id : ℕ)
    → IsCanonical slug
    → length slug ≤ 10
    → decode slug ≡ ok id
    → encode id ≡ ok slug
unfolding decode encode
encode-decode [] id c l e = absurd c
encode-decode (r ∷ rs) id c l e =
    let (d, below, there, rest) = decode_loop-cons_ok r rs 0 id e in
    let nonzero : d ≢ 0 = λ z. c.0 (there ∙ ap (λ x. get_or alphabet x 0) z) in
    let small : (0 * base + d) % int64_mod ≡ d = omega arith in
    let read =
      encode_loop-decode_loop rs d id c.1.1 (ten_digits d (length rs) below (omega arith))
        (omega arith) (rw small at rest) in
    let same : 0 * base + d ≡ d = omega arith in
    let first = rw same at (encode_loop-digit 0 d rs below (omega arith)) in
    rw (decode_loop_bounds (r ∷ rs) 0 id e)
      (ap ok (read ∙ first ∙ ap (λ x. x ∷ rs) (rune_path r _ c.1.0 there)))
