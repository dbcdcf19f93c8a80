-- ===== src/Shortener.antt =====
-- capstones/url-shortener/internal/shortener/shortener.go: numbers to base-62 slugs and back.
-- An int64 is its bit pattern, a number below 2^64, positive if it lies in (0, 2^63). A string is
-- the sequence of runes that `range` yields, each with the number of bytes that it took.
pub mod Base62
mod Canonical
pub mod Obfuscate
pub mod Custom
mod Tests
use learn_go.Prelude.{
  ℕ, zero, suc, ◌+◌, ◌*◌, ◌/◌, ◌%◌, ◌^◌, Bool, List, [], ◌∷◌, Option, none, some, map, ltb, ◌&&◌,
  ◌==◌, if◌then◌else◌, get_or,
}
use Prim.Native.Char.{Char, code}
use Prim.Native.String.{String}

abbrev pub codes : String → List ℕ
codes String.[] = []
codes (String.◌∷◌ c s) = code c ∷ codes s

pub record Rune : Type 0 where
  pub point : ℕ
  pub width : ℕ

-- An ASCII byte, as the rune that it is.
abbrev pub ascii : ℕ → Rune
ascii c = record { point = c; width = 1 }

pub data ShortenerError : Type 0 where
  not_positive invalid_slug beyond_capacity bad_length reserved_slug : ShortenerError

pub data Result {ℓ} (A : Type ℓ) : Type ℓ where
  ok : A → Result A
  err : ShortenerError → Result A
  -- The Go runtime stops the call.
  panic : Result A

infixl 5 ◌>>=◌
abbrev pub ◌>>=◌ {ℓ κ} : {A : Type ℓ} {B : Type κ} → Result A → (A → Result B) → Result B
ok a >>= f = f a
err e >>= f = err e
panic >>= f = panic

abbrev pub alphabet : List ℕ
alphabet = codes "0123456789abcdefghijklmnopqrstuvwxyzABCDEFGHIJKLMNOPQRSTUVWXYZ"

abbrev pub base : ℕ
base = 62

abbrev pub int64_mod : ℕ
int64_mod = 2 ^ 64

-- `id > 0`, read off the bit pattern.
abbrev pub is_positive : ℕ → Bool
is_positive id = ltb 0 id && ltb id (2 ^ 63)

-- strings.IndexRune, with `none` for -1; in an ASCII string the byte index is the position.
pub index_rune : List ℕ → ℕ → Option ℕ
index_rune [] c = none
index_rune (a ∷ as') c =
    if a == c then some 0 else elim (index_rune as' c) [ none ↦ none | some i ↦ some (suc i) ]

-- The loop of Encode: take the remainder, prepend its digit, divide. The fuel is the number
-- itself, which division by 62 brings to zero in fewer rounds.
pub encode_loop : ℕ → ℕ → List Rune → List Rune
encode_loop zero id b = b
encode_loop (suc fuel) id b =
    let rest = encode_loop fuel (id / base) (ascii (get_or alphabet (id % base) 0) ∷ b) in
    if ltb 0 id then rest else b

pub encode : ℕ → Result (List Rune)
unfolding encode_loop
encode id = if is_positive id then ok (encode_loop id id []) else err ShortenerError.not_positive

-- The loop of Decode with its final test. The accumulator wraps around, as an int64 does.
pub decode_loop : List Rune → ℕ → Result ℕ
decode_loop [] id = if is_positive id then ok id else err ShortenerError.invalid_slug
decode_loop (r ∷ rs) id = elim (index_rune alphabet r.point) [
  | none ↦ err ShortenerError.invalid_slug
  | some digit ↦ decode_loop rs ((id * base + digit) % int64_mod)
]

pub decode : List Rune → Result ℕ
unfolding decode_loop
decode [] = err ShortenerError.invalid_slug
decode (r ∷ rs) = decode_loop (r ∷ rs) 0
