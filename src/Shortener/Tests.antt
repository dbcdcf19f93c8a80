-- ===== src/Shortener/Tests.antt =====
-- Runs of the code of shortener.go, and its theorems at concrete inputs.
use learn_go.Prelude.{◌+◌, ◌-◌, ◌*◌, ◌<◌, ◌%◌, ◌^◌, ◌≤◌, ◌≡◌, refl, List, map, arith, length}
use learn_go.Shortener.{Rune, ascii, ok, err, ShortenerError, codes, index_rune, encode, decode}
use learn_go.Shortener.Base62.{decode-encode}
use learn_go.Shortener.Canonical.{encode-decode}
use learn_go.Shortener.Obfuscate.{
  modulus, mul_mod, mul_mod_lem, obfuscate, deobfuscate, deobfuscate-obfuscate,
}
use learn_go.Shortener.Custom.{validate_custom}

abbrev million : List Rune
million = map ascii (codes "4c92")

abbrev mixed : List Rune
mixed = map ascii (codes "My-Link_7")

encode-million : encode 1_000_000 ≡ ok million
unfolding encode
encode-million = refl

decode-million : decode million ≡ ok 1_000_000
unfolding decode index_rune
decode-million = refl

-- Eleven characters can wrap around, to the number of a shorter slug.
decode_wraps : decode (map ascii (codes "lYGhA16etHi")) ≡ ok 1_000_000
unfolding decode index_rune
decode_wraps = refl

obfuscate_one : obfuscate 1 ≡ ok (map ascii (codes "1IVE1D"))
unfolding obfuscate mul_mod encode
obfuscate_one = refl

custom_runs :
    (validate_custom (map ascii (codes "aPi")) ≡ err ShortenerError.reserved_slug)
    × (validate_custom (map ascii (codes "a b")) ≡ err ShortenerError.invalid_slug)
    × (validate_custom (map ascii (codes "ab")) ≡ err ShortenerError.bad_length)
unfolding validate_custom
custom_runs = (refl, refl, refl)

decode-encode_example :
    (slug : List Rune) × (encode 1_000_000 ≡ ok slug) × (decode slug ≡ ok 1_000_000)
decode-encode_example = decode-encode 1_000_000 (omega arith) (omega arith)

encode-decode_example : encode 1_000_000 ≡ ok million
encode-decode_example =
    encode-decode million 1_000_000 (omega arith, (refl, (refl, (refl, (refl, tt))))) (omega arith)
      decode-million

mul_mod_lem_example :
    (mul_mod (2 ^ 63 - 1) (2 ^ 62 + 1) modulus ≡ ok ((2 ^ 63 - 1) * (2 ^ 62 + 1) % modulus))
    × ((2 ^ 63 - 1) * (2 ^ 62 + 1) % modulus < 2 ^ 63)
mul_mod_lem_example =
    mul_mod_lem (2 ^ 63 - 1) (2 ^ 62 + 1) modulus (omega arith) (omega arith) (omega arith)
      (omega arith)

-- A negative factor is read as its bit pattern: mulMod(-1, 1, 10) is 5.
mul_mod_negative : mul_mod (2 ^ 64 - 1) 1 10 ≡ ok 5
unfolding mul_mod
mul_mod_negative = refl

deobfuscate-obfuscate_example :
    (slug : List Rune) × (obfuscate 12_345 ≡ ok slug)
    × (length slug ≤ 6)
    × (deobfuscate slug ≡ ok 12_345)
deobfuscate-obfuscate_example = deobfuscate-obfuscate 12_345 (omega arith) (omega arith)
