-- ===== src/Shortener/Base62.antt =====
-- Encode and Decode (capstones/url-shortener/internal/shortener/shortener.go).
use native.Mathlib.Nat.{pow-suc}
use learn_go.Prelude.{
  ℕ, zero, suc, ◌+◌, ◌*◌, ◌/◌, ◌%◌, ◌^◌, ◌≤◌, ◌<◌, ◌≡◌, refl, ap, ◌∙◌, Bool, true, false, List, [],
  ◌∷◌, Option, none, some, ltb, ◌==◌, get_or, arith, length, ==_iff, passes, passes_each,
  Bool-cases, inl, inr, lt→ltb,
}
use learn_go.Shortener.{
  Rune, ascii, ok, alphabet, base, int64_mod, is_positive, index_rune, encode_loop, encode,
  decode_loop, decode,
}

is_at : Option ℕ → ℕ → Bool
is_at none d = false
is_at (some e) d = e == d

is_at_sound : (o : Option ℕ) (d : ℕ) → is_at o d ≡ true → o ≡ some d
unfolding is_at
is_at_sound none d h = cc
is_at_sound (some e) d h = ap some ((==_iff e d).0 h)

digits_table : passes (λ d. is_at (index_rune alphabet (get_or alphabet d 0)) d) 62 ≡ true
unfolding passes is_at index_rune
digits_table = refl

-- Every digit is found where it stands.
pub index_rune-digit : (d : ℕ) → d < 62 → index_rune alphabet (get_or alphabet d 0) ≡ some d
index_rune-digit d h =
    is_at_sound (index_rune alphabet (get_or alphabet d 0)) d (passes_each _ 62 d h digits_table)

pub index_rune_sound :
    (l : List ℕ) (c d : ℕ) → index_rune l c ≡ some d → (d < length l) × (get_or l d 0 ≡ c)
unfolding index_rune
index_rune_sound [] c d h = cc
index_rune_sound (a ∷ l) c zero h = ground (arith)
index_rune_sound (a ∷ l) c (suc d) h = ground (arith, index_rune_sound l c d)

decode_loop-digit :
    (r : Rune) (rs : List Rune) (id d : ℕ)
    → index_rune alphabet r.point ≡ some d
    → decode_loop (r ∷ rs) id ≡ decode_loop rs ((id * base + d) % int64_mod)
unfolding decode_loop
decode_loop-digit r rs id d e = rw (e, decode_loop)

-- Reading what the loop wrote is reading on from the number.
decode_loop-encode_loop :
    (fuel n : ℕ) (b : List Rune)
    → n ≤ fuel
    → n < int64_mod
    → decode_loop (encode_loop fuel n b) 0 ≡ decode_loop b n
unfolding encode_loop
decode_loop-encode_loop zero n b h w = ap (decode_loop b) (omega arith)
decode_loop-encode_loop (suc fuel) n b h w = elim (Bool-cases (ltb 0 n)) [
  | inl more ↦ rw more (
      decode_loop-encode_loop fuel (n / base) _ (ground arith) (omega arith)
      ∙ decode_loop-digit _ b (n / base) (n % base) (index_rune-digit (n % base) (omega arith))
      ∙ ap (decode_loop b) (omega arith))
  | inr done ↦ rw done (ap (decode_loop b) (ground arith))
]

encode_loop-IsCons :
    (fuel n : ℕ) (b : List Rune)
    → n ≤ fuel
    → 0 < n
    → (r : Rune) × (rs : List Rune) × (encode_loop fuel n b ≡ r ∷ rs)
unfolding encode_loop
encode_loop-IsCons zero n b h p = absurd (omega arith)
encode_loop-IsCons (suc fuel) n b h p = rw (lt→ltb 0 n p) (more fuel (n / base) _ b (omega arith))
  where
    more :
        (f m : ℕ) (r : Rune) (rs : List Rune)
        → m ≤ f
        → (s : Rune) × (ss : List Rune) × (encode_loop f m (r ∷ rs) ≡ s ∷ ss)
    more zero m r rs q = (r, rs, refl)
    more (suc f) m r rs q = elim (Bool-cases (ltb 0 m)) [
      | inl e ↦ rw e (more f (m / base) _ (r ∷ rs) (ground arith))
      | inr e ↦ rw e (r, rs, refl)
    ]

decode_of_cons :
    (l : List Rune) (r : Rune) (rs : List Rune) → l ≡ r ∷ rs → decode l ≡ decode_loop l 0
unfolding decode
decode_of_cons l r rs e = rw e

-- Decode gives back every positive int64 that Encode wrote as a slug.
pub decode-encode :
    (id : ℕ)
    → 0 < id
    → id < 2 ^ 63
    → (slug : List Rune) × (encode id ≡ ok slug) × (decode slug ≡ ok id)
unfolding encode
decode-encode id p q =
    let fits : is_positive id ≡ true = ground arith in
    let (r, rs, e) = encode_loop-IsCons id id [] (omega arith) p in
    (
      encode_loop id id [],
      rw fits,
      decode_of_cons _ r rs e
          ∙ decode_loop-encode_loop id id [] (omega arith) (omega arith)
          ∙ last id fits,
    )
  where
    last : (n : ℕ) → is_positive n ≡ true → decode_loop [] n ≡ ok n
    last n f = unfold decode_loop in rw f

-- Below 62^k the slug has at most k digits.
length-encode_loop :
    (fuel k n : ℕ) (b : List Rune) → n < base ^ k → length (encode_loop fuel n b) ≤ k + length b
unfolding encode_loop
length-encode_loop zero k n b h = omega arith
length-encode_loop (suc fuel) zero n b h = ground (arith, lt→ltb 0 n)
length-encode_loop (suc fuel) (suc k) n b h = ground (
  arith,
  pow-suc base k,
  length-encode_loop fuel k (n / base) (ascii (get_or alphabet (n % base) 0) ∷ b),
)

-- A slug that Encode returns for a number below 62^k has at most k characters.
pub length-encode :
    (id k : ℕ) (slug : List Rune) → id < base ^ k → encode id ≡ ok slug → length slug ≤ k
unfolding encode
length-encode id k slug h e = ground (arith, length-encode_loop id k id [])
