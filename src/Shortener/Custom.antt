-- ===== src/Shortener/Custom.antt =====
-- ValidateCustom (capstones/url-shortener/internal/shortener/shortener.go).
use learn_go.Prelude.{
  ℕ, ◌+◌, ◌≡◌, ◌⊎◌, inl, inr, refl, ap, Bool, true, false, ◌&&◌, ◌||◌, not, List, [], ◌∷◌, Option,
  none, some, map, if◌then◌else◌, ltb, leb, ◌==◌, arith, Option-cases, get_or, passes, passes_each,
}
use learn_go.Shortener.{Rune, Result, ok, err, ShortenerError, codes, alphabet, index_rune, Result}
use learn_go.Shortener.Base62.{index_rune_sound}

-- len(slug), the bytes of its runes.
unfoldable pub byte_length : List Rune → ℕ
byte_length [] = 0
byte_length (r ∷ rs) = r.width + byte_length rs

unfoldable pub is_found : Option ℕ → Bool
is_found none = false
is_found (some i) = true

abbrev pub is_slug_rune : ℕ → Bool
is_slug_rune c = is_found (index_rune alphabet c) || (c == b'-' || c == b'_')

-- strings.ToLower where it is called: on a slug that passed the test of its runes, all ASCII.
abbrev pub lower : ℕ → ℕ
lower c = if leb b'A' c && leb c b'Z' then c + 32 else c

abbrev pub lower_rune : Rune → Rune
lower_rune r = record { point = lower r.point; width = r.width }

abbrev pub to_lower : List Rune → List Rune
to_lower = map lower_rune

-- The keys of the map Reserved.
abbrev pub reserved : List (List ℕ)
reserved =
    codes "api"
    ∷ codes "health"
    ∷ codes "healthz"
    ∷ codes "metrics"
    ∷ codes "admin"
    ∷ codes "login"
    ∷ codes "static"
    ∷ codes "favicon"
    ∷ codes "robots"
    ∷ []

abbrev pub same_codes : List ℕ → List ℕ → Bool
same_codes [] [] = true
same_codes (x ∷ xs) (y ∷ ys) = x == y && same_codes xs ys
same_codes _ _ = false

abbrev pub contains : List (List ℕ) → List ℕ → Bool
contains [] key = false
contains (w ∷ ws) key = same_codes w key || contains ws key

unfoldable pub is_reserved : List Rune → Bool
is_reserved slug = contains reserved (map (λ r. r.point) slug)

unfoldable pub all_slug_runes : List Rune → Bool
unfolding index_rune is_found
all_slug_runes [] = true
all_slug_runes (r ∷ rs) = is_slug_rune r.point && all_slug_runes rs

abbrev pub min_len : ℕ
min_len = 3

abbrev pub max_len : ℕ
max_len = 32

unfoldable pub validate_custom : List Rune → Result (Unit {0})
unfolding byte_length is_reserved all_slug_runes
validate_custom slug =
    if ltb (byte_length slug) min_len || ltb max_len (byte_length slug)
    then err ShortenerError.bad_length
    else if not (all_slug_runes slug)
    then err ShortenerError.invalid_slug
    else if is_reserved (to_lower slug)
    then err ShortenerError.reserved_slug
    else ok tt

to_lower_idem : (s : List Rune) → to_lower (to_lower s) ≡ to_lower s
to_lower_idem [] = refl
to_lower_idem (r ∷ rs) =
    let once : lower (lower r.point) ≡ lower r.point = ground arith in rw (once, to_lower_idem rs)

byte_length-to_lower : (s : List Rune) → byte_length (to_lower s) ≡ byte_length s
unfolding byte_length
byte_length-to_lower [] = refl
byte_length-to_lower (r ∷ rs) = omega (arith, byte_length-to_lower rs)

lower_table : passes (λ d. is_slug_rune (lower (get_or alphabet d 0))) 62 ≡ true
unfolding passes is_found index_rune
lower_table = refl

mark-lower : (c : ℕ) → (c ≡ b'-') ⊎ (c ≡ b'_') → is_slug_rune (lower c) ≡ true
unfolding is_found index_rune
mark-lower c (inl e) = rw e
mark-lower c (inr e) = rw e

-- The lower case of a slug rune is a slug rune.
is_slug_rune-lower : (c : ℕ) → is_slug_rune c ≡ true → is_slug_rune (lower c) ≡ true
unfolding is_found
is_slug_rune-lower c h = elim (Option-cases (index_rune alphabet c)) [
  | inl absent ↦ mark-lower c (marks (rw (absent, is_found) at h))
  | inr (d, found) ↦
      (let (below, there) = index_rune_sound alphabet c d found in
        rw there at (passes_each _ 62 d below lower_table))
]
  where
    marks : (c == b'-' || c == b'_') ≡ true → (c ≡ b'-') ⊎ (c ≡ b'_')
    marks e = ground arith

all_slug_runes-to_lower :
    (s : List Rune) → all_slug_runes s ≡ true → all_slug_runes (to_lower s) ≡ true
unfolding all_slug_runes
all_slug_runes-to_lower [] h = refl
all_slug_runes-to_lower (r ∷ rs) h =
    let (head, tail) = both (is_slug_rune r.point) (all_slug_runes rs) h in
    rw (is_slug_rune-lower r.point head) (all_slug_runes-to_lower rs tail)
  where
    both : (a b : Bool) → (a && b) ≡ true → (a ≡ true) × (b ≡ true)
    both true b e = (refl, e)
    both false b e = cc

-- The lower case of a custom slug that ValidateCustom accepts is accepted too: the tests of
-- length, runes and reserved names do not tell the two apart.
pub validate_custom-to_lower :
    (s : List Rune) → validate_custom s ≡ ok tt → validate_custom (to_lower s) ≡ ok tt
unfolding validate_custom
validate_custom-to_lower s h =
    ground
      (arith, byte_length-to_lower s, ap is_reserved (to_lower_idem s), all_slug_runes-to_lower s)
