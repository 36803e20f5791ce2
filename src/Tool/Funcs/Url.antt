-- ===== src/Tool/Funcs/Url.antt =====
-- `UrlDecode` (src/tool/src/Funcs.cc).
use trantor_net.Base.{
  ℕ, ◌+◌, ◌-◌, ◌*◌, ◌/◌, ◌%◌, ◌<◌, ◌≡◌, ◌≢◌, refl, Bool, true, false, not, ◌&&◌, ◌||◌, List, [],
  ◌∷◌, arith, leb, ◌==◌, if◌then◌else◌, All, Bool-cases, inl, inr, table, table_entry, same,
  same_sound, contains, codes, ◌∙◌,
}
use trantor_net.Tool.Funcs.Hex.{hex_digit}

abbrev between : ℕ → ℕ → ℕ → Bool
between lo hi c = leb lo c && leb c hi

-- `isxdigit` in the C locale.
unfoldable pub is_xdigit : ℕ → Bool
is_xdigit c = between b'0' b'9' c || between b'A' b'F' c || between b'a' b'f' c

-- The value of one hexadecimal digit, as `strtol` reads it.
unfoldable pub xdigit_value : ℕ → ℕ
xdigit_value c = if leb c b'9' then c - 48 else if leb c b'F' then c - 55 else c - 87

-- The characters that the source lets stand undecoded: letters, digits, and the listed marks.
unfoldable pub is_plain : ℕ → Bool
is_plain hex =
    between 48 57 hex
    || between 97 122 hex
    || between 65 90 hex
    || (hex == 0x21)
    || (hex == 0x24)
    || between 0x26 0x2f hex
    || (hex == 0x3A)
    || (hex == 0x3B)
    || (hex == 0x3D)
    || (hex == 0x3f)
    || (hex == 0x40)
    || (hex == 0x5f)

abbrev pub hex_of : ℕ → ℕ → ℕ
hex_of a b = xdigit_value a * 16 + xdigit_value b

-- Does `%` followed by `a` and `b` stand for one character here?
unfoldable pub decodes : ℕ → ℕ → Bool
decodes a b = (is_xdigit a && is_xdigit b) && not (is_plain (hex_of a b))

abbrev plus_to_space : ℕ → ℕ
plus_to_space c = if c == b'+' then b' ' else c

unfoldable pub url_decode : List ℕ → List ℕ
url_decode [] = []
url_decode (c ∷ []) = plus_to_space c ∷ []
url_decode (c ∷ a ∷ []) = plus_to_space c ∷ url_decode (a ∷ [])
url_decode (c ∷ a ∷ b ∷ rest) =
    let skipping = url_decode rest in
    let plain = url_decode (a ∷ b ∷ rest) in
    if (c == b'%') && decodes a b then hex_of a b ∷ skipping else plus_to_space c ∷ plain

-- No text decodes to one with a plus sign: a plus sign becomes a blank, and `%2B` is left as it is.
pub url_decode_no_plus : (text : List ℕ) → All (λ c. c ≢ b'+') (url_decode text)
unfolding url_decode decodes is_plain
url_decode_no_plus [] = tt
url_decode_no_plus (c ∷ []) = (ground arith, tt)
url_decode_no_plus (c ∷ a ∷ []) = (ground arith, url_decode_no_plus (a ∷ []))
url_decode_no_plus (c ∷ a ∷ b ∷ rest) = elim (Bool-cases ((c == b'%') && decodes a b)) [
  | inl e ↦ rw e (ground arith, url_decode_no_plus rest)
  | inr e ↦ rw e (ground arith, url_decode_no_plus (a ∷ b ∷ rest))
]

-- Letters and digits, and the marks of the comment in the source that it also tests for.
unfoldable pub is_kept : ℕ → Bool
is_kept c =
    between b'0' b'9' c
    || between b'a' b'z' c
    || between b'A' b'Z' c
    || contains c (codes "!$&'()*+,-./:;=?@_")

kept_table : table (λ c. same (is_plain c) (is_kept c)) 256 ≡ true
unfolding table is_plain is_kept contains
kept_table = refl

is_plain-eq-is_kept : (c : ℕ) → c < 256 → is_plain c ≡ is_kept c
is_plain-eq-is_kept c h = same_sound _ _ (table_entry _ kept_table c h)

-- An encoder: letters, digits and these marks are written as they are, and all else as `%` and two
-- digits.
pub url_encode : List ℕ → List ℕ
url_encode [] = []
url_encode (c ∷ rest) =
    if is_kept c
    then c ∷ url_encode rest
    else b'%' ∷ hex_digit (c / 16) ∷ hex_digit (c % 16) ∷ url_encode rest

digit-is_xdigit : (n : ℕ) → n < 16 → is_xdigit (hex_digit n) ≡ true
unfolding is_xdigit hex_digit
digit-is_xdigit n h = ground arith

xdigit_value-hex_digit : (n : ℕ) → n < 16 → xdigit_value (hex_digit n) ≡ n
unfolding xdigit_value hex_digit
xdigit_value-hex_digit n h = ground arith

hex_of_digits : (c : ℕ) → c < 256 → hex_of (hex_digit (c / 16)) (hex_digit (c % 16)) ≡ c
hex_of_digits c h = omega (
  arith,
  xdigit_value-hex_digit (c / 16) (omega arith),
  xdigit_value-hex_digit (c % 16) (omega arith),
)

decode_plain :
    (c : ℕ) (xs : List ℕ)
    → (c == b'%') ≡ false
    → url_decode (c ∷ xs) ≡ plus_to_space c ∷ url_decode xs
unfolding url_decode
decode_plain c [] h = refl
decode_plain c (a ∷ []) h = refl
decode_plain c (a ∷ b ∷ xs) h = rw h

decode_escape :
    (c : ℕ) (xs : List ℕ)
    → c < 256
    → is_plain c ≡ false
    → url_decode (b'%' ∷ hex_digit (c / 16) ∷ hex_digit (c % 16) ∷ xs) ≡ c ∷ url_decode xs
unfolding url_decode decodes
decode_escape c xs h p = rw (
  digit-is_xdigit (c / 16) (omega arith),
  digit-is_xdigit (c % 16) (omega arith),
  hex_of_digits c h,
  p,
)

plain-ne-percent : (c : ℕ) → is_plain c ≡ true → (c == b'%') ≡ false
unfolding is_plain
plain-ne-percent c h = ground arith

-- Every text of bytes without a plus sign is the decoding of its encoding, in which letters, digits and
-- the marks ! $ & ' ( ) * + , - . / : ; = ? @ _ stand and all other bytes are escaped.
pub url_decode-url_encode :
    (text : List ℕ) → All (λ c. (c < 256) × (c ≢ b'+')) text → url_decode (url_encode text) ≡ text
unfolding url_encode
url_decode-url_encode [] h = unfold url_decode in refl
url_decode-url_encode (c ∷ rest) h =
    let ih = url_decode-url_encode rest h.1 in
    let agree = is_plain-eq-is_kept c h.0.0 in
    elim (Bool-cases (is_kept c)) [
      | inl e ↦
          rw (e, decode_plain c _ (plain-ne-percent c (agree ∙ e)), ih) (ground (arith, h.0.1))
      | inr e ↦ rw (e, decode_escape c _ h.0.0 (agree ∙ e), ih)
    ]
