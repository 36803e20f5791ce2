-- ===== src/Tool/Funcs/Base64/RoundTrip.antt =====
-- Decoding gives back what was encoded.
use trantor_net.Base.{
  ◌<◌, ◌^◌, ℕ, ◌+◌, ◌*◌, ◌/◌, ◌%◌, ◌<◌, ◌≡◌, refl, ap, ap₂, ◌∙◌, u8, true, false, not, ◌||◌, List,
  [], ◌∷◌, ◌++◌, arith, ◌==◌, ==_iff, table, table_entry, length, All,
}
use trantor_net.Tool.Funcs.Base64.{
  is_base64, char_of, encode_group, encode_byte, encode_rest, encode_from, base64_encode, find_char,
  find_from, decode_group, decode_chars, decode_char, decode_rest, decode_from, base64_decode,
}

-- Facts about the 64 characters, by evaluation.
find_table : table (λ v. find_char (char_of v) == v) 64 ≡ true
unfolding table find_char find_from char_of
find_table = refl

alphabet_table : table (λ v. not ((char_of v == b'=') || not (is_base64 (char_of v)))) 64 ≡ true
unfolding table is_base64 char_of
alphabet_table = refl

pub find_char-char_of : (v : ℕ) → v < 64 → find_char (char_of v) ≡ v
find_char-char_of v h = (==_iff _ v).0 (table_entry _ find_table v h)

goes_on : (v : ℕ) → v < 64 → ((char_of v == b'=') || not (is_base64 (char_of v))) ≡ false
goes_on v h =
    let t : not ((char_of v == b'=') || not (is_base64 (char_of v))) ≡ true =
      table_entry _ alphabet_table v h in
    ground arith

-- Four characters of the alphabet are decoded together.
decode_four :
    (v w x y : ℕ)
    → v < 64
    → w < 64
    → x < 64
    → y < 64
    → (text : List ℕ)
    → decode_from [] (char_of v ∷ char_of w ∷ char_of x ∷ char_of y ∷ text)
      ≡ decode_group v w x y ++ decode_from [] text
unfolding decode_from decode_char decode_chars
decode_four v w x y p q r s text = rw (
  goes_on v p,
  goes_on w q,
  goes_on x r,
  goes_on y s,
  find_char-char_of v p,
  find_char-char_of w q,
  find_char-char_of x r,
  find_char-char_of y s,
)

-- Two or three characters in front of `=` give one or two bytes.
decode_two :
    (v w : ℕ) (text : List ℕ)
    → v < 64
    → w < 64
    → decode_from [] (char_of v ∷ char_of w ∷ b'=' ∷ text) ≡ u8 (v * 4 + w / 16 % 4) ∷ []
unfolding decode_from decode_char decode_rest decode_chars decode_group
decode_two v w text p q =
    rw (goes_on v p, goes_on w q, find_char-char_of v p, find_char-char_of w q)

decode_three :
    (v w x : ℕ) (text : List ℕ)
    → v < 64
    → w < 64
    → x < 64
    → decode_from [] (char_of v ∷ char_of w ∷ char_of x ∷ b'=' ∷ text)
      ≡ u8 (v * 4 + w / 16 % 4) ∷ u8 (w % 16 * 16 + x / 4 % 16) ∷ []
unfolding decode_from decode_char decode_rest decode_chars decode_group
decode_three v w x text p q r = rw (
  goes_on v p,
  goes_on w q,
  goes_on x r,
  find_char-char_of v p,
  find_char-char_of w q,
  find_char-char_of x r,
)

-- Three bytes in, three bytes out.
group_bytes :
    (a b c : ℕ)
    → a < 256
    → b < 256
    → c < 256
    → decode_group (a / 4 % 64) (a % 4 * 16 + b / 16 % 16) (b % 16 * 4 + c / 64 % 4) (c % 64)
      ≡ a ∷ b ∷ c ∷ []
unfolding decode_group
group_bytes a b c p q r =
    ap₂ ◌∷◌ (omega arith) (ap₂ ◌∷◌ (omega arith) (ap (λ (n : ℕ). n ∷ []) (omega arith)))

decoded : (bytes : List ℕ) → All (λ b. b < 256) bytes → base64_decode (base64_encode bytes) ≡ bytes
unfolding base64_decode base64_encode encode_from encode_byte encode_rest encode_group
decoded [] h = unfold decode_from decode_rest in refl
decoded (a ∷ []) h =
    decode_two (a / 4 % 64) (a % 4 * 16 + 0) (b'=' ∷ []) (omega arith) (omega arith)
    ∙ ap (λ (n : ℕ). n ∷ []) (omega (arith, h.0))
decoded (a ∷ b ∷ []) h =
    decode_three (a / 4 % 64) (a % 4 * 16 + b / 16 % 16) (b % 16 * 4 + 0) [] (omega arith)
      (omega arith) (omega arith)
    ∙ ap₂ ◌∷◌ (omega (arith, h.0, h.1)) (ap (λ (n : ℕ). n ∷ []) (omega (arith, h.0, h.1)))
decoded (a ∷ b ∷ c ∷ bytes) h =
    decode_four (a / 4 % 64) (a % 4 * 16 + b / 16 % 16) (b % 16 * 4 + c / 64 % 4) (c % 64)
      (omega arith) (omega arith) (omega arith) (omega arith) (encode_from [] bytes)
    ∙ ap₂ ◌++◌ (group_bytes a b c h.0 h.1.0 h.1.1.0) (decoded bytes h.1.1.1)

-- The encoding has four characters for every three bytes or part of them.
pub length-base64_encode :
    (bytes : List ℕ) → length (base64_encode bytes) ≡ (length bytes + 2) / 3 * 4
unfolding base64_encode encode_from encode_byte encode_rest encode_group
length-base64_encode [] = refl
length-base64_encode (a ∷ []) = refl
length-base64_encode (a ∷ b ∷ []) = refl
length-base64_encode (a ∷ b ∷ c ∷ bytes) = omega (arith, length-base64_encode bytes)

-- Decoding what `base64_encode` returns for bytes gives those bytes back, when the encoding is shorter
-- than 2^31, so that no counter of the two loops wraps.
pub base64_decode-base64_encode :
    (bytes : List ℕ)
    → All (λ b. b < 256) bytes
    → length (base64_encode bytes) < 2 ^ 31
    → base64_decode (base64_encode bytes) ≡ bytes
base64_decode-base64_encode bytes h small = decoded bytes h
