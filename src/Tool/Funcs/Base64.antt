-- ===== src/Tool/Funcs/Base64.antt =====
-- `base64_encode` and `base64_decode` (src/tool/src/Funcs.cc). The loops keep the filled part of
-- `char_array_3` and `char_array_4` as a list, whose length is `i`, and give what they append to
-- `ret`. Masks and shifts of bytes are written as remainders and quotients.

pub mod RoundTrip
use trantor_net.Base.{
  ℕ, suc, ◌+◌, ◌*◌, ◌/◌, ◌%◌, ◌≤◌, ◌≡◌, Bool, true, false, not, ◌&&◌, ◌||◌, List, [], ◌∷◌, ◌++◌,
  Option, none, some, leb, ◌==◌, if◌then◌else◌, get_or, map, take, codes, u8,
}

abbrev pub base64_chars : List ℕ
base64_chars = codes "ABCDEFGHIJKLMNOPQRSTUVWXYZabcdefghijklmnopqrstuvwxyz0123456789+/"

abbrev between : ℕ → ℕ → ℕ → Bool
between lo hi c = leb lo c && leb c hi

-- `isalnum` in the C locale.
unfoldable pub is_base64 : ℕ → Bool
is_base64 c =
    between b'0' b'9' c || between b'A' b'Z' c || between b'a' b'z' c || (c == b'+') || (c == b'/')

-- `base64_chars[v]`
unfoldable pub char_of : ℕ → ℕ
char_of v = get_or base64_chars v 0

-- `char_array_4` from `char_array_3`, as characters.
unfoldable pub encode_group : ℕ → ℕ → ℕ → List ℕ
encode_group a b c =
    char_of (a / 4 % 64)
    ∷ char_of (a % 4 * 16 + b / 16 % 16)
    ∷ char_of (b % 16 * 4 + c / 64 % 4)
    ∷ char_of (c % 64)
    ∷ []

-- One round of the `while` loop: what it appends, and the filled part after it.
unfoldable pub encode_byte : List ℕ → ℕ → List ℕ × List ℕ
encode_byte [] x = ([], x ∷ [])
encode_byte (a ∷ []) x = ([], a ∷ x ∷ [])
encode_byte (a ∷ b ∷ _) x = (encode_group a b x, [])

-- The part behind the loop: the array is filled up with zeros, `i + 1` characters are written and
-- then `3 - i` signs `=`.
unfoldable pub encode_rest : List ℕ → List ℕ
encode_rest [] = []
encode_rest (a ∷ []) = take 2 (encode_group a 0 0) ++ (b'=' ∷ b'=' ∷ [])
encode_rest (a ∷ b ∷ _) = take 3 (encode_group a b 0) ++ (b'=' ∷ [])

unfoldable pub encode_from : List ℕ → List ℕ → List ℕ
encode_from filled [] = encode_rest filled
encode_from filled (x ∷ bytes) =
    (encode_byte filled x).0 ++ encode_from (encode_byte filled x).1 bytes

-- The source counts the bytes in an `unsigned int`: this is the code for fewer than 2^31 bytes.
unfoldable pub base64_encode : List ℕ → List ℕ
base64_encode bytes = encode_from [] bytes

-- `base64_chars.find(c)` as an `unsigned char`: `npos` is cut to 255.
unfoldable pub find_from : List ℕ → ℕ → ℕ → ℕ
find_from [] i c = 255
find_from (d ∷ chars) i c = if d == c then u8 i else find_from chars (suc i) c

unfoldable pub find_char : ℕ → ℕ
find_char c = find_from base64_chars 0 c

-- `char_array_3` from the four values of `char_array_4`.
unfoldable pub decode_group : ℕ → ℕ → ℕ → ℕ → List ℕ
decode_group a b c d =
    u8 (a * 4 + b / 16 % 4) ∷ u8 (b % 16 * 16 + c / 4 % 16) ∷ u8 (c % 4 * 64 + d) ∷ []

unfoldable pub decode_chars : ℕ → ℕ → ℕ → ℕ → List ℕ
decode_chars a b c d = decode_group (find_char a) (find_char b) (find_char c) (find_char d)

unfoldable pub decode_char : List ℕ → ℕ → List ℕ × List ℕ
decode_char [] x = ([], x ∷ [])
decode_char (a ∷ []) x = ([], a ∷ x ∷ [])
decode_char (a ∷ b ∷ []) x = ([], a ∷ b ∷ x ∷ [])
decode_char (a ∷ b ∷ c ∷ _) x = (decode_chars a b c x, [])

-- Behind the loop the array is filled up with the character 0, and `i - 1` bytes are appended.
unfoldable pub decode_rest : List ℕ → List ℕ
decode_rest [] = []
decode_rest (a ∷ []) = []
decode_rest (a ∷ b ∷ []) = take 1 (decode_chars a b 0 0)
decode_rest (a ∷ b ∷ c ∷ _) = take 2 (decode_chars a b c 0)

-- The loop ends at the first `=` and at the first character outside the alphabet.
unfoldable pub decode_from : List ℕ → List ℕ → List ℕ
decode_from filled [] = decode_rest filled
decode_from filled (c ∷ text) =
    if (c == b'=') || not (is_base64 c)
    then decode_rest filled
    else (decode_char filled c).0 ++ decode_from (decode_char filled c).1 text

-- The source counts the characters in an `int`: this is the code for fewer than 2^31 characters.
unfoldable pub base64_decode : List ℕ → List ℕ
base64_decode text = decode_from [] text
