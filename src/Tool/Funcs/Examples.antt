-- ===== src/Tool/Funcs/Examples.antt =====
-- The theorems about the text functions at concrete texts, and tests.
use trantor_net.Base.{some, ◌≡◌, refl, ◌++◌, true, [], ◌∷◌, arith, codes}
use trantor_net.Tool.Funcs.Hex.{is_integer}
use trantor_net.Tool.Funcs.Split.{
  split_string, split_from, skip, find_separator, first_in, is_prefix,
}
use trantor_net.Tool.Funcs.Split.Pieces.{pieces, full_ones, split_string-eq-pieces}
use trantor_net.Tool.Funcs.Quote.{string_pre_process, read_quoted, read_quoted-string_pre_process}
use trantor_net.Tool.Funcs.Base64.{
  base64_encode, base64_decode, encode_from, encode_byte, encode_group, encode_rest, char_of,
}
use trantor_net.Tool.Funcs.Base64.RoundTrip.{base64_decode-base64_encode, length-base64_encode}
use trantor_net.Tool.Funcs.Url.{
  url_decode, url_encode, url_decode-url_encode, decodes, is_xdigit, is_plain, xdigit_value,
}

encode_man : base64_encode (codes "Man!") ≡ codes "TWFuIQ=="
unfolding base64_encode encode_from encode_byte encode_group encode_rest char_of
encode_man = refl

decode_escapes : url_decode (codes "a+b%20%41%2B%") ≡ codes "a b %41%2B%"
unfolding url_decode decodes is_xdigit is_plain xdigit_value
decode_escapes = refl

-- The empty text counts as an integer.
empty_integer : is_integer [] ≡ true
unfolding is_integer
empty_integer = refl

read_quoted-string_pre_process_example :
    read_quoted (string_pre_process (codes "it's") ++ (b'\'' ∷ codes ", 2"))
    ≡ (codes "it's", codes ", 2")
read_quoted-string_pre_process_example =
    read_quoted-string_pre_process (codes "it's") (codes ", 2") (omega arith) (omega arith)

base64_decode-base64_encode_example :
    base64_decode (base64_encode (77 ∷ 97 ∷ 110 ∷ 255 ∷ [])) ≡ 77 ∷ 97 ∷ 110 ∷ 255 ∷ []
base64_decode-base64_encode_example =
    base64_decode-base64_encode (77 ∷ 97 ∷ 110 ∷ 255 ∷ []) (omega arith)
      (omega (arith, length-base64_encode (77 ∷ 97 ∷ 110 ∷ 255 ∷ [])))

url_decode-url_encode_example : url_decode (url_encode (codes "a b%")) ≡ codes "a b%"
url_decode-url_encode_example = url_decode-url_encode (codes "a b%") (grind arith)

split_path : split_string 5 (codes ",ab,,c") (codes ",") ≡ some (codes "ab" ∷ codes "c" ∷ [])
unfolding split_string split_from skip find_separator first_in is_prefix
split_path = refl

split_string-eq-pieces_example :
    split_string 4 (97 ∷ 44 ∷ 44 ∷ 98 ∷ []) (44 ∷ [])
    ≡ some (full_ones (pieces (44 ∷ []) 0 [] (97 ∷ 44 ∷ 44 ∷ 98 ∷ [])))
split_string-eq-pieces_example = split_string-eq-pieces 44 [] (97 ∷ 44 ∷ 44 ∷ 98 ∷ [])
