-- ===== src/Tool/Funcs/Hex.antt =====
-- `isInteger`, `StringToHex` and `getuuid` (src/tool/src/Funcs.cc).
use trantor_net.Base.{
  ℕ, ◌+◌, ◌-◌, ◌*◌, ◌/◌, ◌%◌, ◌≤◌, ◌<◌, ◌≡◌, ◌↔◌, refl, ap₂, Bool, true, false, ◌||◌, List, [], ◌∷◌,
  arith, ltb, if◌then◌else◌, length, All, ◌⊎◌,
}

-- The loop over the characters, left at the first that is no digit.
unfoldable pub is_integer : List ℕ → Bool
is_integer [] = true
is_integer (c ∷ rest) = if ltb b'9' c || ltb c b'0' then false else is_integer rest

-- The character of a value below 16. `& 0xf0` and `>> 4` of a byte is `/ 16`; `& 0x0f` is `% 16`.
unfoldable pub hex_digit : ℕ → ℕ
hex_digit value = if ltb value 10 then value + 48 else value + 55

unfoldable pub string_to_hex : List ℕ → List ℕ
string_to_hex [] = []
string_to_hex (b ∷ rest) = hex_digit (b / 16) ∷ hex_digit (b % 16) ∷ string_to_hex rest

-- `uuid_generate` is the uuid library's: its 16 bytes are the argument.
unfoldable pub getuuid : List ℕ → List ℕ
unfolding string_to_hex
getuuid uu = string_to_hex uu

abbrev pub IsHexDigit : ℕ → Type 0
IsHexDigit c = ((b'0' ≤ c) × (c ≤ b'9')) ⊎ ((b'A' ≤ c) × (c ≤ b'F'))

-- A reader of what `StringToHex` prints.
digit_value : ℕ → ℕ
digit_value c = if ltb c b'A' then c - 48 else c - 55

pub hex_to_bytes : List ℕ → List ℕ
hex_to_bytes [] = []
hex_to_bytes (c ∷ []) = []
hex_to_bytes (c ∷ d ∷ rest) = (digit_value c * 16 + digit_value d) ∷ hex_to_bytes rest

hex_digit-IsHexDigit : (n : ℕ) → n < 16 → IsHexDigit (hex_digit n)
unfolding hex_digit
hex_digit-IsHexDigit n h = ground arith

digit_value-hex_digit : (n : ℕ) → n < 16 → digit_value (hex_digit n) ≡ n
unfolding hex_digit digit_value
digit_value-hex_digit n h = ground arith

-- The printed text has two upper-case hexadecimal digits for each byte, and reading it back gives
-- the bytes.
pub string_to_hex_lem :
    (bytes : List ℕ)
    → All (λ b. b < 256) bytes
    → (length (string_to_hex bytes) ≡ length bytes * 2)
      × All IsHexDigit (string_to_hex bytes)
      × (hex_to_bytes (string_to_hex bytes) ≡ bytes)
unfolding string_to_hex hex_to_bytes
string_to_hex_lem [] h = (refl, tt, refl)
string_to_hex_lem (b ∷ rest) h =
    let (n, ds, e) = string_to_hex_lem rest h.1 in
    (
      omega (arith, n),
      (
        hex_digit-IsHexDigit (b / 16) (omega arith),
        (hex_digit-IsHexDigit (b % 16) (omega arith), ds),
      ),
      ap₂ ◌∷◌
          (omega (
            arith,
            digit_value-hex_digit (b / 16) (omega arith),
            digit_value-hex_digit (b % 16) (omega arith),
          ))
          e,
    )

-- `isInteger` accepts exactly the texts of which every character is a digit, the empty one too.
pub is_integer_iff :
    (str : List ℕ) → (is_integer str ≡ true) ↔ All (λ c. (b'0' ≤ c) × (c ≤ b'9')) str
unfolding is_integer
is_integer_iff [] = (λ h. tt, λ h. refl)
is_integer_iff (c ∷ rest) =
    let (there, back) = is_integer_iff rest in
    (λ h. ((ground arith, ground arith), there (ground arith)), λ h. ground (arith, back h.1))
