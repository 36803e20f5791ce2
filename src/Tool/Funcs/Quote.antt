-- ===== src/Tool/Funcs/Quote.antt =====
-- `stringPreProcess` (src/tool/src/Funcs.cc): every quote is doubled.
use trantor_net.Base.{
  ◌<◌, ◌^◌, ℕ, suc, ◌+◌, ◌≡◌, ◌≢◌, refl, false, List, [], ◌∷◌, ◌++◌, arith, ◌==◌, if◌then◌else◌,
  length, Bool-cases, inl, inr,
}

-- What one character adds to the result.
unfoldable pub quote_char : ℕ → List ℕ
quote_char c = if c == b'\'' then b'\'' ∷ b'\'' ∷ [] else c ∷ []

-- The source counts the characters in an `int`: this is the code for fewer than 2^31 characters.
unfoldable pub string_pre_process : List ℕ → List ℕ
string_pre_process [] = []
string_pre_process (c ∷ rest) = quote_char c ++ string_pre_process rest

-- A reader of quoted text: two quotes stand for one, and a lone quote ends the text. The second
-- component is what follows.
pub read_quoted : List ℕ → List ℕ × List ℕ
read_quoted [] = ([], [])
read_quoted (c ∷ []) = if c == b'\'' then ([], []) else (c ∷ [], [])
read_quoted (c ∷ d ∷ rest) =
    let later = read_quoted rest in
    let next = read_quoted (d ∷ rest) in
    if c == b'\''
    then (if d == b'\'' then (b'\'' ∷ later.0, later.1) else ([], d ∷ rest))
    else (c ∷ next.0, next.1)

-- How many quotes a text has.
abbrev pub quotes : List ℕ → ℕ
quotes [] = 0
quotes (c ∷ rest) = if c == b'\'' then suc (quotes rest) else quotes rest

abbrev pub NoQuoteFirst : List ℕ → Type 0
NoQuoteFirst [] = Unit
NoQuoteFirst (c ∷ rest) = c ≢ b'\''

read_quoted_plain :
    (c : ℕ) (xs : List ℕ)
    → (c == b'\'') ≡ false
    → read_quoted (c ∷ xs) ≡ (c ∷ (read_quoted xs).0, (read_quoted xs).1)
unfolding read_quoted
read_quoted_plain c [] h = ground arith
read_quoted_plain c (d ∷ xs) h = ground arith

read_quoted_end : (after : List ℕ) → NoQuoteFirst after → read_quoted (b'\'' ∷ after) ≡ ([], after)
unfolding read_quoted
read_quoted_end [] h = refl
read_quoted_end (c ∷ rest) h = ground (arith, h)

read_back :
    (str after : List ℕ)
    → NoQuoteFirst after
    → read_quoted (string_pre_process str ++ (b'\'' ∷ after)) ≡ (str, after)
unfolding string_pre_process quote_char read_quoted
read_back [] after h = read_quoted_end after h
read_back (c ∷ str) after h =
    let ih = read_back str after h in
    elim (Bool-cases (c == b'\'')) [
      | inl e ↦ ground (arith, ih)
      | inr e ↦ rw (e, read_quoted_plain c _ e, ih)
    ]

-- In front of a closing quote, a processed text reads back as the text itself and the reader stops
-- at that quote: no quote in the text can end the quotation. The conditions are that the text is
-- shorter than 2^31, so that the index of the loop does not wrap, and that what follows the closing
-- quote does not begin with another one.
pub read_quoted-string_pre_process :
    (str after : List ℕ)
    → length str < 2 ^ 31
    → NoQuoteFirst after
    → read_quoted (string_pre_process str ++ (b'\'' ∷ after)) ≡ (str, after)
read_quoted-string_pre_process str after small h = read_back str after h

-- Each quote makes the text longer by one, and there are twice as many.
pub string_pre_process-quotes :
    (str : List ℕ)
    → (length (string_pre_process str) ≡ length str + quotes str)
      × (quotes (string_pre_process str) ≡ quotes str + quotes str)
unfolding string_pre_process quote_char
string_pre_process-quotes [] = omega arith
string_pre_process-quotes (c ∷ str) = ground (arith, string_pre_process-quotes str)
