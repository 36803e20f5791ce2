-- ===== src/Tool/StringBuffer/Lines.antt =====
-- Taking lines out of a valid buffer, and taking written bytes back: `findCRLF`, `retrieveUntil`
-- and `unwrite`.
use trantor_net.Base.{
  ℕ, zero, suc, ◌+◌, ◌-◌, ◌^◌, ◌≤◌, ◌<◌, ◌≡◌, ◌≢◌, sym, ◌∙◌, ap, ◌++◌, List, [], ◌∷◌, arith, length,
  take, drop, slice, none, some, Option-cases, inl, inr, take-slice, take-append-drop,
  length-append, length-take, drop-drop, take-append_left, append_assoc, take_of_le,
}
use trantor_net.Tool.StringBuffer.{
  StringBuffer, contents, retrieve, retrieve_until, search_crlf, find_crlf, unwrite, write_buffer,
}
use trantor_net.Tool.StringBuffer.Append.{
  IsValid, GrowsExactly, contents_lem, length-contents, get_readable_bytes_lem, cells-write_buffer,
}
use trantor_net.Tool.StringBuffer.Consume.{contents-retrieve}

abbrev pub crlf : List ℕ
crlf = b'\r' ∷ b'\n' ∷ []

-- No line end begins at an index below `n`.
abbrev pub NoneBefore : ℕ → List ℕ → Type 0
NoneBefore n xs = (j : ℕ) → j < n → take 2 (drop j xs) ≢ crlf

search_here :
    (c d : ℕ) (rest : List ℕ) → search_crlf (c ∷ d ∷ rest) ≡ some 0 → (c ≡ b'\r') × (d ≡ b'\n')
unfolding search_crlf
search_here c d rest e = ground arith

search_later :
    (c d i : ℕ) (rest : List ℕ)
    → search_crlf (c ∷ d ∷ rest) ≡ some (suc i)
    → search_crlf (d ∷ rest) ≡ some i
unfolding search_crlf
search_later c d i rest e = ground arith

search_none :
    (c d : ℕ) (rest : List ℕ) → search_crlf (c ∷ d ∷ rest) ≡ none → search_crlf (d ∷ rest) ≡ none
unfolding search_crlf
search_none c d rest e = ground arith

search_not_here :
    (c d : ℕ) (rest : List ℕ)
    → search_crlf (c ∷ d ∷ rest) ≢ some 0
    → ◌≢◌ {A = List ℕ} (c ∷ d ∷ []) crlf
unfolding search_crlf
search_not_here c d rest e h = ground (arith, e (ground arith))

NoneBefore-suc :
    (i c : ℕ) (xs : List ℕ) → take 2 (c ∷ xs) ≢ crlf → NoneBefore i xs → NoneBefore (suc i) (c ∷ xs)
NoneBefore-suc i c xs not_here later zero h f = not_here f
NoneBefore-suc i c xs not_here later (suc j) h f = later j (omega arith) f

-- The search returns the first index at which a line end stands.
pub search_crlf_found :
    (xs : List ℕ) (i : ℕ)
    → search_crlf xs ≡ some i
    → (take 2 (drop i xs) ≡ crlf) × NoneBefore i xs × (i + 2 ≤ length xs)
unfolding search_crlf
search_crlf_found [] i e = cc
search_crlf_found (c ∷ []) i e = cc
search_crlf_found (c ∷ d ∷ rest) zero e =
    let (p, q) = search_here c d rest e in (rw (p, q), λ j h. absurd (omega arith), omega arith)
search_crlf_found (c ∷ d ∷ rest) (suc i) e =
    let (hit, before, room) = search_crlf_found (d ∷ rest) i (search_later c d i rest e) in
    (hit, NoneBefore-suc i c (d ∷ rest) (search_not_here c d rest (λ g. cc)) before, omega arith)

pub search_crlf_missing :
    (xs : List ℕ) → search_crlf xs ≡ none → (j : ℕ) → take 2 (drop j xs) ≢ crlf
unfolding search_crlf
search_crlf_missing [] e zero f = cc
search_crlf_missing [] e (suc j) f = cc
search_crlf_missing (c ∷ []) e zero f = cc
search_crlf_missing (c ∷ []) e (suc zero) f = cc
search_crlf_missing (c ∷ []) e (suc (suc j)) f = cc
search_crlf_missing (c ∷ d ∷ rest) e zero f = search_not_here c d rest (λ g. cc) f
search_crlf_missing (c ∷ d ∷ rest) e (suc j) f =
    search_crlf_missing (d ∷ rest) (search_none c d rest e) j f

-- The guard of `retrieveUntil` guards nothing: the read index becomes the pointer whatever it is,
-- also in front of `peek()` or behind `end()`.
pub retrieve_until_unguarded :
    (b : StringBuffer) (ptr : ℕ)
    → IsValid b
    → ptr ≤ b.size
    → retrieve_until b ptr ≡ record b { read_index = ptr }
unfolding retrieve_until
retrieve_until_unguarded b ptr v h = ground arith

abbrev taken_back : StringBuffer → ℕ → StringBuffer
taken_back b n = record b { write_index = b.write_index - n }

-- `unwrite` of no more than the readable bytes takes back the last ones; of more it does nothing.
pub contents-unwrite :
    (b : StringBuffer) (n : ℕ)
    → IsValid b
    → ((n ≤ length (contents b))
        → IsValid (unwrite b n)
          × (contents (unwrite b n) ≡ take (length (contents b) - n) (contents b)))
      × ((length (contents b) < n) → unwrite b n ≡ b)
contents-unwrite b n v = (
  λ h. (rw (within h) (shorter h), rw (within h) (kept h)),
  λ h. unfold unwrite in ground (arith, length-contents v, get_readable_bytes_lem v),
)
  where
    within : n ≤ length (contents b) → unwrite b n ≡ taken_back b n
    within h = unfold unwrite in ground (arith, length-contents v, get_readable_bytes_lem v)

    shorter : n ≤ length (contents b) → IsValid (taken_back b n)
    shorter h = omega (arith, length-contents v)

    kept :
        n ≤ length (contents b)
        → contents (taken_back b n) ≡ take (length (contents b) - n) (contents b)
    kept h =
        contents_lem (shorter h)
        ∙ sym (
            take-slice b.mem b.read_index _ (b.write_index - b.read_index)
              (omega (arith, length-contents v)))
        ∙ rw (← contents_lem v) (ap (λ k. take k (contents b)) (omega (arith, length-contents v)))

-- `unwrite` right after `writeBuffer` takes the written bytes back, whatever the write moved.
pub unwrite-write_buffer :
    (grow : ℕ → ℕ → ℕ)
    → GrowsExactly grow
    → (b : StringBuffer) (bytes : List ℕ) → IsValid b
    → b.write_index + length bytes < 2 ^ 61
    → contents (unwrite (write_buffer grow b bytes) (length bytes)) ≡ contents b
unwrite-write_buffer grow exact b bytes v small =
    let (w, e) = cells-write_buffer grow exact b bytes v small in
    let n : length (contents (write_buffer grow b bytes)) ≡ length (contents b) + length bytes =
      ap length e ∙ length-append (contents b) bytes in
    ((contents-unwrite (write_buffer grow b bytes) (length bytes) w).0 (omega arith)).1
    ∙ ap (λ k. take k (contents (write_buffer grow b bytes))) (omega arith)
    ∙ ap (take (length (contents b))) e
    ∙ take-append_left (length (contents b)) (contents b) bytes (omega arith)
    ∙ take_of_le (length (contents b)) (contents b) (omega arith)

find_crlf-search :
    (b : StringBuffer) (p : ℕ)
    → find_crlf b ≡ some p
    → (i : ℕ) × (search_crlf (contents b) ≡ some i) × (p ≡ b.read_index + i)
unfolding find_crlf
find_crlf-search b p e = elim (Option-cases (search_crlf (contents b))) [
  | inl f ↦ cc
  | inr (i, f) ↦ (i, f, ground arith)
]

-- Reading a line: where `findCRLF` returns a pointer, the bytes up to it hold no line end, a line
-- end follows them, and `retrieveUntil` the byte behind that leaves exactly what comes after.
pub take_line :
    (b : StringBuffer) (p : ℕ)
    → IsValid b
    → find_crlf b ≡ some p
    → let line = slice b.read_index (p - b.read_index) b.mem in
      (contents b ≡ (line ++ crlf) ++ contents (retrieve_until b (p + 2)))
      × NoneBefore (length line) (contents b)
      × IsValid (retrieve_until b (p + 2))
take_line b p v e =
    let (i, found, at) = find_crlf-search b p e in
    let (hit, before, room) = search_crlf_found (contents b) i found in
    let n : length (contents b) ≡ b.write_index - b.read_index = length-contents v in
    let cut : slice b.read_index (p - b.read_index) b.mem ≡ take i (contents b) =
      ap (λ k. slice b.read_index k b.mem) (omega arith)
      ∙ sym (take-slice b.mem b.read_index i (b.write_index - b.read_index) (omega arith))
      ∙ ap (take i) (sym (contents_lem v)) in
    let skip : retrieve_until b (p + 2) ≡ retrieve b (i + 2) =
      unfold retrieve_until in ap (retrieve b) (omega arith) in
    let (w, rest) = contents-retrieve b (i + 2) v (omega arith) in
    (
      rw (cut, skip, rest, ← hit, append_assoc)
          (sym (
            ap (λ cs. take i (contents b) ++ (take 2 (drop i (contents b)) ++ cs))
              (drop-drop i 2 (contents b))
            ∙ ap (λ cs. take i (contents b) ++ cs) (take-append-drop 2 (drop i (contents b)))
            ∙ take-append-drop i (contents b))),
      rw (cut, length-take i (contents b)) (λ j h. before j (omega arith)),
      rw skip w,
    )
