-- ===== src/Tool/StringBuffer/Consume.antt =====
-- The operations that take bytes out of a valid buffer: `retrieve`, both `readBuffer`s, `unwrite`,
-- and the search for a line end.
use native.Mathlib.Decide.{dec_le}
use trantor_net.Base.{
  ℕ, ◌+◌, ◌-◌, ◌≤◌, ◌<◌, ◌≡◌, refl, sym, ◌∙◌, ap, ◌++◌, [], arith, length, take, drop, take-slice,
  drop-slice, take-append-drop, append-nil, take_of_le, drop_of_le, length-take,
}
use trantor_net.Tool.StringBuffer.{StringBuffer, contents, retrieve, read_buffer, read_buffer_raw}
use trantor_net.Tool.StringBuffer.Append.{
  IsValid, contents_lem, length-contents, get_readable_bytes_lem,
}

-- A valid buffer whose read index moves up by `k` has lost its first `k` readable bytes.
module _ (b : StringBuffer) (v : IsValid b) (k : ℕ) (fits : b.read_index + k ≤ b.write_index)
    (c : StringBuffer) (e : c ≡ record b { read_index = b.read_index + k }) where
  advanced-IsValid : IsValid c
  advanced-IsValid = rw e (omega arith)

  contents-advanced : contents c ≡ drop k (contents b)
  contents-advanced = rw e (
      contents_lem {b = record b { read_index = b.read_index + k }} (omega arith)
      ∙ sym (
          ap (drop k) (contents_lem v)
          ∙ drop-slice b.mem b.read_index k (b.write_index - b.read_index) _ _ refl (omega arith)))

-- `retrieve` of no more than the readable bytes drops exactly those.
pub contents-retrieve :
    (b : StringBuffer) (n : ℕ)
    → IsValid b
    → n ≤ length (contents b)
    → IsValid (retrieve b n) × (contents (retrieve b n) ≡ drop n (contents b))
contents-retrieve b n v h =
    (advanced-IsValid b v n fits _ moved, contents-advanced b v n fits _ moved)
  where
    fits : b.read_index + n ≤ b.write_index
    fits = omega (arith, length-contents v)

    moved : retrieve b n ≡ record b { read_index = b.read_index + n }
    moved = unfold retrieve in ground (arith, fits)

-- With the read index past every readable byte, nothing is left.
emptied :
    (b : StringBuffer) (v : IsValid b)
    → contents (record b { read_index = b.read_index + length (contents b) }) ≡ []
emptied b v =
    contents-advanced b v (length (contents b)) (omega (arith, length-contents v)) _ refl
    ∙ drop_of_le (length (contents b)) (contents b) (omega arith)

-- `readBuffer` into a string, by its two branches.
module _ (b : StringBuffer) (size : ℕ) (v : IsValid b) where
  read_buffer_all :
      length (contents b) ≤ size
      → read_buffer b size ≡ (
        take size (contents b),
        length (contents b),
        record b { read_index = b.read_index + length (contents b) },
      )
  read_buffer_all h =
      rw (take_of_le size (contents b) h, length-contents v)
        (unfold read_buffer contents in
          ground (arith, h, length-contents v, get_readable_bytes_lem v))

  read_buffer_some :
      size < length (contents b)
      → read_buffer b size
        ≡ (take size (contents b), size, record b { read_index = b.read_index + size })
  read_buffer_some h =
      rw
        (
          contents_lem v,
          take-slice b.mem b.read_index size (b.write_index - b.read_index)
              (omega (arith, length-contents v)),
        )
        (unfold read_buffer in ground (arith, h, length-contents v, get_readable_bytes_lem v))

-- `readBuffer` into a string, of a valid buffer: it appends the first `size` readable bytes, or all
-- if there are fewer, returns how many these were, and leaves the rest readable.
pub read_buffer_lem :
    (b : StringBuffer) (size : ℕ)
    → IsValid b
    → let (out, n, c) = read_buffer b size in
      IsValid c
      × (out ≡ take size (contents b))
      × (n ≡ length out)
      × (out ++ contents c ≡ contents b)
read_buffer_lem b size v = elim (dec_le (length (contents b)) size) [
  | yes h ↦ rw (read_buffer_all b size v h) (
    advanced-IsValid b v (length (contents b)) (omega (arith, length-contents v)) _ refl,
    refl,
    ap length (sym (take_of_le size (contents b) h)),
    ap (λ cs. take size (contents b) ++ cs) (emptied b v)
        ∙ append-nil (take size (contents b))
        ∙ take_of_le size (contents b) h,
  )
  | no h ↦ rw (read_buffer_some b size v (omega arith)) (
    advanced-IsValid b v size (omega (arith, length-contents v)) _ refl,
    refl,
    omega (arith, length-take size (contents b)),
    ap (λ cs. take size (contents b) ++ cs)
          (contents-advanced b v size (omega (arith, length-contents v)) _ refl)
        ∙ take-append-drop size (contents b),
  )
]

module _ (b : StringBuffer) (size : ℕ) (v : IsValid b) where
  raw_after :
      (read_buffer_raw b size).2 ≡ record b { read_index = b.read_index + length (contents b) }
  raw_after =
      rw (length-contents v) (unfold read_buffer_raw in ground (arith, get_readable_bytes_lem v))

  raw_out : (read_buffer_raw b size).0 ≡ take size (contents b)
  raw_out = elim (dec_le (length (contents b)) size) [
    | yes h ↦ rw (take_of_le size (contents b) h) (
        unfold read_buffer_raw contents in
        ground (arith, h, length-contents v, get_readable_bytes_lem v))
    | no h ↦
        rw
          (
            contents_lem v,
            take-slice b.mem b.read_index size (b.write_index - b.read_index)
                (omega (arith, length-contents v)),
          )
          (unfold read_buffer_raw in ground (arith, length-contents v, get_readable_bytes_lem v))
  ]

  raw_count : (read_buffer_raw b size).1 ≡ length (read_buffer_raw b size).0
  raw_count = rw raw_out (
      unfold read_buffer_raw in
      ground (arith, length-take size (contents b), length-contents v, get_readable_bytes_lem v))

-- `readBuffer` into raw memory copies the same bytes, but it marks every readable byte as read.
pub read_buffer_raw_lem :
    (b : StringBuffer) (size : ℕ)
    → IsValid b
    → let (out, n, c) = read_buffer_raw b size in
      IsValid c × (out ≡ take size (contents b)) × (n ≡ length out) × (contents c ≡ [])
read_buffer_raw_lem b size v = rw (raw_after b size v) (
  advanced-IsValid b v (length (contents b)) (omega (arith, length-contents v)) _ refl,
  raw_out b size v,
  raw_count b size v,
  emptied b v,
)
