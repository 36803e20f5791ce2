-- ===== src/Tool/StringBuffer/Append.antt =====
-- `writeBuffer` on a valid buffer: it puts the new bytes behind the readable ones.
use trantor_net.Base.{
  ℕ, ◌+◌, ◌-◌, ◌*◌, ◌^◌, ◌≤◌, ◌<◌, ◌≡◌, refl, ◌∙◌, ap, ◌++◌, List, arith, length, take, replicate,
  slice, write_at, length-write_at, slice-write_at, length-slice, length-append, length-replicate,
  take_of_le, sym, false, slice-append_left, take-write_at, Bool-cases, inl, inr, leb, u64,
}
use trantor_net.Tool.StringBuffer.{
  StringBuffer, capacity, contents, write_buffer, get_readable_bytes, copy_to_end,
  get_backward_writable_bytes, get_forward_writable_bytes, adjust_buffer, resize_buffer,
}

-- The indices are in order, every cell of the allocation is an element, and there are fewer than
-- 2^62 of them, so that no index wraps.
pub record IsValid (b : StringBuffer) : Type 0 where
  pub ordered : b.read_index ≤ b.write_index
  pub inside : b.write_index ≤ b.size
  pub filled : b.size ≡ capacity b
  pub small : capacity b < 2 ^ 62

-- What `std::vector` does when `resize` at least doubles it: it allocates what is asked for.
abbrev pub GrowsExactly : (ℕ → ℕ → ℕ) → Type 0
GrowsExactly grow = (c n : ℕ) → 2 * c ≤ n → grow c n ≡ n

pub get_readable_bytes_lem :
    {b : StringBuffer} → IsValid b → get_readable_bytes b ≡ b.write_index - b.read_index
unfolding get_readable_bytes
get_readable_bytes_lem v = omega arith

backward_lem :
    {b : StringBuffer} → IsValid b → get_backward_writable_bytes b ≡ capacity b - b.write_index
unfolding get_backward_writable_bytes
backward_lem v = omega arith

pub contents_lem :
    {b : StringBuffer}
    → IsValid b
    → contents b ≡ slice b.read_index (b.write_index - b.read_index) b.mem
unfolding contents
contents_lem {b} v = ap (λ n. slice b.read_index n b.mem) (get_readable_bytes_lem v)

pub length-contents :
    {b : StringBuffer} → IsValid b → length (contents b) ≡ b.write_index - b.read_index
length-contents {b} v =
    ap length (contents_lem v)
    ∙ length-slice b.mem b.read_index (b.write_index - b.read_index) (omega arith)

-- Bytes copied behind the readable ones, where there is room for them.
Fits : StringBuffer → List ℕ → Type 0
Fits b bytes = b.write_index + length bytes ≤ b.size

abbrev pushed : StringBuffer → List ℕ → StringBuffer
pushed b bytes =
    let c = copy_to_end b bytes in record c { write_index = u64 (c.write_index + length bytes) }

pushed-IsValid :
    (b : StringBuffer) (bytes : List ℕ) → IsValid b → Fits b bytes → IsValid (pushed b bytes)
unfolding Fits
pushed-IsValid b bytes v f = omega (arith, length-write_at b.mem b.write_index bytes)

contents-pushed :
    (b : StringBuffer) (bytes : List ℕ)
    → IsValid b
    → Fits b bytes
    → contents (pushed b bytes) ≡ contents b ++ bytes
unfolding Fits
contents-pushed b bytes v f =
    contents_lem (pushed-IsValid b bytes v f)
    ∙ slice-write_at b.mem b.read_index (b.write_index - b.read_index) bytes (omega arith)
        b.write_index _ (omega arith) (omega arith)
    ∙ ap (λ cs. cs ++ bytes) (sym (contents_lem v))

-- Moving the readable bytes to the front makes the room before them room behind them.
adjust-IsValid : (b : StringBuffer) → IsValid b → IsValid (adjust_buffer b)
unfolding adjust_buffer
adjust-IsValid b v = omega (arith, length-write_at b.mem 0 (contents b), get_readable_bytes_lem v)

adjust_write_index :
    (b : StringBuffer) → IsValid b → (adjust_buffer b).write_index ≡ b.write_index - b.read_index
unfolding adjust_buffer
adjust_write_index b v = get_readable_bytes_lem v

adjust_size : (b : StringBuffer) → (adjust_buffer b).size ≡ b.size
unfolding adjust_buffer
adjust_size b = refl

contents-adjust : (b : StringBuffer) → IsValid b → contents (adjust_buffer b) ≡ contents b
unfolding adjust_buffer
contents-adjust b v =
    contents_lem (adjust-IsValid b v)
    ∙ ap (λ n. take n (write_at b.mem 0 (contents b)))
        (omega (arith, get_readable_bytes_lem v, length-contents v))
    ∙ take-write_at b.mem (contents b) (omega (arith, length-contents v))

-- A larger allocation holds the old elements, since every old cell was one.
module _ (grow : ℕ → ℕ → ℕ) (exact : GrowsExactly grow) (b : StringBuffer) (v : IsValid b) (n : ℕ)
    (doubles : 2 * capacity b < n) (fits : n < 2 ^ 62) where
  resized_mem : (resize_buffer grow b n).mem ≡ b.mem ++ replicate (n - b.size) 0
  unfolding resize_buffer
  resized_mem =
      let larger : leb n (capacity b) ≡ false = ground arith in
      rw (larger, exact (capacity b) n (omega arith), take_of_le b.size b.mem (omega arith))

  resized_rest :
      ((resize_buffer grow b n).size ≡ n)
      × ((resize_buffer grow b n).write_index ≡ b.write_index)
      × ((resize_buffer grow b n).read_index ≡ b.read_index)
  unfolding resize_buffer
  resized_rest = ground arith

  resize-IsValid : IsValid (resize_buffer grow b n)
  resize-IsValid = omega (
    arith,
    resized_rest,
    ap length resized_mem,
    length-append b.mem (replicate (n - b.size) 0),
    length-replicate {A = ℕ} (n - b.size) 0,
  )

  contents-resize : contents (resize_buffer grow b n) ≡ contents b
  contents-resize =
      contents_lem resize-IsValid
      ∙ rw (resized_rest.1, resized_rest.2, resized_mem)
          (slice-append_left b.mem (replicate (n - b.size) 0) b.read_index
            (b.write_index - b.read_index) (omega arith))
      ∙ sym (contents_lem v)

-- `writeBuffer` copies to the end of the buffer, of the adjusted buffer, or of a larger one.
module _ (grow : ℕ → ℕ → ℕ) (P : StringBuffer → Type 0) (b : StringBuffer) (bytes : List ℕ)
    (v : IsValid b) (small : b.write_index + length bytes < 2 ^ 61) where
  write_buffer_cases :
      (Fits b bytes → P (pushed b bytes))
      → (Fits (adjust_buffer b) bytes → P (pushed (adjust_buffer b) bytes))
      → ((n : ℕ)
          → 2 * capacity b < n
          → n < 2 ^ 62
          → b.write_index + length bytes ≤ n
          → P (pushed (resize_buffer grow b n) bytes))
      → P (write_buffer grow b bytes)
  unfolding write_buffer get_forward_writable_bytes Fits
  write_buffer_cases here moved larger =
      elim (Bool-cases (leb (length bytes) (get_backward_writable_bytes b))) [
        | inl e ↦ rw e (here (ground (arith, backward_lem v)))
        | inr e ↦
            elim (Bool-cases
              (leb (length bytes) (u64 (get_backward_writable_bytes b + b.read_index)))) [
                | inl f ↦
                    rw (e, f)
                      (moved
                        (ground (arith, backward_lem v, adjust_write_index b v, adjust_size b)))
                | inr f ↦
                    rw (e, f)
                      (larger _ (ground (arith, backward_lem v)) (ground (arith, backward_lem v))
                        (ground (arith, backward_lem v)))
              ]
      ]

module _ (grow : ℕ → ℕ → ℕ) (b : StringBuffer) (bytes : List ℕ) (v : IsValid b)
    (small : b.write_index + length bytes < 2 ^ 61) where
  pub write_index-write_buffer :
      (write_buffer grow b bytes).write_index ≤ b.write_index + length bytes
  unfolding adjust_buffer resize_buffer
  write_index-write_buffer =
      write_buffer_cases grow (λ c. c.write_index ≤ b.write_index + length bytes) b bytes v small
        (λ f. omega arith) (λ f. omega (arith, get_readable_bytes_lem v)) (λ n p q r. ground arith)

-- The cells after `writeBuffer`, with those that `adjust_buffer` stands for.
pub cells-write_buffer :
    (grow : ℕ → ℕ → ℕ)
    → GrowsExactly grow
    → (b : StringBuffer) (bytes : List ℕ) → IsValid b
    → b.write_index + length bytes < 2 ^ 61
    → IsValid (write_buffer grow b bytes)
      × (contents (write_buffer grow b bytes) ≡ contents b ++ bytes)
unfolding Fits
cells-write_buffer grow exact b bytes v small =
    write_buffer_cases grow (λ c. IsValid c × (contents c ≡ contents b ++ bytes)) b bytes v small
      (λ f. (pushed-IsValid b bytes v f, contents-pushed b bytes v f))
      (λ f. (
        pushed-IsValid (adjust_buffer b) bytes (adjust-IsValid b v) f,
        contents-pushed (adjust_buffer b) bytes (adjust-IsValid b v) f
            ∙ ap (λ cs. cs ++ bytes) (contents-adjust b v),
      ))
      λ n doubles below room.
        let w = resize-IsValid grow exact b v n doubles below in
        let f : Fits (resize_buffer grow b n) bytes =
          omega (arith, resized_rest grow exact b v n doubles below) in
        (
          pushed-IsValid (resize_buffer grow b n) bytes w f,
          contents-pushed (resize_buffer grow b n) bytes w f
              ∙ ap (λ cs. cs ++ bytes) (contents-resize grow exact b v n doubles below),
        )

-- `writeBuffer` on a valid buffer, with indices that stay below 2^61 and without a `memcpy` between
-- ranges that overlap, keeps the buffer valid and puts the new bytes behind the readable ones,
-- whichever of its three branches it takes.
pub contents-write_buffer :
    (grow : ℕ → ℕ → ℕ)
    → GrowsExactly grow
    → (b : StringBuffer) (bytes : List ℕ) → IsValid b
    → b.write_index + length bytes < 2 ^ 61
    → (write_buffer grow b bytes).overlapped ≡ false
    → IsValid (write_buffer grow b bytes)
      × (contents (write_buffer grow b bytes) ≡ contents b ++ bytes)
contents-write_buffer grow exact b bytes v small apart =
    cells-write_buffer grow exact b bytes v small
