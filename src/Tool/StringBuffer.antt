-- ===== src/Tool/StringBuffer.antt =====
-- StringBuffer (src/tool/inc/StringBuffer.h, src/tool/src/StringBuffer.cc): a byte buffer over a
-- `std::vector<char>` with a read and a write index of 64 bits.
-- A `const char*` into the buffer is its index; a byte is any number, since bytes are only moved.
-- The allocation policy of `std::vector` is the parameter `grow`: the capacity after `resize n`
-- needed more room than the old capacity `c` is `grow c n`.
pub mod Append
pub mod Consume
pub mod Faults
pub mod History
pub mod Lines
mod Examples
use trantor_net.Base.{
  ℕ, zero, suc, ◌+◌, ◌-◌, ◌*◌, ◌^◌, ◌≤◌, ◌<◌, ◌≡◌, Bool, true, false, ◌&&◌, ◌||◌, Option, none,
  some, List, [], ◌∷◌, ◌++◌, ltb, leb, ◌==◌, if◌then◌else◌, u64, sub64, length, take, replicate,
  slice, write_at,
}

-- `mem` holds the cells of the allocation, `capacity()` of them; cells behind `size()` are memory
-- that the vector owns and has given to no element. `overlapped` is set for good when `memcpy` is called
-- for ranges that overlap: C++ leaves undefined what is in the buffer then.
pub record StringBuffer : Type 0 where
  pub read_index : ℕ
  pub write_index : ℕ
  pub mem : List ℕ
  pub size : ℕ
  pub overlapped : Bool

abbrev pub capacity : StringBuffer → ℕ
capacity b = length b.mem

abbrev pub new_buffer : StringBuffer
new_buffer = record { read_index = 0; write_index = 0; mem = []; size = 0; overlapped = false }

unfoldable pub get_readable_bytes : StringBuffer → ℕ
get_readable_bytes b = sub64 b.write_index b.read_index

unfoldable pub get_backward_writable_bytes : StringBuffer → ℕ
get_backward_writable_bytes b = sub64 (capacity b) b.write_index

unfoldable pub get_forward_writable_bytes : StringBuffer → ℕ
get_forward_writable_bytes b = b.read_index

unfoldable pub get_total_writable_bytes : StringBuffer → ℕ
unfolding get_backward_writable_bytes get_forward_writable_bytes
get_total_writable_bytes b = u64 (get_backward_writable_bytes b + get_forward_writable_bytes b)

-- `peek` and `getReadAddr`, and `end`.
abbrev pub get_read_addr : StringBuffer → ℕ
get_read_addr b = b.read_index

abbrev pub end_addr : StringBuffer → ℕ
end_addr b = b.write_index

-- The bytes that a reader sees: `getReadableBytes()` cells from `peek()` on.
unfoldable pub contents : StringBuffer → List ℕ
unfolding get_readable_bytes
contents b = slice (get_read_addr b) (get_readable_bytes b) b.mem

-- `buffer_.resize(n)`: elements that are new are zero, and a larger allocation is filled with the
-- elements of the old one alone.
module _ (grow : ℕ → ℕ → ℕ) where
  unfoldable pub resize_buffer : StringBuffer → ℕ → StringBuffer
  resize_buffer b n =
      if leb n (capacity b)
      then record b { mem = write_at b.mem b.size (replicate (n - b.size) 0); size = n }
      else record b {
        mem = take b.size b.mem ++ replicate (grow (capacity b) n - b.size) 0;
        size = n;
      }

-- `memcpy` of the readable bytes to the front. It is defined where these do not reach into the bytes
-- before the read index; otherwise the buffer is marked, and its content stands for any other.
unfoldable pub adjust_buffer : StringBuffer → StringBuffer
unfolding contents get_readable_bytes
adjust_buffer b = record b {
  mem = write_at b.mem 0 (contents b);
  read_index = 0;
  write_index = get_readable_bytes b;
  overlapped = b.overlapped || ltb b.read_index (get_readable_bytes b);
}

-- `memcpy(end(), addr, size)`
abbrev pub copy_to_end : StringBuffer → List ℕ → StringBuffer
copy_to_end b bytes = record b { mem = write_at b.mem (end_addr b) bytes }

module _ (grow : ℕ → ℕ → ℕ) where
  -- `writeBuffer(addr, size)`, with the bytes at `addr`.
  unfoldable pub write_buffer : StringBuffer → List ℕ → StringBuffer
  write_buffer b bytes =
      let n = length bytes in
      let c =
        if leb n (get_backward_writable_bytes b)
        then copy_to_end b bytes
        else if leb n (u64 (get_backward_writable_bytes b + get_forward_writable_bytes b))
        then copy_to_end (adjust_buffer b) bytes
        else copy_to_end
            (resize_buffer grow b
              (u64 (sub64 (u64 (capacity b + n)) (get_backward_writable_bytes b) * 2)))
            bytes in
      record c { write_index = u64 (c.write_index + n) }

  -- `append`
  unfoldable pub append : StringBuffer → List ℕ → StringBuffer
  unfolding write_buffer
  append b str = write_buffer b str

unfoldable pub retrieve : StringBuffer → ℕ → StringBuffer
retrieve b n =
    let r = u64 (b.read_index + n) in record b { read_index = if leb r b.size then r else b.size }

unfoldable pub retrieve_all : StringBuffer → StringBuffer
unfolding retrieve get_readable_bytes
retrieve_all b = retrieve b (get_readable_bytes b)

-- The string, and the buffer after.
unfoldable pub retrieve_as_string : StringBuffer → ℕ → List ℕ × StringBuffer
unfolding retrieve
retrieve_as_string b len = (slice (get_read_addr b) len b.mem, retrieve b len)

unfoldable pub retrieve_all_as_string : StringBuffer → List ℕ × StringBuffer
unfolding retrieve_as_string get_readable_bytes
retrieve_all_as_string b = retrieve_as_string b (get_readable_bytes b)

-- `clear()` of the vector keeps its allocation.
unfoldable pub clear : StringBuffer → StringBuffer
clear b = record b { read_index = 0; write_index = 0; size = 0 }

unfoldable pub unwrite : StringBuffer → ℕ → StringBuffer
unfolding get_readable_bytes
unwrite b size =
    if leb size (get_readable_bytes b)
    then record b { write_index = sub64 b.write_index size }
    else b

-- The `if` of the source guards an empty statement: `retrieve` runs whatever it says.
unfoldable pub retrieve_until : StringBuffer → ℕ → StringBuffer
unfolding retrieve
retrieve_until b ptr = retrieve b (sub64 ptr (get_read_addr b))

-- `std::search` for the two bytes of `kCRLF`: the index of the first match, if there is one.
unfoldable pub search_crlf : List ℕ → Option ℕ
search_crlf [] = none
search_crlf (c ∷ []) = none
search_crlf (c ∷ d ∷ rest) =
    let later = search_crlf (d ∷ rest) in
    if (c == b'\r') && (d == b'\n')
    then some 0
    else elim later [ none ↦ none | some i ↦ some (suc i) ]

-- The address of the match, `none` for `NULL`.
unfoldable pub find_crlf : StringBuffer → Option ℕ
unfolding search_crlf contents
find_crlf b = elim (search_crlf (contents b)) [ none ↦ none | some i ↦ some (get_read_addr b + i) ]

-- `readBuffer(addr, size)` into memory that is not null: what is copied, the result, the buffer
-- after. Both branches add all readable bytes to the read index.
unfoldable pub read_buffer_raw : StringBuffer → ℕ → List ℕ × ℕ × StringBuffer
unfolding get_readable_bytes
read_buffer_raw b size =
    let readable = get_readable_bytes b in
    let after = record b { read_index = u64 (b.read_index + readable) } in
    if leb readable size
    then (slice (get_read_addr b) readable b.mem, readable, after)
    else (slice (get_read_addr b) size b.mem, size, after)

-- `readBuffer(data, size)`: what is appended to `data`, the result, the buffer after.
unfoldable pub read_buffer : StringBuffer → ℕ → List ℕ × ℕ × StringBuffer
unfolding get_readable_bytes
read_buffer b size =
    let readable = get_readable_bytes b in
    if leb readable size
    then (
      slice (get_read_addr b) readable b.mem,
      readable,
      record b { read_index = u64 (b.read_index + readable) },
    )
    else (
      slice (get_read_addr b) size b.mem,
      size,
      record b { read_index = u64 (b.read_index + size) },
    )
