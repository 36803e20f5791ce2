-- ===== src/Tool/StringBuffer/Faults.antt =====
-- Where the buffer loses, repeats or invents bytes.
use trantor_net.Base.{
  ℕ, ◌+◌, ◌-◌, ◌*◌, ◌^◌, ◌≤◌, ◌<◌, ◌≡◌, ◌≢◌, sym, ◌∙◌, ap, ◌++◌, List, ◌∷◌, arith, length,
  replicate, write_at, length-write_at, get_elem?, some, length-take, length-append,
  length-replicate, slice-cons, slice-write_at, take-replicate,
}
use trantor_net.Tool.StringBuffer.{
  StringBuffer, capacity, contents, retrieve, read_buffer_raw, clear, write_buffer,
  get_readable_bytes, get_backward_writable_bytes, get_forward_writable_bytes, resize_buffer,
}
use trantor_net.Tool.StringBuffer.Append.{IsValid, GrowsExactly, contents_lem, length-contents}
use trantor_net.Tool.StringBuffer.Consume.{read_buffer_raw_lem}

-- When raw memory takes fewer bytes than there are, the rest is lost: what was copied and what
-- can still be read do not make up the bytes that there were.
pub read_buffer_raw_loses :
    (b : StringBuffer) (size : ℕ)
    → IsValid b
    → size < length (contents b)
    → (read_buffer_raw b size).0 ++ contents (read_buffer_raw b size).2 ≢ contents b
read_buffer_raw_loses b size v h e =
    let (w, out, count, gone) = read_buffer_raw_lem b size v in
    absurd (
      omega (
        arith,
        ap length e,
        length-append (read_buffer_raw b size).0 (contents (read_buffer_raw b size).2),
        ap length gone,
        ap length out,
        length-take size (contents b),
      ))

-- `retrieve` is held back by `size()` and not by the write index. Past the readable bytes the read
-- index overtakes the write index, and the buffer claims nearly 2^64 readable bytes.
pub retrieve_overtakes :
    (b : StringBuffer) (n : ℕ)
    → IsValid b
    → length (contents b) < n
    → b.write_index < b.size
    → b.read_index + n < 2 ^ 64
    → 2 ^ 64 ≤ get_readable_bytes (retrieve b n) + capacity b
unfolding retrieve get_readable_bytes
retrieve_overtakes b n v h room small = ground (arith, length-contents v)

-- Where `retrieve` is handed the result -1 of a failed `write`, it steps back over a byte that was
-- taken before, and that byte is readable once more.
pub retrieve_minus_one :
    (b : StringBuffer)
    → IsValid b
    → 0 < b.read_index
    → (x : ℕ) × (get_elem? b.mem (b.read_index - 1) ≡ some x)
      × (contents (retrieve b (2 ^ 64 - 1)) ≡ x ∷ contents b)
retrieve_minus_one b v h =
    let (x, found, e) =
      slice-cons b.mem (b.read_index - 1) (b.write_index - b.read_index) (omega arith) b.read_index
        (b.write_index - (b.read_index - 1)) (omega arith) (omega arith) in
    (x, found, rw stepped (contents_lem back) ∙ e ∙ ap (◌∷◌ x) (sym (contents_lem v)))
  where
    stepped : retrieve b (2 ^ 64 - 1) ≡ record b { read_index = b.read_index - 1 }
    stepped = unfold retrieve in ground arith

    back : IsValid (record b { read_index = b.read_index - 1 })
    back = omega arith

-- A buffer used again after `clear`.
module _ (grow : ℕ → ℕ → ℕ) (exact : GrowsExactly grow) (b : StringBuffer) (v : IsValid b)
    (xs ys : List ℕ) (room : length xs ≤ capacity b) (full : capacity b < length xs + length ys)
    (small : length xs + length ys < 2 ^ 61) where
  abbrev reused : StringBuffer
  reused = record {
    read_index = 0;
    write_index = length xs;
    mem = write_at b.mem 0 xs;
    size = 0;
    overlapped = b.overlapped;
  }

  write_cleared : write_buffer grow (clear b) xs ≡ reused
  unfolding write_buffer clear get_backward_writable_bytes
  write_cleared = ground (arith, room, full, small)

  abbrev zeros : List ℕ
  zeros = replicate ((length xs + length ys) * 2) 0

  write_reused : write_buffer grow reused ys ≡ record {
    read_index = 0;
    write_index = length xs + length ys;
    mem = write_at zeros (length xs) ys;
    size = (length xs + length ys) * 2;
    overlapped = b.overlapped;
  }
  unfolding write_buffer resize_buffer get_backward_writable_bytes get_forward_writable_bytes
  write_reused = ground (
    arith,
    room,
    full,
    small,
    length-write_at b.mem 0 xs,
    exact (capacity b) ((length xs + length ys) * 2),
  )

  room_for : length xs + length ys ≤ length zeros
  room_for = omega (arith, length-replicate {A = ℕ} ((length xs + length ys) * 2) 0)

  -- After `clear` the vector has no elements and keeps its allocation. Bytes written into that are
  -- no elements, and the next write that needs a larger allocation puts zeros in their place.
  pub clear_loses :
      contents (write_buffer grow (write_buffer grow (clear b) xs) ys)
      ≡ replicate (length xs) 0 ++ ys
  clear_loses =
      ap (λ c. contents (write_buffer grow c ys)) write_cleared
      ∙ ap contents write_reused
      ∙ contents_lem (
          omega (
            arith,
            length-replicate {A = ℕ} ((length xs + length ys) * 2) 0,
            length-write_at zeros (length xs) ys,
          ))
      ∙ slice-write_at zeros 0 (length xs) ys (omega (arith, room_for)) (length xs) _ (omega arith)
          (omega arith)
      ∙ ap (λ cs. cs ++ ys)
          (take-replicate (length xs) ((length xs + length ys) * 2) 0 (omega arith))
