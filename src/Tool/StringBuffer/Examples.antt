-- ===== src/Tool/StringBuffer/Examples.antt =====
-- The theorems about StringBuffer at concrete buffers, and tests.
use trantor_net.Base.{
  ℕ, true, false, ◌+◌, ◌^◌, ◌≤◌, ◌≡◌, refl, ◌++◌, List, [], ◌∷◌, arith, length, slice, write_at,
}
use trantor_net.Tool.StringBuffer.{
  StringBuffer, contents, write_buffer, read_buffer, retrieve, retrieve_until, find_crlf,
  get_readable_bytes, retrieve_all_as_string, get_backward_writable_bytes,
  get_forward_writable_bytes, adjust_buffer, resize_buffer,
}
use trantor_net.Tool.StringBuffer.Append.{IsValid, contents-write_buffer}
use trantor_net.Tool.StringBuffer.Faults.{retrieve_overtakes}
use trantor_net.Tool.StringBuffer.History.{Op, put, get, run, queue_run, run_refines}
use trantor_net.Tool.StringBuffer.Lines.{crlf, NoneBefore, take_line}

-- The readable bytes are "AB"; one byte has been read, and one cell is free.
abbrev some_read : StringBuffer
some_read = record {
  read_index = 1;
  write_index = 3;
  mem = 7 ∷ b'A' ∷ b'B' ∷ 0 ∷ [];
  size = 4;
  overlapped = false;
}

abbrev exact_grow : ℕ → ℕ → ℕ
exact_grow c n = n

some_read-IsValid : IsValid some_read
some_read-IsValid = omega arith

-- Two bytes fit after a move to the front, whose ranges overlap, four only in a larger allocation.
write_branches :
    (write_buffer exact_grow some_read (1 ∷ 2 ∷ []) ≡ record {
      read_index = 0;
      write_index = 4;
      mem = b'A' ∷ b'B' ∷ 1 ∷ 2 ∷ [];
      size = 4;
      overlapped = true;
    })
    × ((write_buffer exact_grow some_read (1 ∷ 2 ∷ 3 ∷ 4 ∷ [])).size ≡ 14)
unfolding write_buffer contents get_backward_writable_bytes get_forward_writable_bytes adjust_buffer
    resize_buffer write_at
write_branches = (refl, refl)

whole_content : (retrieve_all_as_string some_read).0 ≡ b'A' ∷ b'B' ∷ []
unfolding retrieve_all_as_string
whole_content = refl

-- One byte is readable behind three that were read: a move to the front does not overlap.
abbrev roomy : StringBuffer
roomy = record {
  read_index = 3;
  write_index = 4;
  mem = 7 ∷ 7 ∷ 7 ∷ b'A' ∷ [];
  size = 4;
  overlapped = false;
}

roomy-IsValid : IsValid roomy
roomy-IsValid = omega arith

contents-write_buffer_example :
    IsValid (write_buffer exact_grow roomy (9 ∷ 8 ∷ []))
    × (contents (write_buffer exact_grow roomy (9 ∷ 8 ∷ [])) ≡ contents roomy ++ (9 ∷ 8 ∷ []))
unfolding write_buffer get_readable_bytes get_backward_writable_bytes get_forward_writable_bytes
    adjust_buffer
contents-write_buffer_example =
    contents-write_buffer exact_grow (λ c n h. refl) roomy (9 ∷ 8 ∷ []) roomy-IsValid (omega arith)
      refl

retrieve_overtakes_example : 2 ^ 64 ≤ get_readable_bytes (retrieve some_read 3) + 4
unfolding contents
retrieve_overtakes_example =
    retrieve_overtakes some_read 3 some_read-IsValid (omega arith) (omega arith) (omega arith)

abbrev history : List Op
history = put (1 ∷ 2 ∷ 3 ∷ []) ∷ get 4 ∷ put (4 ∷ []) ∷ get 9 ∷ []

history_apart : (run exact_grow roomy history).1.overlapped ≡ false
unfolding run write_buffer get_readable_bytes get_backward_writable_bytes get_forward_writable_bytes
    adjust_buffer resize_buffer read_buffer contents write_at retrieve
history_apart = refl

run_refines_example :
    let (out, c) = run exact_grow roomy history in
    (out, contents c) ≡ queue_run (contents roomy) history
run_refines_example =
    run_refines exact_grow (λ c n h. refl) roomy history roomy-IsValid (omega arith) history_apart

-- "A", a line end, and "B".
abbrev two_lines : StringBuffer
two_lines = record {
  read_index = 1;
  write_index = 5;
  mem = 0 ∷ b'A' ∷ b'\r' ∷ b'\n' ∷ b'B' ∷ [];
  size = 5;
  overlapped = false;
}

take_line_example :
    let line = slice 1 1 two_lines.mem in
    (contents two_lines ≡ (line ++ crlf) ++ contents (retrieve_until two_lines 4))
    × NoneBefore (length line) (contents two_lines)
    × IsValid (retrieve_until two_lines 4)
unfolding find_crlf
take_line_example = take_line two_lines 2 (omega arith) refl
