-- ===== src/Tool/StringBuffer/History.antt =====
-- The buffer as a queue of bytes, over any sequence of writes and reads.
use trantor_net.Base.{
  ℕ, false, ◌+◌, ◌^◌, ◌<◌, ◌≡◌, refl, sym, ◌∙◌, ap, ◌++◌, List, [], ◌∷◌, arith, length, take, drop,
  length-append, drop_of_take_append,
}
use trantor_net.Tool.StringBuffer.{StringBuffer, contents, write_buffer, read_buffer}
use trantor_net.Tool.StringBuffer.Append.{
  IsValid, GrowsExactly, cells-write_buffer, write_index-write_buffer,
}
use trantor_net.Tool.StringBuffer.Consume.{read_buffer_lem}

pub data Op : Type 0 where
  put : List ℕ → Op
  get : ℕ → Op

-- What the reads of a history return, in one string, and the buffer after.
module _ (grow : ℕ → ℕ → ℕ) where
  unfoldable pub run : StringBuffer → List Op → List ℕ × StringBuffer
  run b [] = ([], b)
  run b (put bytes ∷ ops) = run (write_buffer grow b bytes) ops
  run b (get size ∷ ops) =
      let (out, n, c) = read_buffer b size in let (rest, d) = run c ops in (out ++ rest, d)

-- The specification: a list of bytes.
pub queue_run : List ℕ → List Op → List ℕ × List ℕ
queue_run q [] = ([], q)
queue_run q (put bytes ∷ ops) = queue_run (q ++ bytes) ops
queue_run q (get size ∷ ops) =
    let (rest, d) = queue_run (drop size q) ops in (take size q ++ rest, d)

abbrev pub written : List Op → List ℕ
written [] = []
written (put bytes ∷ ops) = bytes ++ written ops
written (get size ∷ ops) = written ops

write_index-read_buffer :
    (b : StringBuffer) (size : ℕ) → (read_buffer b size).2.write_index ≡ b.write_index
unfolding read_buffer
write_index-read_buffer b size = ground arith

contents-read_buffer :
    (b : StringBuffer) (size : ℕ)
    → IsValid b
    → contents (read_buffer b size).2 ≡ drop size (contents b)
contents-read_buffer b size v =
    let r = read_buffer_lem b size v in
    drop_of_take_append size (contents b) (contents (read_buffer b size).2)
      (ap (λ (o : List ℕ). o ++ contents (read_buffer b size).2) (sym r.1) ∙ r.3)

cells-run :
    (grow : ℕ → ℕ → ℕ)
    → GrowsExactly grow
    → (b : StringBuffer) (ops : List Op) → IsValid b
    → b.write_index + length (written ops) < 2 ^ 61
    → let (out, c) = run grow b ops in (out, contents c) ≡ queue_run (contents b) ops
unfolding run queue_run
cells-run grow exact b [] v small = refl
cells-run grow exact b (put bytes ∷ ops) v small =
    let w =
      cells-write_buffer grow exact b bytes v (omega (arith, length-append bytes (written ops))) in
    rw (← w.1) (
      cells-run grow exact (write_buffer grow b bytes) ops w.0 (
        omega (
          arith,
          length-append bytes (written ops),
          write_index-write_buffer grow b bytes v
              (omega (arith, length-append bytes (written ops))),
        )))
cells-run grow exact b (get size ∷ ops) v small =
    let r = read_buffer_lem b size v in
    rw (← r.1, ← contents-read_buffer b size v)
      (ap (λ (p : List ℕ × List ℕ). ((read_buffer b size).0 ++ p.0, p.1))
        (cells-run grow exact (read_buffer b size).2 ops r.0
          (omega (arith, write_index-read_buffer b size))))

-- Over any history of writes and reads on a valid buffer that writes fewer than 2^61 bytes, in which
-- no `memcpy` is made between ranges that overlap, the reads return what the reads of a queue of bytes
-- return, and the buffer holds what the queue holds.
pub run_refines :
    (grow : ℕ → ℕ → ℕ)
    → GrowsExactly grow
    → (b : StringBuffer) (ops : List Op) → IsValid b
    → b.write_index + length (written ops) < 2 ^ 61
    → (run grow b ops).1.overlapped ≡ false
    → let (out, c) = run grow b ops in (out, contents c) ≡ queue_run (contents b) ops
run_refines grow exact b ops v small apart = cells-run grow exact b ops v small
