-- ===== src/Tcp/Socket/Taken.antt =====
-- What a write takes of the buffer.
use Prim.Native.Nat.{min}
use trantor_net.Base.{
  ℕ, ◌-◌, ◌≤◌, ◌≡◌, ◌≢◌, refl, sym, ◌∙◌, ap, false, some, List, [], ◌∷◌, ◌++◌, ◌==◌, ltb, arith,
  length, take, take-append-drop, take-slice, length-take,
}
use trantor_net.Tool.StringBuffer.{StringBuffer, contents, retrieve, get_readable_bytes}
use trantor_net.Tool.StringBuffer.Append.{
  IsValid, contents_lem, length-contents, get_readable_bytes_lem,
}
use trantor_net.Tool.StringBuffer.Consume.{contents-retrieve}
use trantor_net.Tcp.Socket.{socket_write}

pub readable_lem : {b : StringBuffer} → IsValid b → get_readable_bytes b ≡ length (contents b)
readable_lem v = get_readable_bytes_lem v ∙ sym (length-contents v)

-- The kernel takes a prefix of the readable bytes, and the rest stays readable.
pub socket_write_lem :
    (n : ℕ) (b : StringBuffer)
    → IsValid b
    → let (bytes, c) = socket_write (some n) b in
      IsValid c
      × (bytes ++ contents c ≡ contents b)
      × (length bytes ≡ min n (min 0x7ffff000 (length (contents b))))
unfolding socket_write
socket_write_lem n b v =
    let taken = min n (min 0x7ffff000 (get_readable_bytes b)) in
    let few : taken ≤ length (contents b) = omega (arith, readable_lem v) in
    let (valid, rest) = contents-retrieve b taken v few in
    let first =
      ap (take taken) (contents_lem v)
      ∙ take-slice b.mem b.read_index taken (b.write_index - b.read_index)
          (omega (arith, length-contents v)) in
    (
      valid,
      ap (λ (xs : List ℕ). xs ++ contents (retrieve b taken)) (sym first)
          ∙ ap (λ (xs : List ℕ). take taken (contents b) ++ xs) rest
          ∙ take-append-drop taken (contents b),
      ap length (sym first) ∙ omega (arith, length-take taken (contents b), readable_lem v),
    )

pub nil_of_length : (xs : List ℕ) → length xs ≡ 0 → xs ≡ []
nil_of_length [] e = refl
nil_of_length (x ∷ xs) e = absurd (omega arith)

-- A buffer with readable bytes is not empty.
pub busy_length :
    (b : StringBuffer) → IsValid b → (get_readable_bytes b == 0) ≡ false → contents b ≢ []
busy_length b v e z = ground (arith, readable_lem v, ap length z)

pub nil_of_append_left : (xs ys : List ℕ) → xs ++ ys ≡ [] → xs ≡ []
nil_of_append_left [] ys e = refl
nil_of_append_left (x ∷ xs) ys e = cc

pub nil_of_append : (xs ys : List ℕ) → xs ++ ys ≡ [] → ys ≡ []
nil_of_append [] ys e = e
nil_of_append (x ∷ xs) ys e = cc

pub empty_length :
    (b : StringBuffer) → IsValid b → ltb 0 (get_readable_bytes b) ≡ false → contents b ≡ []
empty_length b v e = nil_of_length (contents b) (ground (arith, readable_lem v))
