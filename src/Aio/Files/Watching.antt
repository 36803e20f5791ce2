-- ===== src/Aio/Files/Watching.antt =====
-- What an operator that reads is waiting for.
use Prim.Native.Nat.{bit_and, bit_or}
use trantor_net.Base.{
  ℕ, ◌+◌, ◌^◌, ◌≤◌, ◌<◌, ◌≡◌, ◌⊎◌, inl, inr, refl, sym, ◌∙◌, ap, subst, Bool, true, false, Option,
  none, some, List, [], ◌∷◌, length, length-append, arith, if_cases, ltb, leb, if◌then◌else◌,
}
use trantor_net.Tool.StringBuffer.{get_readable_bytes, contents, write_buffer}
use trantor_net.Tool.StringBuffer.Append.{GrowsExactly, cells-write_buffer}
use trantor_net.Tcp.Socket.Taken.{readable_lem}
use trantor_net.Net.Pipe.{complement, has_event}
use trantor_net.Aio.Operator.{
  Mode, Finish, Effect, insert_reader, insert_writer, erase_reader, erase_writer, trig_read,
  registered, deleted, closed, wakeup, accepted, sent, received, finish, Operator, note, wake,
  set_events, enable_reading, clear_fd, high_water_level, handle, handle_read, take_in, put_in,
  at_end, is_writer,
}
use trantor_net.Aio.Operator.Invariant.{received_of, told_of, Inv}
use trantor_net.Aio.Files.{
  Call, read_call, write_call, close_call, register_call, readable, writable, event_of,
}
use trantor_net.Aio.Files.Keeps.{
  Keeps, IsConfined, KeepsIn, read_fd-Keeps, write_fd-Keeps, close_fd-Keeps, register_fd-Keeps,
  handle_write-Keeps, deliver-Keeps, receive-Keeps,
}

-- Only these masks come from POLLIN | POLLPRI and POLLOUT.
abbrev pub IsMask : ℕ → Type 0
IsMask n = (n ≡ 0) ⊎ (n ≡ 3) ⊎ (n ≡ 4) ⊎ (n ≡ 7)

at_mask : (P : ℕ → Type 0) → P 0 → P 3 → P 4 → P 7 → (n : ℕ) → IsMask n → P n
at_mask P a b c d n h = elim h [
  | inl e ↦ subst P (sym e) a
  | inr (inl e) ↦ subst P (sym e) b
  | inr (inr (inl e)) ↦ subst P (sym e) c
  | inr (inr (inr e)) ↦ subst P (sym e) d
]

pub or_read : (n : ℕ) → IsMask n → IsMask (bit_or n 3) × (has_event (bit_or n 3) 1 ≡ true)
unfolding has_event
or_read =
    at_mask (λ n. IsMask (bit_or n 3) × (has_event (bit_or n 3) 1 ≡ true)) (inr (inl refl), refl)
      (inr (inl refl), refl) (inr (inr (inr refl)), refl) (inr (inr (inr refl)), refl)

pub or_write : (n : ℕ) → IsMask n → IsMask (bit_or n 4) × (has_event (bit_or n 4) 1 ≡ has_event n 1)
unfolding has_event
or_write =
    at_mask (λ n. IsMask (bit_or n 4) × (has_event (bit_or n 4) 1 ≡ has_event n 1))
      (inr (inr (inl refl)), refl) (inr (inr (inr refl)), refl) (inr (inr (inl refl)), refl)
      (inr (inr (inr refl)), refl)

no_write :
    (n : ℕ)
    → IsMask n
    → IsMask (bit_and n (complement 4)) × (has_event (bit_and n (complement 4)) 1 ≡ has_event n 1)
unfolding has_event
no_write =
    at_mask
      (λ n.
        IsMask (bit_and n (complement 4))
        × (has_event (bit_and n (complement 4)) 1 ≡ has_event n 1))
      (inl refl, refl) (inr (inl refl), refl) (inl refl, refl) (inr (inl refl), refl)

no_read : (n : ℕ) → IsMask n → IsMask (bit_and n (complement 3))
no_read =
    at_mask (λ n. IsMask (bit_and n (complement 3))) (inl refl) (inl refl) (inr (inr (inl refl)))
      (inr (inr (inl refl)))

-- The end of the file has been seen, the loop waits for the file to be ready, somebody writes it
-- (`waits`), or as much has come from it as fills the input buffer.
pub data IsAlert {U : Type 0} (waits : Bool) (o : Operator U) : Type 0 where
  at_eof : o.file_read_eof ≡ true → IsAlert waits o
  polling : has_event o.events 0x1 ≡ true → IsAlert waits o
  waiting : waits ≡ true → IsAlert waits o
  filled : high_water_level ≤ length (received_of o.effects) → IsAlert waits o

module _ {U : Type 0} where
  received_more :
      (e : Effect U) (es : List (Effect U))
      → length (received_of es) ≤ length (received_of (e ∷ es))
  received_more (received bytes) es = omega (arith, length-append (received_of es) bytes)
  received_more (accepted bytes) es = omega arith
  received_more (sent bytes) es = omega arith
  received_more (finish f) es = omega arith
  received_more wakeup es = omega arith
  received_more trig_read es = omega arith
  received_more insert_reader es = omega arith
  received_more insert_writer es = omega arith
  received_more erase_reader es = omega arith
  received_more erase_writer es = omega arith
  received_more registered es = omega arith
  received_more closed es = omega arith
  received_more deleted es = omega arith

  received-wake : (b : Bool) (es : List (Effect U)) → received_of (wake b es) ≡ received_of es
  received-wake true es = refl
  received-wake false es = refl

  abbrev pub IsWatching : Bool → Operator U → Type 0
  IsWatching waits o = IsMask o.events × IsAlert waits o

  -- An operator of which nothing has been taken back.
  pub still_watched :
      (waits : Bool) (o p : Operator U)
      → (o.file_read_eof ≡ true → p.file_read_eof ≡ true)
      → (has_event o.events 0x1 ≡ true → has_event p.events 0x1 ≡ true)
      → length (received_of o.effects) ≤ length (received_of p.effects)
      → IsAlert waits o
      → IsAlert waits p
  still_watched waits o p eof event more (at_eof e) = at_eof (eof e)
  still_watched waits o p eof event more (polling e) = polling (event e)
  still_watched waits o p eof event more (waiting e) = waiting e
  still_watched waits o p eof event more (filled h) = filled (omega (arith, h, more))

  note-IsWatching :
      (waits : Bool) (e : Effect U) (o : Operator U)
      → IsWatching waits o
      → IsWatching waits (note e o)
  note-IsWatching waits e o (m, a) =
      (m, still_watched waits o (note e o) (λ z. z) (λ z. z) (received_more e o.effects) a)

  set_events-IsWatching :
      (waits : Bool) (n : ℕ) (o : Operator U)
      → IsMask n
      → (has_event o.events 0x1 ≡ true → has_event n 0x1 ≡ true)
      → IsAlert waits o
      → IsWatching waits (set_events n o)
  unfolding set_events
  set_events-IsWatching waits n o m event a = (
    m,
    still_watched waits o (set_events n o) (λ z. z) event
        (omega (arith, ap length (received-wake o.registered_to_poll o.effects))) a,
  )

  set_filled :
      (waits : Bool) (n : ℕ) (o : Operator U)
      → IsMask n
      → high_water_level ≤ length (received_of o.effects)
      → IsWatching waits (set_events n o)
  unfolding set_events
  set_filled waits n o m h =
      (m, filled (omega (arith, h, ap length (received-wake o.registered_to_poll o.effects))))

  -- No call of the kernel fails, the bytes fit the buffers, and the user asks for some.
  abbrev pub FitsIn : Option (List ℕ) → Operator U → Type 0
  FitsIn none o = ⊥
  FitsIn (some bytes) o = o.input_buffer.write_index + length bytes < 2 ^ 61

  abbrev pub IsFitting : Call U → Operator U → Type 0
  IsFitting (read_call n cb) o = 0 < n
  IsFitting (write_call bytes cb) o = o.output_buffer.write_index + length bytes < 2 ^ 61
  IsFitting (readable res) o = FitsIn res o
  IsFitting (writable none) o = ⊥
  IsFitting _ o = Unit

  -- Once reading is enabled the loop waits for the file.
  pub enable_reading-polls :
      (o : Operator U)
      → IsMask o.events
      → IsMask (enable_reading o).events × (has_event (enable_reading o).events 0x1 ≡ true)
  unfolding set_events
  enable_reading-polls o m = or_read o.events m

  pub enable-IsWatching :
      (waits : Bool) (o : Operator U) → IsWatching waits o → IsWatching waits (enable_reading o)
  enable-IsWatching waits o (m, a) =
      let (m', e) = or_read o.events m in set_events-IsWatching waits _ o m' (λ _. e) a

  clear_fd-IsWatching :
      (waits : Bool) (o : Operator U) → IsWatching waits o → IsWatching waits (clear_fd o)
  unfolding clear_fd
  clear_fd-IsWatching waits o h = note-IsWatching waits deleted _ (
      note-IsWatching waits closed _
        (note-IsWatching waits (if is_writer o.fd_mode then erase_writer else erase_reader) o h))

  pub IsWatching-Keeps : (waits : Bool) → Keeps (IsWatching waits)
  IsWatching-Keeps waits = record {
    moves = λ a b n cb d r o (m, h). (m, still_watched waits o _ (λ z. z) (λ z. z) (omega arith) h);
    notes = λ e o _ h. note-IsWatching waits e o h;
    reads = λ o h. enable-IsWatching waits o h;
    writes = λ o (m, h).
        let (m', e) = or_write o.events m in set_events-IsWatching waits _ o m' (λ z. e ∙ z) h;
    rests = λ o (m, h).
        let (m', e) = no_write o.events m in set_events-IsWatching waits _ o m' (λ z. e ∙ z) h;
    clears = λ o h. clear_fd-IsWatching waits o h;
  }

  module _ (grow : ℕ → ℕ → ℕ) (exact : GrowsExactly grow)
      (run_user : Finish U → Operator U → Operator U) (confined : IsConfined run_user) where
    put_in-IsWatching :
        (m : Mode) (waits : Bool) (bytes : List ℕ) (o : Operator U)
        → o.input_buffer.write_index + length bytes < 2 ^ 61
        → Inv m o
        → IsWatching waits o
        → IsWatching waits (put_in grow run_user bytes o)
    unfolding put_in
    put_in-IsWatching m waits bytes o small v h =
        let (valid, joined) = cells-write_buffer grow exact o.input_buffer bytes v.valid_in small in
        let got : Operator U = record o {
          input_buffer = write_buffer grow o.input_buffer bytes;
          effects = received bytes ∷ o.effects;
        } in
        let (mask, alert) =
          receive-Keeps (IsWatching waits) (IsWatching-Keeps waits) grow run_user confined bytes o
            h in
        if_cases (IsWatching waits)
          (leb high_water_level (get_readable_bytes (write_buffer grow o.input_buffer bytes))) _ _
          (λ full. set_filled waits _ got (no_read o.events mask) (
            ground (
              arith,
              full,
              readable_lem valid,
              ap length joined,
              length-append (contents o.input_buffer) bytes,
              length-append (received_of o.effects) bytes,
              ap length v.taken,
              length-append (told_of o.effects) (contents o.input_buffer),
            )))
          (λ _. (mask, alert))

    take_in-IsWatching :
        (m : Mode) (res : Option (List ℕ)) (waits b : Bool) (o : Operator U)
        → (waits ≡ true → b ≡ true)
        → FitsIn res o
        → Inv m o
        → IsWatching b o
        → KeepsIn (IsWatching b) (take_in grow run_user res waits o)
    unfolding take_in at_end set_events
    take_in-IsWatching m none waits b o told f v h = tt
    take_in-IsWatching m (some []) waits b o told f v (mask, a) =
        if_cases (IsWatching b) waits _ _ (λ e. (no_read o.events mask, waiting (told e)))
          (λ _.
            deliver-Keeps (IsWatching b) (IsWatching-Keeps b) grow run_user confined _ _
              (no_read o.events mask, at_eof refl))
    take_in-IsWatching m (some (x ∷ bytes)) waits b o told f v h =
        deliver-Keeps (IsWatching b) (IsWatching-Keeps b) grow run_user confined _ _
          (put_in-IsWatching m b (x ∷ bytes) o f v h)

    -- A call of an operator, with what the manager says of writers, or less.
    pub handle-IsWatching :
        (m : Mode) (c : Call U) (waits b : Bool) (o : Operator U)
        → (waits ≡ true → b ≡ true)
        → IsFitting c o
        → Inv m o
        → IsWatching b o
        → KeepsIn (IsWatching b) (handle grow run_user (event_of c waits) o)
    unfolding handle handle_read
    handle-IsWatching m (read_call n cb) waits b o told f v h =
        read_fd-Keeps (IsWatching b) (IsWatching-Keeps b) grow run_user confined n cb o h
    handle-IsWatching m (write_call bytes cb) waits b o told f v h =
        write_fd-Keeps (IsWatching b) (IsWatching-Keeps b) grow run_user confined bytes cb o h
    handle-IsWatching m close_call waits b o told f v h =
        close_fd-Keeps (IsWatching b) (IsWatching-Keeps b) o h
    handle-IsWatching m register_call waits b o told f v h =
        register_fd-Keeps (IsWatching b) (IsWatching-Keeps b) grow run_user confined o h
    handle-IsWatching m (readable res) waits b o told f v h =
        if_cases (KeepsIn (IsWatching b)) (ltb (get_readable_bytes o.input_buffer) high_water_level)
          _ (some o) (λ _. take_in-IsWatching m res waits b o told f v h) (λ _. h)
    handle-IsWatching m (writable res) waits b o told f v h =
        handle_write-Keeps (IsWatching b) (IsWatching-Keeps b) res o h
