-- ===== src/Aio/Files/Keeps.antt =====
-- What every call of an operator keeps, when the changes that it is made of keep it.
use trantor_net.Base.{
  ℕ, Bool, true, false, ◌≡◌, Option, none, some, List, [], ◌∷◌, if_cases, ltb, not, ◌==◌,
}
use trantor_net.Tool.StringBuffer.{StringBuffer, get_readable_bytes, read_buffer, write_buffer}
use trantor_net.Tcp.Socket.{socket_write}
use trantor_net.Aio.Operator.{
  Finish, write_finish, Effect, insert_reader, insert_writer, erase_reader, erase_writer, closed,
  deleted, sent, received, accepted, finish, trig_read, registered, Operator, Event, read_request,
  write_request, close_request, register_request, read_event, write_event, is_writer, note,
  enable_reading, disable_reading, enable_writing, disable_writing, register_fd, clear_fd, close_fd,
  trig, handle_write, call, call_write, read_fd, write_fd, deliver, put_in, at_end, take_in,
  handle_read, handle, high_water_level,
}

module _ {U : Type 0} where
  -- The calls that leave the manager and the standing of the file as they are.
  abbrev pub IsPlain : Effect U → Type 0
  IsPlain insert_reader = ⊥
  IsPlain insert_writer = ⊥
  IsPlain erase_reader = ⊥
  IsPlain erase_writer = ⊥
  IsPlain closed = ⊥
  IsPlain deleted = ⊥
  IsPlain _ = Unit

  -- The changes that the calls of a user are made of.
  pub record Keeps (P : Operator U → Type 0) : Type 0 where
    pub moves :
        (out_buffer in_buffer : StringBuffer) (n : ℕ) (cb : Option U) (ends to_poll : Bool)
        (o : Operator U)
        → P o
        → P (record o {
          output_buffer = out_buffer;
          input_buffer = in_buffer;
          file_read_length = n;
          file_read_finish_cb = cb;
          file_write_end = ends;
          registered_to_poll = to_poll;
        })
    pub notes : (e : Effect U) (o : Operator U) → IsPlain e → P o → P (note e o)
    pub reads : (o : Operator U) → P o → P (enable_reading o)
    pub writes : (o : Operator U) → P o → P (enable_writing o)
    pub rests : (o : Operator U) → P o → P (disable_writing o)
    pub clears : (o : Operator U) → P o → P (clear_fd o)

  -- Those that only the loop makes; the end of the file counts only when nobody waits to write.
  pub record KeepsRead (waits : Bool) (P : Operator U → Type 0) : Type 0 where
    pub pauses : (o : Operator U) → P o → P (disable_reading o)
    pub ends : waits ≡ false → (o : Operator U) → P o → P (record o { file_read_eof = true })

  abbrev pub waits_of : Event U → Bool
  waits_of (read_event res waits) = waits
  waits_of _ = true

  -- Callbacks work on their operator through its calls only.
  abbrev pub IsConfined : (Finish U → Operator U → Operator U) → Type 1
  IsConfined run_user =
      (P : Operator U → Type 0) → Keeps P → (f : Finish U) (o : Operator U) → P o → P (run_user f o)

  abbrev pub KeepsIn : (Operator U → Type 0) → Option (Operator U) → Type 0
  KeepsIn P none = Unit
  KeepsIn P (some o) = P o

  module _ (P : Operator U → Type 0) (k : Keeps P) where
    pub close_fd-Keeps : (o : Operator U) → P o → P (close_fd o)
    unfolding close_fd
    close_fd-Keeps o h =
        if_cases P (is_writer o.fd_mode) _ _
          (λ _.
            if_cases P (get_readable_bytes o.output_buffer == 0) _ _ (λ _. k.clears o h)
              (λ _. k.moves _ _ _ _ true _ o h))
          (λ _. k.clears o h)

    trig-Keeps :
        (res : Option ℕ) (bytes : List ℕ) (o : Operator U)
        → P o
        → P (record o { effects = trig res bytes o.effects })
    unfolding trig
    trig-Keeps none bytes o h = k.notes trig_read o tt h
    trig-Keeps (some n) [] o h = h
    trig-Keeps (some n) (x ∷ bytes) o h = k.notes trig_read o tt h

    pub handle_write-Keeps : (res : Option ℕ) (o : Operator U) → P o → P (handle_write res o)
    unfolding handle_write
    handle_write-Keeps res o h =
        let (bytes, b) = socket_write res o.output_buffer in
        let took = trig-Keeps res bytes _ (
          k.notes (sent bytes) _ tt (
            k.moves b o.input_buffer o.file_read_length o.file_read_finish_cb o.file_write_end
              o.registered_to_poll o h)) in
        if_cases P (get_readable_bytes b == 0) _ _
          (λ _.
            if_cases P o.file_write_end _ _ (λ _. k.clears _ (k.rests _ took))
              (λ _. k.rests _ took))
          (λ _. took)

    module _ (grow : ℕ → ℕ → ℕ) (run_user : Finish U → Operator U → Operator U)
        (confined : IsConfined run_user) where
      pub call-Keeps : (f : Finish U) (o : Operator U) → P o → P (call grow run_user f o)
      call-Keeps f o h = confined P k f _ (k.notes (finish f) o tt h)

      -- Taking something out of the input buffer.
      reading-Keeps :
          (n : ℕ) (o : Operator U)
          → P o
          → P (record o { input_buffer = (read_buffer o.input_buffer n).2 })
      reading-Keeps n o h =
          k.moves o.output_buffer _ o.file_read_length o.file_read_finish_cb o.file_write_end
            o.registered_to_poll o h

      pub read_fd-Keeps : (n : ℕ) (cb : U) (o : Operator U) → P o → P (read_fd grow run_user n cb o)
      unfolding read_fd
      read_fd-Keeps n cb o h =
          let (content, size, b) = read_buffer o.input_buffer n in
          let told =
            if_cases P o.file_read_eof _ _ (λ _. call-Keeps _ _ (reading-Keeps n o h))
              (λ _.
                if_cases P (not (size == 0)) _ _ (λ _. call-Keeps _ _ (reading-Keeps n o h))
                  (λ _.
                    k.moves o.output_buffer b n (some cb) o.file_write_end o.registered_to_poll o
                      h)) in
          if_cases P _ _ _ (λ _. k.reads _ told) (λ _. told)

      call_write-Keeps :
          (cb : Option U) (ok : Bool) (o : Operator U) → P o → P (call_write grow run_user cb ok o)
      call_write-Keeps none ok o h = h
      call_write-Keeps (some cb) ok o h = call-Keeps (write_finish cb ok) o h

      pub write_fd-Keeps :
          (bytes : List ℕ) (cb : Option U) (o : Operator U)
          → P o
          → P (write_fd grow run_user bytes cb o)
      unfolding write_fd
      write_fd-Keeps bytes cb o h =
          let put =
            if_cases P (ltb (get_readable_bytes o.output_buffer) high_water_level) _ _
              (λ _. call_write-Keeps cb true _ (
                k.notes (accepted bytes) _ tt (
                  k.moves _ o.input_buffer o.file_read_length o.file_read_finish_cb o.file_write_end
                    o.registered_to_poll o h)))
              (λ _. h) in
          if_cases P _ _ _ (λ _. k.writes _ put) (λ _. put)

      pub register_fd-Keeps : (o : Operator U) → P o → P (register_fd o)
      register_fd-Keeps o h = k.notes registered _ tt (
          k.moves o.output_buffer o.input_buffer o.file_read_length o.file_read_finish_cb
            o.file_write_end true o h)

      pub deliver-Keeps : (u : Option U) (o : Operator U) → P o → P (deliver grow run_user u o)
      unfolding deliver
      deliver-Keeps none o h = h
      deliver-Keeps (some cb) o h =
          k.moves _ _ _ none _ _ _ (call-Keeps _ _ (reading-Keeps o.file_read_length o h))

      -- Bytes come in.
      pub receive-Keeps :
          (bytes : List ℕ) (o : Operator U)
          → P o
          → P (record o {
            input_buffer = write_buffer grow o.input_buffer bytes;
            effects = received bytes ∷ o.effects;
          })
      receive-Keeps bytes o h = k.notes (received bytes) _ tt (
          k.moves o.output_buffer _ o.file_read_length o.file_read_finish_cb o.file_write_end
            o.registered_to_poll o h)

      take_in-Keeps :
          (res : Option (List ℕ)) (waits : Bool) (o : Operator U)
          → KeepsRead waits P
          → P o
          → KeepsIn P (take_in grow run_user res waits o)
      unfolding take_in put_in at_end
      take_in-Keeps none waits o r h = tt
      take_in-Keeps (some []) waits o r h =
          if_cases P waits _ _ (λ _. r.pauses o h)
            (λ e. deliver-Keeps _ _ (r.ends e _ (r.pauses o h)))
      take_in-Keeps (some (x ∷ bytes)) waits o r h =
          let got = receive-Keeps (x ∷ bytes) o h in
          deliver-Keeps _ _ (if_cases P _ _ _ (λ _. r.pauses _ got) (λ _. got))

      pub handle-Keeps :
          (e : Event U) (o : Operator U)
          → KeepsRead (waits_of e) P
          → P o
          → KeepsIn P (handle grow run_user e o)
      unfolding handle handle_read
      handle-Keeps (read_request n cb) o r h = read_fd-Keeps n cb o h
      handle-Keeps (write_request bytes cb) o r h = write_fd-Keeps bytes cb o h
      handle-Keeps close_request o r h = close_fd-Keeps o h
      handle-Keeps register_request o r h = register_fd-Keeps o h
      handle-Keeps (read_event res waits) o r h =
          if_cases (KeepsIn P) (ltb (get_readable_bytes o.input_buffer) high_water_level) _ (some o)
            (λ _. take_in-Keeps res waits o r h) (λ _. h)
      handle-Keeps (write_event res) o r h = handle_write-Keeps res o h
