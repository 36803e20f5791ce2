-- ===== src/Aio/Operator/Invariant.antt =====
-- What holds of an operator between any two calls.
use trantor_net.Base.{
  ==_iff, ℕ, ◌≡◌, refl, sym, ◌∙◌, ap, Bool, true, false, Option, none, some, List, [], ◌∷◌, ◌++◌,
  ◌==◌, arith, append_assoc, append-nil, Bool-cases, if_cases, inl, inr,
}
use mathlib.Core.Bool.{true≢false}
use trantor_net.Tool.StringBuffer.{contents, get_readable_bytes, read_buffer}
use trantor_net.Tool.StringBuffer.Append.{IsValid}
use trantor_net.Tool.StringBuffer.Consume.{read_buffer_lem}
use trantor_net.Tcp.Socket.Taken.{socket_write_lem, nil_of_length, readable_lem}
use trantor_net.Tcp.Socket.{socket_write}
use trantor_net.Aio.Operator.{
  Mode, is_writer, read_finish, Effect, accepted, sent, received, finish, closed, Operator,
  new_operator, set_events, clear_fd, trig, handle_write, close_fd, register_fd,
}

module _ {U : Type 0} where
  -- All bytes that the kernel took, that `writeFd` accepted, that came from the file, and that
  -- callbacks got, each in order.
  abbrev pub sent_of : List (Effect U) → List ℕ
  sent_of [] = []
  sent_of (sent bytes ∷ es) = sent_of es ++ bytes
  sent_of (_ ∷ es) = sent_of es

  abbrev pub accepted_of : List (Effect U) → List ℕ
  accepted_of [] = []
  accepted_of (accepted bytes ∷ es) = accepted_of es ++ bytes
  accepted_of (_ ∷ es) = accepted_of es

  abbrev pub received_of : List (Effect U) → List ℕ
  received_of [] = []
  received_of (received bytes ∷ es) = received_of es ++ bytes
  received_of (_ ∷ es) = received_of es

  abbrev pub told_of : List (Effect U) → List ℕ
  told_of [] = []
  told_of (finish (read_finish u content last) ∷ es) = told_of es ++ content
  told_of (_ ∷ es) = told_of es

  -- Whenever the file was closed for writing, the kernel had all that was accepted, and whenever a
  -- callback was told the end of the file, callbacks had got all that came from it.
  abbrev pub IsWhole : Mode → List (Effect U) → Type 0
  IsWhole m [] = Unit
  IsWhole m (closed ∷ es) = (is_writer m ≡ true → sent_of es ≡ accepted_of es) × IsWhole m es
  IsWhole m (finish (read_finish u content true) ∷ es) =
      (told_of es ++ content ≡ received_of es) × IsWhole m es
  IsWhole m (_ ∷ es) = IsWhole m es

  pub record Inv (m : Mode) (o : Operator U) : Type 0 where
    pub mode : o.fd_mode ≡ m
    pub valid_out : IsValid o.output_buffer
    pub valid_in : IsValid o.input_buffer
    pub written : sent_of o.effects ++ contents o.output_buffer ≡ accepted_of o.effects
    pub taken : told_of o.effects ++ contents o.input_buffer ≡ received_of o.effects
    pub whole : IsWhole m o.effects

  pub new_operator-Inv : (m : Mode) (path : ℕ) → Inv m (new_operator m path)
  unfolding contents
  new_operator-Inv m path = record {
    mode = refl;
    valid_out = omega arith;
    valid_in = omega arith;
    written = refl;
    taken = refl;
    whole = tt;
  }

  pub set_events-Inv : (m : Mode) (n : ℕ) (o : Operator U) → Inv m o → Inv m (set_events n o)
  unfolding set_events
  set_events-Inv m n o v = elim (Bool-cases o.registered_to_poll) [
    | inl e ↦ rw e (record {
      mode = v.mode;
      valid_out = v.valid_out;
      valid_in = v.valid_in;
      written = v.written;
      taken = v.taken;
      whole = v.whole;
    })
    | inr e ↦ rw e (record {
      mode = v.mode;
      valid_out = v.valid_out;
      valid_in = v.valid_in;
      written = v.written;
      taken = v.taken;
      whole = v.whole;
    })
  ]

  -- A file is cleared when the output buffer is empty, or when it is not written at all.
  pub clear_fd-Inv :
      (m : Mode) (o : Operator U)
      → (is_writer m ≡ true → contents o.output_buffer ≡ [])
      → Inv m o
      → Inv m (clear_fd o)
  unfolding clear_fd
  clear_fd-Inv m o empty v =
      let all : is_writer m ≡ true → sent_of o.effects ≡ accepted_of o.effects = λ w.
        sym (append-nil (sent_of o.effects))
        ∙ ap (λ (xs : List ℕ). sent_of o.effects ++ xs) (sym (empty w))
        ∙ v.written in
      elim (Bool-cases (is_writer o.fd_mode)) [
        | inl e ↦ rw e (record {
          mode = v.mode;
          valid_out = v.valid_out;
          valid_in = v.valid_in;
          written = v.written;
          taken = v.taken;
          whole = (all, v.whole);
        })
        | inr e ↦ rw e (record {
          mode = v.mode;
          valid_out = v.valid_out;
          valid_in = v.valid_in;
          written = v.written;
          taken = v.taken;
          whole = (all, v.whole);
        })
      ]

  pub close_fd-Inv : (m : Mode) (o : Operator U) → Inv m o → Inv m (close_fd o)
  unfolding close_fd
  close_fd-Inv m o v =
      if_cases (Inv m) (is_writer o.fd_mode) _ _
        (λ e.
          if_cases (Inv m) (get_readable_bytes o.output_buffer == 0) _ _
            (λ z.
              clear_fd-Inv m o
                (λ w. nil_of_length _ (sym (readable_lem v.valid_out) ∙ (==_iff _ 0).0 z)) v)
            (λ z. record {
              mode = v.mode;
              valid_out = v.valid_out;
              valid_in = v.valid_in;
              written = v.written;
              taken = v.taken;
              whole = v.whole;
            }))
        (λ e. clear_fd-Inv m o (λ w. absurd (true≢false (sym w ∙ ap is_writer (sym v.mode) ∙ e))) v)

  trig-Inv :
      (m : Mode) (o : Operator U) (res : Option ℕ) (bytes : List ℕ)
      → Inv m o
      → Inv m (record o { effects = trig res bytes o.effects })
  unfolding trig
  trig-Inv m o none bytes v = record {
    mode = v.mode;
    valid_out = v.valid_out;
    valid_in = v.valid_in;
    written = v.written;
    taken = v.taken;
    whole = v.whole;
  }
  trig-Inv m o (some n) [] v = v
  trig-Inv m o (some n) (x ∷ bytes) v = record {
    mode = v.mode;
    valid_out = v.valid_out;
    valid_in = v.valid_in;
    written = v.written;
    taken = v.taken;
    whole = v.whole;
  }

  pub handle_write-Inv :
      (m : Mode) (n : ℕ) (o : Operator U) → Inv m o → Inv m (handle_write (some n) o)
  unfolding handle_write set_events
  handle_write-Inv m n o v =
      let (bytes, b) = socket_write (some n) o.output_buffer in
      let (valid, joined, _) = socket_write_lem n o.output_buffer v.valid_out in
      let took : Inv m
          (record o { output_buffer = b; effects = trig (some n) bytes (sent bytes ∷ o.effects) }) =
        trig-Inv m (record o { output_buffer = b; effects = sent bytes ∷ o.effects }) (some n) bytes
          (record {
            mode = v.mode;
            valid_out = valid;
            valid_in = v.valid_in;
            written =
                append_assoc (sent_of o.effects) bytes (contents b)
                ∙ ap (λ (xs : List ℕ). sent_of o.effects ++ xs) joined
                ∙ v.written;
            taken = v.taken;
            whole = v.whole;
          }) in
      if_cases (Inv m) (get_readable_bytes b == 0) _ _
        (λ z.
          if_cases (Inv m) o.file_write_end _ _
            (λ e.
              clear_fd-Inv m _ (λ w. nil_of_length _ (sym (readable_lem valid) ∙ (==_iff _ 0).0 z))
                (set_events-Inv m _ _ took))
            (λ e. set_events-Inv m _ _ took))
        (λ z. took)

  pub register_fd-Inv : (m : Mode) (o : Operator U) → Inv m o → Inv m (register_fd o)
  register_fd-Inv m o v = record {
    mode = v.mode;
    valid_out = v.valid_out;
    valid_in = v.valid_in;
    written = v.written;
    taken = v.taken;
    whole = v.whole;
  }

  IsWhole-tell :
      (m : Mode) (u : U) (content : List ℕ) (last : Bool) (es : List (Effect U))
      → (last ≡ true → told_of es ++ content ≡ received_of es)
      → IsWhole m es
      → IsWhole m (finish (read_finish u content last) ∷ es)
  IsWhole-tell m u content true es all w = (all refl, w)
  IsWhole-tell m u content false es all w = w

  -- A callback gets what `readBuffer` takes; it may be told the end when nothing is left.
  pub tell_read-Inv :
      (m : Mode) (u : U) (size : ℕ) (last : Bool) (o : Operator U)
      → let (content, n, b) = read_buffer o.input_buffer size in
        (last ≡ true → contents b ≡ [])
        → Inv m o
        → Inv m (record o {
          input_buffer = b;
          effects = finish (read_finish u content last) ∷ o.effects;
        })
  tell_read-Inv m u size last o h v =
      let (content, n, b) = read_buffer o.input_buffer size in
      let (valid, _, _, joined) = read_buffer_lem o.input_buffer size v.valid_in in
      let all : (told_of o.effects ++ content) ++ contents b ≡ received_of o.effects =
        append_assoc (told_of o.effects) content (contents b)
        ∙ ap (λ (xs : List ℕ). told_of o.effects ++ xs) joined
        ∙ v.taken in
      record {
        mode = v.mode;
        valid_out = v.valid_out;
        valid_in = valid;
        written = v.written;
        taken = all;
        whole =
            IsWhole-tell m u content last o.effects
              (λ e.
                sym (append-nil (told_of o.effects ++ content))
                ∙ ap (λ (xs : List ℕ). (told_of o.effects ++ content) ++ xs) (sym (h e))
                ∙ all)
              v.whole;
      }
