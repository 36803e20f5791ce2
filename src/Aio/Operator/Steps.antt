-- ===== src/Aio/Operator/Steps.antt =====
-- The calls that end in a callback of the user.
use trantor_net.Base.{
  ==_iff, ℕ, ◌+◌, ◌^◌, ◌<◌, ◌≡◌, refl, sym, ◌∙◌, ap, subst, Bool, true, false, Option, none, some,
  List, [], ◌∷◌, ◌++◌, ◌==◌, ltb, leb, not, arith, length, append_assoc, if_cases, length-take,
}
use mathlib.Core.Bool.{true≢false}
use trantor_net.Tool.StringBuffer.{contents, get_readable_bytes, read_buffer, write_buffer}
use trantor_net.Tool.StringBuffer.Append.{GrowsExactly, cells-write_buffer}
use trantor_net.Tool.StringBuffer.Consume.{read_buffer_lem}
use trantor_net.Tcp.Socket.Taken.{nil_of_length, nil_of_append, readable_lem}
use trantor_net.Aio.Operator.{
  Mode, Finish, read_finish, accepted, received, Event, read_request, write_request, close_request,
  register_request, read_event, write_event, Operator, call, call_write, set_events,
  high_water_level, read_fd, write_fd, deliver, put_in, at_end, take_in, handle_read,
  disable_reading, handle,
}
use trantor_net.Aio.Operator.Invariant.{
  told_of, sent_of, close_fd-Inv, register_fd-Inv, handle_write-Inv, Inv, set_events-Inv,
  tell_read-Inv,
}
use trantor_net.Aio.Operator.Idle.{
  Waits, IsIdle, Honest, Honest-empty, Honest-open, Waits-rest, set_events-IsIdle, close_fd-IsIdle,
  handle_write-IsIdle, IsTame,
}

module _ {U : Type 0} where
  module _ (grow : ℕ → ℕ → ℕ) (exact : GrowsExactly grow) (m : Mode)
      (run_user : Finish U → Operator U → Operator U) (tame : IsTame m run_user) where
    deliver-Inv :
        (u : Option U) (o : Operator U)
        → Honest u o.file_read_eof (contents o.input_buffer)
        → Inv m o
        → Inv m (deliver grow run_user u o)
    unfolding deliver
    deliver-Inv none o h v = v
    deliver-Inv (some u) o h v =
        let (content, n, b) = read_buffer o.input_buffer o.file_read_length in
        let (_, _, _, joined) = read_buffer_lem o.input_buffer o.file_read_length v.valid_in in
        let w = tame.keeps (read_finish u content o.file_read_eof) _ (
          tell_read-Inv m u o.file_read_length o.file_read_eof o
            (λ e. nil_of_append content (contents b) (joined ∙ h e)) v) in
        record {
          mode = w.mode;
          valid_out = w.valid_out;
          valid_in = w.valid_in;
          written = w.written;
          taken = w.taken;
          whole = w.whole;
        }

    deliver-IsIdle :
        (u : Option U) (o : Operator U)
        → o.file_read_finish_cb ≡ u
        → IsIdle (deliver grow run_user u o)
    unfolding deliver
    deliver-IsIdle none o e =
        subst (λ (u : Option U). Waits u o.file_read_eof (contents o.input_buffer)) (sym e) tt
    deliver-IsIdle (some u) o e = tt

    abbrev Good : Operator U → Type 0
    Good o = Inv m o × IsIdle o

    set_events-Good : (n : ℕ) (o : Operator U) → Good o → Good (set_events n o)
    set_events-Good n o (v, w) = (set_events-Inv m n o v, set_events-IsIdle n o w)

    at_end-Good : (waits : Bool) (o : Operator U) → Good o → Good (at_end grow run_user waits o)
    unfolding at_end
    at_end-Good waits o (v, w) =
        let (v', w') = set_events-Good _ o (v, w) in
        if_cases Good waits _ _ (λ _. (v', w'))
          (λ _.
            let ended : Inv m (record (disable_reading o) { file_read_eof = true }) = record {
              mode = v'.mode;
              valid_out = v'.valid_out;
              valid_in = v'.valid_in;
              written = v'.written;
              taken = v'.taken;
              whole = v'.whole;
            } in
            (
              deliver-Inv _ _ (Honest-empty o.file_read_finish_cb o.file_read_eof _ w) ended,
              deliver-IsIdle _ _ refl,
            ))

    -- What leads on, to an operator with a property.
    abbrev pub LeadsTo : (Operator U → Type 0) → Option (Operator U) → Type 0
    LeadsTo P none = ⊥
    LeadsTo P (some o) = P o

    put_in-Inv :
        (bytes : List ℕ) (o : Operator U)
        → o.input_buffer.write_index + length bytes < 2 ^ 61
        → Inv m o
        → Inv m (put_in grow run_user bytes o)
    unfolding put_in
    put_in-Inv bytes o small v =
        let (valid, joined) = cells-write_buffer grow exact o.input_buffer bytes v.valid_in small in
        let put : Inv m (record o {
          input_buffer = write_buffer grow o.input_buffer bytes;
          effects = received bytes ∷ o.effects;
        }) =
          record {
            mode = v.mode;
            valid_out = v.valid_out;
            valid_in = valid;
            written = v.written;
            taken =
                ap (λ (xs : List ℕ). told_of o.effects ++ xs) joined
                ∙ sym (append_assoc (told_of o.effects) (contents o.input_buffer) bytes)
                ∙ ap (λ (xs : List ℕ). xs ++ bytes) v.taken;
            whole = v.whole;
          } in
        if_cases (Inv m)
          (leb high_water_level (get_readable_bytes (write_buffer grow o.input_buffer bytes))) _ _
          (λ _. set_events-Inv m _ _ put) (λ _. put)

    put_in-Honest :
        (bytes : List ℕ) (o : Operator U)
        → IsIdle o
        → let o' = put_in grow run_user bytes o in
          Honest o'.file_read_finish_cb o'.file_read_eof (contents o'.input_buffer)
    unfolding put_in set_events
    put_in-Honest bytes o w =
        if_cases
          (λ (o' : Operator U).
            Honest o'.file_read_finish_cb o'.file_read_eof (contents o'.input_buffer))
          (leb high_water_level (get_readable_bytes (write_buffer grow o.input_buffer bytes))) _ _
          (λ _. Honest-open o.file_read_finish_cb o.file_read_eof _ _ w)
          (λ _. Honest-open o.file_read_finish_cb o.file_read_eof _ _ w)

    abbrev FitsIn : Option (List ℕ) → Operator U → Type 0
    FitsIn none o = ⊥
    FitsIn (some bytes) o = o.input_buffer.write_index + length bytes < 2 ^ 61

    take_in-Good :
        (res : Option (List ℕ)) (waits : Bool) (o : Operator U)
        → FitsIn res o
        → Good o
        → LeadsTo Good (take_in grow run_user res waits o)
    unfolding take_in
    take_in-Good none waits o f g = absurd f
    take_in-Good (some []) waits o f g = at_end-Good waits o g
    take_in-Good (some (x ∷ bytes)) waits o f (v, w) = (
      deliver-Inv _ _ (put_in-Honest (x ∷ bytes) o w) (put_in-Inv (x ∷ bytes) o f v),
      deliver-IsIdle _ _ refl,
    )

    handle_read-Good :
        (res : Option (List ℕ)) (waits : Bool) (o : Operator U)
        → FitsIn res o
        → Good o
        → LeadsTo Good (handle_read grow run_user res waits o)
    unfolding handle_read
    handle_read-Good res waits o f g =
        if_cases (LeadsTo Good) (ltb (get_readable_bytes o.input_buffer) high_water_level) _ _
          (λ _. take_in-Good res waits o f g) (λ _. g)

    call_read-Good :
        (u : U) (size : ℕ) (last : Bool) (o : Operator U)
        → let (content, n, b) = read_buffer o.input_buffer size in
          (last ≡ true → contents b ≡ [])
          → Good o
          → Good (call grow run_user (read_finish u content last) (record o { input_buffer = b }))
    call_read-Good u size last o h (v, w) =
        let (content, n, b) = read_buffer o.input_buffer size in
        let (_, _, _, joined) = read_buffer_lem o.input_buffer size v.valid_in in
        (
          tame.keeps _ _ (tell_read-Inv m u size last o h v),
          tame.idles _ _ (Waits-rest o.file_read_finish_cb o.file_read_eof content _ _ joined w),
        )

    wait-Good :
        (n : ℕ) (cb : U) (o : Operator U)
        → 0 < n
        → let (content, size, b) = read_buffer o.input_buffer n in
          size ≡ 0
          → o.file_read_eof ≡ false
          → Inv m o
          → Good
              (record o { input_buffer = b; file_read_length = n; file_read_finish_cb = some cb })
    wait-Good n cb o pos zero_size open_end v =
        let (content, size, b) = read_buffer o.input_buffer n in
        let (valid, cut, counted, joined) = read_buffer_lem o.input_buffer n v.valid_in in
        let nothing : content ≡ [] = nil_of_length content (sym counted ∙ zero_size) in
        let same : contents b ≡ contents o.input_buffer =
          ap (λ (xs : List ℕ). xs ++ contents b) (sym nothing) ∙ joined in
        let empty : contents o.input_buffer ≡ [] =
          nil_of_length _ (
            omega
              (arith, length-take n (contents o.input_buffer), ap length (sym cut ∙ nothing))) in
        (
          record {
            mode = v.mode;
            valid_out = v.valid_out;
            valid_in = valid;
            written = v.written;
            taken = ap (λ (xs : List ℕ). told_of o.effects ++ xs) same ∙ v.taken;
            whole = v.whole;
          },
          (same ∙ empty, open_end),
        )

    read_fd-Good :
        (n : ℕ) (cb : U) (o : Operator U) → 0 < n → Good o → Good (read_fd grow run_user n cb o)
    unfolding read_fd
    read_fd-Good n cb o pos g =
        let (content, size, b) = read_buffer o.input_buffer n in
        let (v, w) = g in
        let (valid, cut, counted, joined) = read_buffer_lem o.input_buffer n v.valid_in in
        let told =
          if_cases Good o.file_read_eof _ _
            (λ _.
              call_read-Good cb n (get_readable_bytes b == 0) o
                (λ z. nil_of_length _ (sym (readable_lem valid) ∙ (==_iff _ 0).0 z)) g)
            (λ open_end.
              if_cases Good (not (size == 0)) _ _
                (λ _. call_read-Good cb n false o (λ z. absurd (true≢false (sym z))) g)
                (λ z. wait-Good n cb o pos (ground (arith, z)) open_end v)) in
        if_cases Good _ _ _ (λ _. set_events-Good _ _ told) (λ _. told)

    call_write-Good :
        (cb : Option U) (o : Operator U) → Good o → Good (call_write grow run_user cb true o)
    call_write-Good none o g = g
    call_write-Good (some cb) o (v, w) = (
      tame.keeps _ _ (record {
        mode = v.mode;
        valid_out = v.valid_out;
        valid_in = v.valid_in;
        written = v.written;
        taken = v.taken;
        whole = v.whole;
      }),
      tame.idles _ _ w,
    )

    accept-Good :
        (bytes : List ℕ) (o : Operator U)
        → o.output_buffer.write_index + length bytes < 2 ^ 61
        → Good o
        → Good (record o {
          output_buffer = write_buffer grow o.output_buffer bytes;
          effects = accepted bytes ∷ o.effects;
        })
    accept-Good bytes o small (v, w) =
        let (valid, joined) =
          cells-write_buffer grow exact o.output_buffer bytes v.valid_out small in
        (
          record {
            mode = v.mode;
            valid_out = valid;
            valid_in = v.valid_in;
            written =
                ap (λ (xs : List ℕ). sent_of o.effects ++ xs) joined
                ∙ sym (append_assoc (sent_of o.effects) (contents o.output_buffer) bytes)
                ∙ ap (λ (xs : List ℕ). xs ++ bytes) v.written;
            taken = v.taken;
            whole = v.whole;
          },
          w,
        )

    write_fd-Good :
        (bytes : List ℕ) (cb : Option U) (o : Operator U)
        → o.output_buffer.write_index + length bytes < 2 ^ 61
        → Good o
        → Good (write_fd grow run_user bytes cb o)
    unfolding write_fd
    write_fd-Good bytes cb o small g =
        let put =
          if_cases Good (ltb (get_readable_bytes o.output_buffer) high_water_level) _ _
            (λ _. call_write-Good cb _ (accept-Good bytes o small g)) (λ _. g) in
        if_cases Good _ _ _ (λ _. set_events-Good _ _ put) (λ _. put)

    -- No call of the kernel fails, the bytes fit the buffers, and the user asks for some.
    abbrev pub IsFair : Event U → Operator U → Type 0
    IsFair (read_request n cb) o = 0 < n
    IsFair (write_request bytes cb) o = o.output_buffer.write_index + length bytes < 2 ^ 61
    IsFair (read_event res waits) o = FitsIn res o
    IsFair (write_event none) o = ⊥
    IsFair _ o = Unit

    pub handle-Good :
        (e : Event U) (o : Operator U)
        → IsFair e o
        → Good o
        → LeadsTo Good (handle grow run_user e o)
    unfolding handle
    handle-Good (read_request n cb) o f g = read_fd-Good n cb o f g
    handle-Good (write_request bytes cb) o f g = write_fd-Good bytes cb o f g
    handle-Good close_request o f (v, w) = (close_fd-Inv m o v, close_fd-IsIdle o w)
    handle-Good register_request o f (v, w) = (register_fd-Inv m o v, w)
    handle-Good (read_event res waits) o f g = handle_read-Good res waits o f g
    handle-Good (write_event none) o f g = absurd f
    handle-Good (write_event (some n)) o f (v, w) =
        (handle_write-Inv m n o v, handle_write-IsIdle n o w)
