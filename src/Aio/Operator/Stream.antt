-- ===== src/Aio/Operator/Stream.antt =====
-- What goes through an operator, over all its histories.
use Prim.Native.Nat.{bit_or}
use trantor_net.Base.{
  ℕ, ◌<◌, ◌≡◌, refl, subst, Bool, false, Option, none, some, ◌++◌, ltb, arith, if_cases,
}
use trantor_net.Tool.StringBuffer.{contents}
use trantor_net.Tool.StringBuffer.Append.{GrowsExactly}
use trantor_net.Aio.Operator.{
  Mode, read_mode, write_mode, write_append, Finish, Event, Operator, new_operator, open_fd,
  open_as, set_events, handle, k_read_event, k_write_event,
}
use trantor_net.Aio.Operator.Invariant.{
  sent_of, accepted_of, received_of, told_of, IsWhole, Inv, new_operator-Inv, set_events-Inv,
}
use trantor_net.Aio.Operator.Idle.{IsIdle, IsTame}
use trantor_net.Aio.Operator.Steps.{LeadsTo, IsFair, handle-Good}

module _ {U : Type 0} where
  pub open_as-Inv : (m : Mode) (o : Operator U) → Inv m o → Inv m (open_as m o)
  unfolding open_as
  open_as-Inv read_mode o v =
      let w = set_events-Inv read_mode (bit_or o.events k_read_event) o v in
      record {
        mode = w.mode;
        valid_out = w.valid_out;
        valid_in = w.valid_in;
        written = w.written;
        taken = w.taken;
        whole = w.whole;
      }
  open_as-Inv write_mode o v =
      let w = set_events-Inv write_mode (bit_or o.events k_write_event) o v in
      record {
        mode = w.mode;
        valid_out = w.valid_out;
        valid_in = w.valid_in;
        written = w.written;
        taken = w.taken;
        whole = w.whole;
      }
  open_as-Inv write_append o v =
      let w = set_events-Inv write_append (bit_or o.events k_write_event) o v in
      record {
        mode = w.mode;
        valid_out = w.valid_out;
        valid_in = w.valid_in;
        written = w.written;
        taken = w.taken;
        whole = w.whole;
      }

  pub open_as-IsIdle : (m : Mode) (o : Operator U) → IsIdle o → IsIdle (open_as m o)
  unfolding open_as set_events
  open_as-IsIdle read_mode o w = w
  open_as-IsIdle write_mode o w = w
  open_as-IsIdle write_append o w = w

  -- A file that has been opened.
  abbrev pub opened : ℕ → ℕ → Mode → Operator U
  opened fd path m = (open_fd (some fd) path m (new_operator read_mode 0)).1

  opened-Good :
      (fd path : ℕ) (m : Mode) → 0 < fd → Inv m (opened fd path m) × IsIdle (opened fd path m)
  unfolding open_fd
  opened-Good fd path m h =
      if_cases (λ (r : Bool × Operator U). Inv m r.1 × IsIdle r.1) (ltb 0 fd) _ _
        (λ _.
          let v = new_operator-Inv {U = U} m path in
          (
            open_as-Inv m _ (record {
              mode = refl;
              valid_out = v.valid_out;
              valid_in = v.valid_in;
              written = v.written;
              taken = v.taken;
              whole = v.whole;
            }),
            open_as-IsIdle m _ tt,
          ))
        (λ e. ground (arith, e, h))

  module _ (grow : ℕ → ℕ → ℕ) (exact : GrowsExactly grow) (m : Mode)
      (run_user : Finish U → Operator U → Operator U) (tame : IsTame m run_user) where
    leads_on :
        (q : Option (Operator U))
        → LeadsTo grow exact m run_user tame (λ (p : Operator U). Inv m p × IsIdle p) q
        → (p : Operator U) × (q ≡ some p)
    leads_on none h = absurd h
    leads_on (some p) h = (p, refl)

    -- The operators of a file that is opened in the mode, and used.
    pub data Reachable : Operator U → Type 0 where
      start : (fd path : ℕ) → 0 < fd → Reachable (opened fd path m)
      next :
          {o p : Operator U} (e : Event U)
          → Reachable o
          → IsFair grow exact m run_user tame e o
          → handle grow run_user e o ≡ some p
          → Reachable p

    reachable-Good : {o : Operator U} → Reachable o → Inv m o × IsIdle o
    reachable-Good (start fd path h) = opened-Good fd path m h
    reachable-Good (next {o} e r f s) =
        subst (LeadsTo grow exact m run_user tame (λ (p : Operator U). Inv m p × IsIdle p)) s
          (handle-Good grow exact m run_user tame e o f (reachable-Good r))

    -- In every history of an opened file in which no call of the kernel fails, the bytes fit the
    -- buffers and no `memcpy` in them is between ranges that overlap, and whose callbacks keep the
    -- invariants: the bytes that the kernel took, and then
    -- those in the output buffer, are the bytes that `writeFd` accepted, in order; the bytes that
    -- callbacks got, and then those in the input buffer, are the bytes that came from the file, in
    -- order; and every further event is handled.
    pub operator_stream :
        {o : Operator U}
        → Reachable o
        → o.output_buffer.overlapped ≡ false
        → o.input_buffer.overlapped ≡ false
        → (sent_of o.effects ++ contents o.output_buffer ≡ accepted_of o.effects)
          × (told_of o.effects ++ contents o.input_buffer ≡ received_of o.effects)
          × ((e : Event U)
              → IsFair grow exact m run_user tame e o
              → (p : Operator U) × (handle grow run_user e o ≡ some p))
    operator_stream {o} r out_apart in_apart =
        let (v, w) = reachable-Good r in
        (
          v.written,
          v.taken,
          λ e f.
              leads_on (handle grow run_user e o)
                (handle-Good grow exact m run_user tame e o f (v, w)),
        )

    -- In every such history, whenever a file that is written is closed, the kernel has taken all the
    -- bytes that were accepted, and whenever a callback is told that the file has ended, callbacks
    -- have got all the bytes that came from it.
    pub operator-IsWhole :
        {o : Operator U}
        → Reachable o
        → o.output_buffer.overlapped ≡ false
        → o.input_buffer.overlapped ≡ false
        → IsWhole m o.effects
    operator-IsWhole r out_apart in_apart = (reachable-Good r).0.whole
