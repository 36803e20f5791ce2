-- ===== src/Aio/Files/Outcome.antt =====
-- Who reads and who writes, as the manager says and as the operators are.
use trantor_net.Base.{
  ℕ, ◌≡◌, ◌↔◌, refl, sym, ◌∙◌, ap, subst, Bool, true, false, not, ◌&&◌, ◌==◌, some, contains,
  Bool-cases, inl, inr,
}
use mathlib.Core.Bool.{true≢false}
use trantor_net.Tool.StringBuffer.Append.{GrowsExactly}
use trantor_net.Tcp.Server.{update}
use trantor_net.Tcp.Server.Invariant.{update_self}
use trantor_net.Aio.Operator.{Mode, Finish, Operator, is_writer, set_events, clear_fd}
use trantor_net.Aio.Operator.Invariant.{IsWhole}
use trantor_net.Aio.Operator.Idle.{IsTame}
use trantor_net.Aio.Manager.{wait_to_write, trig_read_event}
use trantor_net.Aio.Manager.Sets.{waits_iff}
use trantor_net.Aio.Files.{Files, Call, event_of, call_file, change, noted}
use trantor_net.Aio.Files.Keeps.{IsConfined, KeepsIn, Keeps, KeepsRead, waits_of, handle-Keeps}
use trantor_net.Aio.Files.Standing.{is_open}
use trantor_net.Aio.Files.Managed.{react_all_keeps}
use trantor_net.Aio.Files.Watching.{IsFitting}
use trantor_net.Aio.Files.Reached.{Reachable, reached-Sound, call_file_lem}

module _ {U : Type 0} where
  -- The operator has the file of the path open for writing, or for reading.
  abbrev pub writes_file : Files U → ℕ → ℕ → Bool
  writes_file w path id =
      let o = w.operators id in (o.file_path == path) && (is_open o && is_writer o.fd_mode)

  abbrev pub reads_file : Files U → ℕ → ℕ → Bool
  reads_file w path id =
      let o = w.operators id in (o.file_path == path) && (is_open o && not (is_writer o.fd_mode))

  -- While somebody waits to write, the end of the file does not count.
  abbrev IsUnended : Bool → Operator U → Type 0
  IsUnended waits o = waits ≡ true → o.file_read_eof ≡ false

  IsUnended-Keeps : (waits : Bool) → Keeps (IsUnended waits)
  unfolding set_events clear_fd
  IsUnended-Keeps waits = record {
    moves = λ a b n cb d r o h. h;
    notes = λ e o _ h. h;
    reads = λ o h. h;
    writes = λ o h. h;
    rests = λ o h. h;
    clears = λ o h. h;
  }

  IsUnended-KeepsRead :
      (waits b : Bool) → (b ≡ false → waits ≡ false) → KeepsRead b (IsUnended waits)
  unfolding set_events
  IsUnended-KeepsRead waits b f = record {
    pauses = λ o h. h;
    ends = λ e o h z. absurd (true≢false (sym z ∙ f e));
  }

  told_waits : (c : Call U) (waits : Bool) → waits_of (event_of c waits) ≡ false → waits ≡ false
  told_waits (Call.readable res) waits e = e
  told_waits (Call.writable res) waits e = absurd (true≢false e)
  told_waits (Call.read_call n cb) waits e = absurd (true≢false e)
  told_waits (Call.write_call bytes cb) waits e = absurd (true≢false e)
  told_waits Call.close_call waits e = absurd (true≢false e)
  told_waits Call.register_call waits e = absurd (true≢false e)

  eof_of_change :
      (id : ℕ) (o : Operator U) (w : Files U)
      → ((change id o w).operators id).file_read_eof ≡ o.file_read_eof
  unfolding change set_events
  eof_of_change id o w =
      react_all_keeps (λ j p. p.file_read_eof ≡ (update id o w.operators j).file_read_eof)
        (λ j p e. e) id (noted (w.operators id).effects o.effects)
        (record w { operators = update id o w.operators }) (λ j. refl) id
      ∙ ap (λ (p : Operator U). p.file_read_eof) (update_self id o w.operators)

  module _ (grow : ℕ → ℕ → ℕ) (exact : GrowsExactly grow)
      (run_user : Finish U → Operator U → Operator U) (tame : (m : Mode) → IsTame m run_user)
      (confined : IsConfined run_user) where
    -- In every history in which no call of the kernel fails, the bytes fit the buffers, and callbacks
    -- work on their operator through its calls: a path has a writer for the manager exactly when some
    -- operator has its file open for writing, and `trigReadEvent` of the path reaches exactly the
    -- operators that have it open for reading.
    pub files_known :
        {w : Files U}
        → Reachable grow exact run_user tame confined w
        → (path : ℕ)
        → ((wait_to_write path w.manager ≡ true) ↔ ((id : ℕ) × (writes_file w path id ≡ true)))
          × ((id : ℕ) → contains id (trig_read_event path w.manager) ≡ reads_file w path id)
    unfolding wait_to_write trig_read_event
    files_known {w} r path =
        let v = reached-Sound grow exact run_user tame confined r in
        let (someone, back) = waits_iff path w.manager.write_fdop_map v.managed.inhabited in
        let (_, _, stands) = v.good 0 in
        let at : (id : ℕ) → contains id _ ≡ writes_file w path id = λ id.
          v.managed.writing path id
          ∙ ap (λ b. ((w.operators id).file_path == path) && b) (v.good id).2.as_writer in
        (
          (λ e. let (id, h) = someone e in (id, sym (at id) ∙ h), λ (id, h). back (id, at id ∙ h)),
          λ id.
              v.managed.reading path id
              ∙ ap (λ b. ((w.operators id).file_path == path) && b) (v.good id).2.as_reader,
        )

    -- In every such history, when a call makes an operator take the end of its file for final, no
    -- operator has that file open for writing, and whenever one that wrote it was closed, and no
    -- `memcpy` in its output buffer was between ranges that overlap, the kernel had taken all the
    -- bytes that it was given.
    pub end_after_writers :
        {w : Files U} (v : Files U) (id : ℕ) (c : Call U)
        → Reachable grow exact run_user tame confined w
        → IsFitting c (w.operators id)
        → call_file grow run_user id c w ≡ some v
        → (w.operators id).file_read_eof ≡ false
        → (v.operators id).file_read_eof ≡ true
        → (j : ℕ) → (w.operators j).output_buffer.overlapped ≡ false
        → (writes_file w (w.operators id).file_path j ≡ false)
          × IsWhole (w.operators j).fd_mode (w.operators j).effects
    end_after_writers {w} v id c r f e before after j apart =
        let sound = reached-Sound grow exact run_user tame confined r in
        let (o, h, s) = call_file_lem grow exact run_user tame confined id c w v e in
        let path = (w.operators id).file_path in
        let waits = wait_to_write path w.manager in
        let unended : IsUnended waits o = subst (KeepsIn (IsUnended waits)) h (
          handle-Keeps (IsUnended waits) (IsUnended-Keeps waits) grow run_user confined
            (event_of c waits) (w.operators id) (IsUnended-KeepsRead waits _ (told_waits c waits))
            (λ _. before)) in
        let ended : o.file_read_eof ≡ true =
          sym (eof_of_change id o w)
          ∙ ap (λ (x : Files U). (x.operators id).file_read_eof) s
          ∙ after in
        (
          elim (Bool-cases (writes_file w path j)) [
            | inr none ↦ none
            | inl some_writer ↦
                absurd
                  (true≢false (sym ended ∙ unended ((files_known r path).0.1 (j, some_writer))))
          ],
          (sound.good j).0.whole,
        )
