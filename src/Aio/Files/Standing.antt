-- ===== src/Aio/Files/Standing.antt =====
-- What the calls of an operator leave to be read in its effects.
use trantor_net.Base.{
  ltb, Option, none, some, ℕ, ◌≡◌, refl, ◌∙◌, ap, Bool, true, false, not, ◌&&◌, List, [], ◌∷◌, ◌++◌,
  inl, inr, All, length, length-append, arith, take, take-append_left, take_of_le, Bool-cases,
}
use trantor_net.Aio.Operator.{
  Effect, insert_reader, insert_writer, erase_reader, erase_writer, closed, wakeup, deleted,
  Operator, is_writer, note, set_events, clear_fd, trig_read, sent, accepted, received, finish,
  registered,
}
use trantor_net.Aio.Files.{noted}
use trantor_net.Aio.Files.Keeps.{IsPlain, Keeps, KeepsRead}

-- The test of `openFd`.
abbrev pub has_file : Option ℕ → Bool
has_file none = false
has_file (some fd) = ltb 0 fd

module _ {U : Type 0} where
  -- Has `::close` not been called?
  abbrev pub never_closed : List (Effect U) → Bool
  never_closed [] = true
  never_closed (closed ∷ es) = false
  never_closed (_ ∷ es) = never_closed es

  -- Does the operator have an open file?
  abbrev pub is_open : Operator U → Bool
  is_open o = never_closed o.effects && has_file o.fd

  -- Is it in the set of the writers, and of the readers, after one call, and after some?
  abbrev pub writes_step : Effect U → Bool → Bool
  writes_step insert_writer before = true
  writes_step erase_writer before = false
  writes_step _ before = before

  abbrev pub writes_after : List (Effect U) → Bool → Bool
  writes_after [] before = before
  writes_after (e ∷ es) before = writes_step e (writes_after es before)

  abbrev pub reads_step : Effect U → Bool → Bool
  reads_step insert_reader before = true
  reads_step erase_reader before = false
  reads_step _ before = before

  abbrev pub reads_after : List (Effect U) → Bool → Bool
  reads_after [] before = before
  reads_after (e ∷ es) before = reads_step e (reads_after es before)

  -- The manager is told what is open, and as what.
  pub record Stands (o : Operator U) : Type 0 where
    pub as_writer : writes_after o.effects false ≡ is_open o && is_writer o.fd_mode
    pub as_reader : reads_after o.effects false ≡ is_open o && not (is_writer o.fd_mode)

  -- Calls of an operator that is not opened again.
  abbrev pub IsLater : Effect U → Type 0
  IsLater insert_reader = ⊥
  IsLater insert_writer = ⊥
  IsLater _ = Unit

  -- An operator that comes from another by its calls.
  pub record Follows (o p : Operator U) : Type 0 where
    pub path : p.file_path ≡ o.file_path
    pub mode : p.fd_mode ≡ o.fd_mode
    pub added : List (Effect U)
    pub grown : p.effects ≡ added ++ o.effects
    pub later : All IsLater added

  pub Follows-refl : (o : Operator U) → Follows o o
  Follows-refl o = record { path = refl; mode = refl; added = []; grown = refl; later = tt }

  set_events-Stands : (n : ℕ) (o : Operator U) → Stands o → Stands (set_events n o)
  unfolding set_events
  set_events-Stands n o h = elim (Bool-cases o.registered_to_poll) [
    | inl e ↦ rw e (record { as_writer = h.as_writer; as_reader = h.as_reader })
    | inr e ↦ rw e (record { as_writer = h.as_writer; as_reader = h.as_reader })
  ]

  note-Stands : (e : Effect U) (o : Operator U) → IsPlain e → Stands o → Stands (note e o)
  note-Stands (accepted bytes) o q h = record { as_writer = h.as_writer; as_reader = h.as_reader }
  note-Stands (sent bytes) o q h = record { as_writer = h.as_writer; as_reader = h.as_reader }
  note-Stands (received bytes) o q h = record { as_writer = h.as_writer; as_reader = h.as_reader }
  note-Stands (finish f) o q h = record { as_writer = h.as_writer; as_reader = h.as_reader }
  note-Stands wakeup o q h = record { as_writer = h.as_writer; as_reader = h.as_reader }
  note-Stands trig_read o q h = record { as_writer = h.as_writer; as_reader = h.as_reader }
  note-Stands registered o q h = record { as_writer = h.as_writer; as_reader = h.as_reader }
  note-Stands insert_reader o q h = absurd q
  note-Stands insert_writer o q h = absurd q
  note-Stands erase_reader o q h = absurd q
  note-Stands erase_writer o q h = absurd q
  note-Stands closed o q h = absurd q
  note-Stands deleted o q h = absurd q

  clear_fd-Stands : (o : Operator U) → Stands o → Stands (clear_fd o)
  unfolding clear_fd
  clear_fd-Stands o h = elim (Bool-cases (is_writer o.fd_mode)) [
    | inl e ↦ rw e (record { as_writer = refl; as_reader = h.as_reader ∙ rw e (ground arith) })
    | inr e ↦ rw e (record { as_writer = h.as_writer ∙ rw e (ground arith); as_reader = refl })
  ]

  pub Stands-Keeps : Keeps Stands
  Stands-Keeps = record {
    moves = λ a b n cb d r o h. record { as_writer = h.as_writer; as_reader = h.as_reader };
    notes = note-Stands;
    reads = λ o h. set_events-Stands _ o h;
    writes = λ o h. set_events-Stands _ o h;
    rests = λ o h. set_events-Stands _ o h;
    clears = clear_fd-Stands;
  }

  pub Stands-KeepsRead : (waits : Bool) → KeepsRead waits Stands
  Stands-KeepsRead waits = record {
    pauses = λ o h. set_events-Stands _ o h;
    ends = λ _ o h. record { as_writer = h.as_writer; as_reader = h.as_reader };
  }

  plain-IsLater : (e : Effect U) → IsPlain e → IsLater e
  plain-IsLater (accepted bytes) q = tt
  plain-IsLater (sent bytes) q = tt
  plain-IsLater (received bytes) q = tt
  plain-IsLater (finish f) q = tt
  plain-IsLater wakeup q = tt
  plain-IsLater trig_read q = tt
  plain-IsLater registered q = tt
  plain-IsLater erase_reader q = tt
  plain-IsLater erase_writer q = tt
  plain-IsLater closed q = tt
  plain-IsLater deleted q = tt
  plain-IsLater insert_reader q = absurd q
  plain-IsLater insert_writer q = absurd q

  note-Follows : (e : Effect U) (o p : Operator U) → IsLater e → Follows o p → Follows o (note e p)
  note-Follows e o p q h = record {
    path = h.path;
    mode = h.mode;
    added = e ∷ h.added;
    grown = ap (λ (es : List (Effect U)). e ∷ es) h.grown;
    later = (q, h.later);
  }

  set_events-Follows : (n : ℕ) (o p : Operator U) → Follows o p → Follows o (set_events n p)
  unfolding set_events
  set_events-Follows n o p h = elim (Bool-cases p.registered_to_poll) [
    | inl e ↦ rw e (
        let w = note-Follows wakeup o p tt h in
        record { path = w.path; mode = w.mode; added = w.added; grown = w.grown; later = w.later })
    | inr e ↦
        rw e (record {
          path = h.path;
          mode = h.mode;
          added = h.added;
          grown = h.grown;
          later = h.later;
        })
  ]

  clear_fd-Follows : (o p : Operator U) → Follows o p → Follows o (clear_fd p)
  unfolding clear_fd
  clear_fd-Follows o p h = elim (Bool-cases (is_writer p.fd_mode)) [
    | inl e ↦ rw e (
        note-Follows deleted o _ tt
          (note-Follows closed o _ tt (note-Follows erase_writer o p tt h)))
    | inr e ↦ rw e (
        note-Follows deleted o _ tt
          (note-Follows closed o _ tt (note-Follows erase_reader o p tt h)))
  ]

  pub Follows-Keeps : (o : Operator U) → Keeps (Follows o)
  Follows-Keeps o = record {
    moves = λ a b n cb d r p h. record {
      path = h.path;
      mode = h.mode;
      added = h.added;
      grown = h.grown;
      later = h.later;
    };
    notes = λ e p q h. note-Follows e o p (plain-IsLater e q) h;
    reads = λ p h. set_events-Follows _ o p h;
    writes = λ p h. set_events-Follows _ o p h;
    rests = λ p h. set_events-Follows _ o p h;
    clears = λ p h. clear_fd-Follows o p h;
  }

  pub Follows-KeepsRead : (waits : Bool) (o : Operator U) → KeepsRead waits (Follows o)
  Follows-KeepsRead waits o = record {
    pauses = λ p h. set_events-Follows _ o p h;
    ends = λ _ p h. record {
      path = h.path;
      mode = h.mode;
      added = h.added;
      grown = h.grown;
      later = h.later;
    };
  }

  -- What was noted is what was added.
  pub noted-append : (added before : List (Effect U)) → noted before (added ++ before) ≡ added
  unfolding noted
  noted-append added before =
      ap (λ n. take n (added ++ before)) (omega (arith, length-append added before))
      ∙ take-append_left (length added) added before (omega arith)
      ∙ take_of_le (length added) added (omega arith)

  pub writes_after-append :
      (added before : List (Effect U))
      → writes_after (added ++ before) false ≡ writes_after added (writes_after before false)
  writes_after-append [] before = refl
  writes_after-append (e ∷ es) before = ap (writes_step e) (writes_after-append es before)

  pub reads_after-append :
      (added before : List (Effect U))
      → reads_after (added ++ before) false ≡ reads_after added (reads_after before false)
  reads_after-append [] before = refl
  reads_after-append (e ∷ es) before = ap (reads_step e) (reads_after-append es before)
