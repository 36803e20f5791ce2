-- ===== src/Aio/Files/Reached.antt =====
-- What holds in all histories of the operators and their manager.
use trantor_net.Base.{
  ℕ, ◌≡◌, refl, sym, ◌∙◌, ap, subst, Bool, true, ==_iff, Option, none, some, [], inl, arith,
}
use mathlib.Core.Bool.{true≢false}
use mathlib.Core.Option.{some-injective}
use trantor_net.Tool.StringBuffer.Append.{GrowsExactly}
use trantor_net.Net.Loop.{find}
use trantor_net.Net.Loop.Sync.{is_some}
use trantor_net.Aio.Operator.{Mode, Finish, Operator, handle, read_mode}
use trantor_net.Aio.Operator.Invariant.{Inv, new_operator-Inv}
use trantor_net.Aio.Operator.Idle.{IsIdle, IsTame}
use trantor_net.Aio.Operator.Steps.{LeadsTo, IsFair, handle-Good}
use trantor_net.Aio.Manager.{is_some_list, wait_to_write}
use trantor_net.Aio.Manager.Sets.{has, nobody, IsInhabited}
use trantor_net.Aio.Poll.{FdPoll}
use trantor_net.Aio.Files.{
  Files, new_files, Call, read_call, write_call, close_call, register_call, readable, writable,
  event_of, open_file, changed, call_file, change,
}
use trantor_net.Aio.Files.Keeps.{IsConfined, KeepsIn, waits_of, handle-Keeps}
use trantor_net.Aio.Files.Standing.{
  Stands, Stands-Keeps, Stands-KeepsRead, Follows, Follows-refl, Follows-Keeps, Follows-KeepsRead,
}
use trantor_net.Aio.Files.Watching.{IsFitting, IsWatching, handle-IsWatching, IsAlert, waiting}
use trantor_net.Aio.Files.Alert.{later-AreReady}
use trantor_net.Aio.Files.Opening.{Sound, change-Sound, open_file-Sound}

module _ {U : Type 0} where
  module _ (grow : ℕ → ℕ → ℕ) (exact : GrowsExactly grow)
      (run_user : Finish U → Operator U → Operator U) (tame : (m : Mode) → IsTame m run_user)
      (confined : IsConfined run_user) where
    fitting-IsFair :
        (m : Mode) (c : Call U) (waits : Bool) (o : Operator U)
        → IsFitting c o
        → IsFair grow exact m run_user (tame m) (event_of c waits) o
    fitting-IsFair m (read_call n cb) waits o f = f
    fitting-IsFair m (write_call bytes cb) waits o f = f
    fitting-IsFair m close_call waits o f = f
    fitting-IsFair m register_call waits o f = f
    fitting-IsFair m (readable none) waits o f = absurd f
    fitting-IsFair m (readable (some bytes)) waits o f = f
    fitting-IsFair m (writable none) waits o f = absurd f
    fitting-IsFair m (writable (some n)) waits o f = f

    -- The states that a process reaches in which operators are made, each file is opened at most
    -- once by one operator, no call of the kernel fails and the bytes fit the buffers.
    pub data Reachable : Files U → Type 0 where
      begin : (poll : FdPoll) → Reachable (new_files poll)
      opens :
          {w : Files U} (id : ℕ) (res : Option ℕ) (path : ℕ) (mode : Mode)
          → Reachable w
          → (w.operators id).effects ≡ []
          → Reachable (open_file id res path mode w)
      calls :
          {w v : Files U} (id : ℕ) (c : Call U)
          → Reachable w
          → IsFitting c (w.operators id)
          → call_file grow run_user id c w ≡ some v
          → Reachable v

    -- A call that an operator has handled.
    called-Sound :
        (id : ℕ) (c : Call U) (o : Operator U) (w : Files U)
        → let before = w.operators id in
          let event = event_of c (wait_to_write before.file_path w.manager) in
          IsFitting c before
          → handle grow run_user event before ≡ some o
          → Sound w
          → Sound (change id o w)
    called-Sound id c o w f e v =
        let before = w.operators id in
        let waits = wait_to_write before.file_path w.manager in
        let event = event_of c waits in
        let (i, idle, stands) = v.good id in
        let (i', idle') =
          subst
            (LeadsTo grow exact before.fd_mode run_user (tame before.fd_mode)
              (λ p. Inv before.fd_mode p × IsIdle p))
            e
            (handle-Good grow exact before.fd_mode run_user (tame before.fd_mode) event before
              (fitting-IsFair before.fd_mode c waits before f) (i, idle)) in
        let follows : Follows before o = subst (KeepsIn (Follows before)) e (
          handle-Keeps (Follows before) (Follows-Keeps before) grow run_user confined event before
            (Follows-KeepsRead (waits_of event) before) (Follows-refl before)) in
        let stands' : Stands o = subst (KeepsIn Stands) e (
          handle-Keeps Stands Stands-Keeps grow run_user confined event before
            (Stands-KeepsRead (waits_of event)) stands) in
        let watching : (b : Bool) → (waits ≡ true → b ≡ true) → IsAlert b before → IsWatching b o =
          λ b told a. subst (KeepsIn (IsWatching b)) e (
            handle-IsWatching grow exact run_user confined before.fd_mode c waits b before told f i
              (v.alerts.masks id, a)) in
        let path_of : (q : ℕ) → has q id w.manager.read_fdop_map ≡ true → before.file_path ≡ q =
          λ q h. (==_iff before.file_path q).0 (ground (arith, h, v.managed.reading q id)) in
        change-Sound id o w follows.added follows.grown
          (λ q. v.managed.writing q id ∙ rw follows.path refl)
          (λ q. v.managed.reading q id ∙ rw follows.path refl)
          (later-AreReady id follows.added _ follows.later)
          (watching true (λ _. refl) (waiting refl)).0
          (λ q h.
            let same = path_of q h in
            (watching (wait_to_write q w.manager)
              (λ z. subst (λ k. wait_to_write k w.manager ≡ true) same z)
              (v.alerts.alert q id h)).1)
          (subst (λ m. Inv m o) (sym follows.mode) i', idle', stands') v

    new_files-Sound : (poll : FdPoll) → Sound {U = U} (new_files poll)
    unfolding find IsInhabited
    new_files-Sound poll = record {
      managed = record {
        writing = λ q j. nobody q j [] refl ∙ ground arith;
        reading = λ q j. nobody q j [] refl ∙ ground arith;
        inhabited = λ q e. absurd (true≢false (sym (ap is_some_list e)));
      };
      alerts = record {
        masks = λ j. inl refl;
        alert = λ q j h. absurd (true≢false (sym h ∙ nobody q j [] refl));
      };
      good = λ j. (new_operator-Inv read_mode 0, tt, record { as_writer = refl; as_reader = refl });
    }

    -- What a call leads to is a change by what its operator becomes.
    pub call_file_lem :
        (id : ℕ) (c : Call U) (w v : Files U)
        → let before = w.operators id in
          let event = event_of c (wait_to_write before.file_path w.manager) in
          call_file grow run_user id c w ≡ some v
          → (o : Operator U) × (handle grow run_user event before ≡ some o) × (change id o w ≡ v)
    unfolding call_file
    call_file_lem id c w v e = of_changed _ refl e
      where
        of_changed :
            (r : Option (Operator U))
            → handle grow run_user
                (event_of c (wait_to_write (w.operators id).file_path w.manager))
                (w.operators id)
              ≡ r
            → changed grow run_user id r w ≡ some v
            → (o : Operator U) × (handle grow run_user
                  (event_of c (wait_to_write (w.operators id).file_path w.manager))
                  (w.operators id)
                ≡ some o)
              × (change id o w ≡ v)
        of_changed none h s = absurd (true≢false (sym (ap is_some s)))
        of_changed (some o) h s = (o, h, some-injective (change id o w) v s)

    pub reached-Sound : {w : Files U} → Reachable w → Sound w
    reached-Sound (begin poll) = new_files-Sound poll
    reached-Sound (opens {w} id res path mode r e) =
        open_file-Sound id res path mode w e (reached-Sound r)
    reached-Sound (calls {w} {v} id c r f e) =
        let (o, h, s) = call_file_lem id c w v e in
        subst Sound s (called-Sound id c o w f h (reached-Sound r))
