-- ===== src/Aio/Poll/Examples.antt =====
-- A turn of the loop of the files.
use mathlib.Core.Bool.{true≢false}
use trantor_net.Net.Loop.Sync.{is_some}
use trantor_net.Base.{sym, ap, ℕ, ◌+◌, ◌≡◌, refl, some, [], ◌∷◌}
use trantor_net.Net.Loop.{find, put, erase}
use trantor_net.Aio.Poll.{
  FdLoop, register_fd_in_loop, delete_fd_in_loop, new_fd_loop, fd_loop_round, start_poll,
  init_events, polled, handle_poll_events, dispatch, call_operator, run_funcs, run_fd_tasks,
}
use trantor_net.Aio.Poll.Keyed.{IsRouted, register-IsKeyed, delete-IsKeyed, fd_loop_round-IsRouted}

-- The operator 0 has descriptor 5, operator 1 has 6; a call of an operator takes operator 1 out.
abbrev fd_of : ℕ → ℕ
fd_of id = id + 5

abbrev leaves : ℕ → ℕ → FdLoop ℕ → FdLoop ℕ
leaves id revents l = record l { poll = delete_fd_in_loop fd_of (some 1) l.poll }

abbrev nothing : ℕ → FdLoop ℕ → FdLoop ℕ
nothing u l = l

abbrev two_files : FdLoop ℕ
two_files = record (new_fd_loop 4) {
  poll =
      register_fd_in_loop fd_of (some 1)
        (register_fd_in_loop fd_of (some 0) (new_fd_loop {U = ℕ} 4).poll);
}

two_files-IsRouted : IsRouted fd_of two_files
unfolding find
two_files-IsRouted =
    let none_yet = (new_fd_loop {U = ℕ} 4).poll in
    (
      register-IsKeyed fd_of (some 1) (register_fd_in_loop fd_of (some 0) none_yet) (
          register-IsKeyed fd_of (some 0) none_yet
            (λ k id e. absurd (true≢false (sym (ap is_some e))))),
      tt,
    )

fd_loop_round-IsRouted_example :
    IsRouted fd_of (fd_loop_round fd_of leaves nothing (some (λ fd. 1)) (λ id. 1) two_files)
fd_loop_round-IsRouted_example =
    fd_loop_round-IsRouted fd_of leaves nothing
      (λ id revents l (h, all). (delete-IsKeyed fd_of (some 1) l.poll h, all)) (λ u l v. v)
      (some (λ fd. 1)) (λ id. 1) two_files two_files-IsRouted

-- The first file is called for its event; the second is gone when its turn comes.
only_first :
    (fd_loop_round fd_of leaves nothing (some (λ fd. 1)) (λ id. 1) two_files).called
    ≡ record { fd = 5; operator = 0; revents = 1 } ∷ []
unfolding fd_loop_round start_poll init_events polled handle_poll_events dispatch call_operator
    run_funcs run_fd_tasks register_fd_in_loop delete_fd_in_loop find put erase
only_first = refl
