-- ===== src/Aio/Files/Examples.antt =====
-- A file that one operator writes and another reads, at concrete calls.
use trantor_net.Base.{
  ℕ, ◌≡◌, ◌↔◌, refl, true, false, Option, none, some, [], ◌∷◌, contains, without, arith, write_at,
}
use trantor_net.Tcp.Server.{update}
use trantor_net.Tool.StringBuffer.{
  contents, retrieve, write_buffer, get_readable_bytes, get_backward_writable_bytes,
  get_forward_writable_bytes, resize_buffer,
}
use trantor_net.Tcp.Socket.{socket_write}
use trantor_net.Aio.Operator.{
  Mode, read_mode, write_mode, Finish, Operator, close_fd, clear_fd, set_events, open_fd, open_as,
  write_fd, handle, handle_write, handle_read, take_in, at_end, deliver, trig,
}
use trantor_net.Aio.Operator.Invariant.{IsWhole, close_fd-Inv}
use trantor_net.Aio.Operator.Idle.{IsTame, close_fd-IsIdle}
use trantor_net.Aio.Manager.{
  wait_to_write, trig_read_event, insert_write_fdop, insert_read_fdop, erase_write_fdop,
  erase_read_fdop, join, leave, leave_behind, members,
}
use trantor_net.Aio.Poll.{fd_wakeup}
use trantor_net.Net.Loop.{find, put, erase}
use trantor_net.Aio.Files.{
  Files, new_files, Call, write_call, close_call, readable, writable, open_file, call_file, changed,
  change, react_all, react, wake_readers, signal_readers, noted,
}
use trantor_net.Aio.Files.Keeps.{IsConfined, close_fd-Keeps}
use trantor_net.Aio.Files.Watching.{IsFitting}
use trantor_net.Aio.Files.Reached.{Reachable, begin, opens, calls}
use trantor_net.Aio.Files.Outcome.{writes_file, reads_file, files_known, end_after_writers}

abbrev exactly : ℕ → ℕ → ℕ
exactly c n = n

-- Every callback closes its file.
abbrev closer : Finish ℕ → Operator ℕ → Operator ℕ
closer f o = close_fd o

closer-IsTame : (m : Mode) → IsTame m closer
closer-IsTame m = record {
  keeps = λ f o v. close_fd-Inv m o v;
  idles = λ f o w. close_fd-IsIdle o w;
}

closer-IsConfined : IsConfined closer
closer-IsConfined P k f o h = close_fd-Keeps P k o h

abbrev IsReached : Files ℕ → Type 0
IsReached = Reachable exactly (λ c n h. refl) closer closer-IsTame closer-IsConfined

abbrev empty_files : Files ℕ
empty_files = new_files (record { wakeup_fd = 3; signals = 0; fd_map = [] })

-- The operator 0 writes the file 5, which the operator 1 reads.
abbrev shared : Files ℕ
shared = open_file 1 (some 6) 5 read_mode (open_file 0 (some 4) 5 write_mode empty_files)

shared_fresh : ((open_file 0 (some 4) 5 write_mode empty_files).operators 1).effects ≡ []
unfolding open_file change noted react_all react insert_write_fdop join members find put update
    open_fd open_as set_events
shared_fresh = refl

shared-IsReached : IsReached shared
shared-IsReached =
    opens 1 (some 6) 5 read_mode (opens 0 (some 4) 5 write_mode (begin _) refl) shared_fresh

-- The writer is closed, and the reader comes to the end of the file.
abbrev or_else : Option (Files ℕ) → Files ℕ → Files ℕ
or_else none w = w
or_else (some v) w = v

abbrev after : ℕ → Call ℕ → Files ℕ → Files ℕ
after id c w = or_else (call_file exactly closer id c w) w

abbrev written : Files ℕ
written = after 0 (write_call (1 ∷ 2 ∷ 3 ∷ []) none) shared

abbrev flushed : Files ℕ
flushed = after 0 (writable (some 3)) written

abbrev left : Files ℕ
left = after 0 close_call flushed

written_lem : call_file exactly closer 0 (write_call (1 ∷ 2 ∷ 3 ∷ []) none) shared ≡ some written
unfolding call_file changed change noted react_all react wake_readers signal_readers
    insert_write_fdop insert_read_fdop erase_write_fdop erase_read_fdop join leave leave_behind
    members find put erase wait_to_write trig_read_event update open_file open_fd open_as set_events
    handle write_fd close_fd clear_fd handle_write handle_read take_in at_end deliver trig
    socket_write retrieve contents write_buffer get_readable_bytes get_backward_writable_bytes
    get_forward_writable_bytes resize_buffer write_at contains without fd_wakeup
written_lem = refl

flushed_lem : call_file exactly closer 0 (writable (some 3)) written ≡ some flushed
unfolding call_file changed change noted react_all react wake_readers signal_readers
    insert_write_fdop insert_read_fdop erase_write_fdop erase_read_fdop join leave leave_behind
    members find put erase wait_to_write trig_read_event update open_file open_fd open_as set_events
    handle write_fd close_fd clear_fd handle_write handle_read take_in at_end deliver trig
    socket_write retrieve contents write_buffer get_readable_bytes get_backward_writable_bytes
    get_forward_writable_bytes resize_buffer write_at contains without fd_wakeup
flushed_lem = refl

left_lem : call_file exactly closer 0 close_call flushed ≡ some left
unfolding call_file changed change noted react_all react wake_readers signal_readers
    insert_write_fdop insert_read_fdop erase_write_fdop erase_read_fdop join leave leave_behind
    members find put erase wait_to_write trig_read_event update open_file open_fd open_as set_events
    handle write_fd close_fd clear_fd handle_write handle_read take_in at_end deliver trig
    socket_write retrieve contents write_buffer get_readable_bytes get_backward_writable_bytes
    get_forward_writable_bytes resize_buffer write_at contains without fd_wakeup
left_lem = refl

ended_lem :
    (call_file exactly closer 1 (readable (some [])) left
      ≡ some (after 1 (readable (some [])) left))
    × ((left.operators 1).file_read_eof ≡ false)
    × (((after 1 (readable (some [])) left).operators 1).file_read_eof ≡ true)
unfolding call_file changed change noted react_all react wake_readers signal_readers
    insert_write_fdop insert_read_fdop erase_write_fdop erase_read_fdop join leave leave_behind
    members find put erase wait_to_write trig_read_event update open_file open_fd open_as set_events
    handle write_fd close_fd clear_fd handle_write handle_read take_in at_end deliver trig
    socket_write retrieve contents write_buffer get_readable_bytes get_backward_writable_bytes
    get_forward_writable_bytes resize_buffer write_at contains without fd_wakeup
ended_lem = (refl, refl, refl)

written_fits : IsFitting (Call.write_call (1 ∷ 2 ∷ 3 ∷ []) none) (shared.operators 0)
unfolding open_file change noted react_all react insert_write_fdop insert_read_fdop join members
    find put update open_fd open_as set_events
written_fits = omega arith

ended_fits : IsFitting (readable (some [])) (left.operators 1)
unfolding call_file changed change noted react_all react wake_readers signal_readers
    insert_write_fdop insert_read_fdop erase_write_fdop erase_read_fdop join leave leave_behind
    members find put erase wait_to_write trig_read_event update open_file open_fd open_as set_events
    handle write_fd close_fd clear_fd handle_write handle_read take_in at_end deliver trig
    socket_write retrieve contents write_buffer get_readable_bytes get_backward_writable_bytes
    get_forward_writable_bytes resize_buffer write_at contains without fd_wakeup
ended_fits = omega arith

left-IsReached : IsReached left
left-IsReached =
    calls 0 close_call
      (calls 0 (writable (some 3))
        (calls 0 (write_call (1 ∷ 2 ∷ 3 ∷ []) none) shared-IsReached written_fits written_lem) tt
        flushed_lem)
      tt left_lem

files_known_example :
    ((wait_to_write 5 left.manager ≡ true) ↔ ((id : ℕ) × (writes_file left 5 id ≡ true)))
    × ((id : ℕ) → contains id (trig_read_event 5 left.manager) ≡ reads_file left 5 id)
files_known_example =
    files_known exactly (λ c n h. refl) closer closer-IsTame closer-IsConfined left-IsReached 5

left_apart : (left.operators 0).output_buffer.overlapped ≡ false
unfolding call_file changed change noted react_all react wake_readers signal_readers
    insert_write_fdop insert_read_fdop erase_write_fdop erase_read_fdop join leave leave_behind
    members find put erase wait_to_write trig_read_event update open_file open_fd open_as set_events
    handle write_fd close_fd clear_fd handle_write handle_read take_in at_end deliver trig
    socket_write retrieve contents write_buffer get_readable_bytes get_backward_writable_bytes
    get_forward_writable_bytes resize_buffer write_at contains without fd_wakeup
left_apart = refl

end_after_writers_example :
    (writes_file left (left.operators 1).file_path 0 ≡ false)
    × IsWhole (left.operators 0).fd_mode (left.operators 0).effects
end_after_writers_example =
    end_after_writers exactly (λ c n h. refl) closer closer-IsTame closer-IsConfined
      (after 1 (readable (some [])) left) 1 (readable (some [])) left-IsReached ended_fits
      ended_lem.0 ended_lem.1 ended_lem.2 0 left_apart
