-- ===== src/Net/Pipe/Examples.antt =====
-- The theorems about TrantorPipe at a concrete pipe, and tests.
use trantor_net.Base.{ℕ, ◌≡◌, refl, [], ◌∷◌, some, none}
use trantor_net.Net.Pipe.{
  Pipe, call, log_run_read, warn_undefined_write, handle_read, handle_write, handle_event,
  has_event,
}

-- A pipe on descriptor 5 that reads, with a callback for reading.
abbrev reader : Pipe ℕ
reader = record { fd = 5; register_event = 0xc3; read_cb = some 1; write_cb = none }

-- Both ready: the read callback runs, and the missing write callback is reported.
both_ready : handle_event reader 0x5 ≡ log_run_read 5 ∷ call 1 ∷ warn_undefined_write ∷ []
unfolding handle_event has_event handle_read handle_write
both_ready = refl

-- A hang-up with an error runs nothing.
hangup : handle_event reader 0x18 ≡ []
unfolding handle_event has_event
hangup = refl
