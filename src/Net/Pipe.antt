-- ===== src/Net/Pipe.antt =====
-- TrantorPipe (src/net/inc/TrantorPipe.h, src/net/src/TrantorPipe.cc): a file descriptor with the
-- events it is registered for and its two callbacks. The masks have the values of Linux's poll.h.
-- A callback is any value of `C`; calling it is an action that the caller carries out.
pub mod Events
mod Examples
use Prim.Native.Nat.{bit_and, bit_or}
use trantor_net.Base.{
  ℕ, ◌+◌, ◌-◌, ◌^◌, Bool, true, false, not, Option, none, some, List, [], ◌∷◌, ◌++◌, ◌==◌,
  if◌then◌else◌,
}

-- POLLIN | POLLPRI | POLLRDBAND | POLLRDNORM
abbrev pub t_read_event : ℕ
t_read_event = 0x1 + 0x2 + 0x80 + 0x40

-- POLLOUT | POLLWRNORM | POLLWRBAND
abbrev pub t_write_event : ℕ
t_write_event = 0x4 + 0x100 + 0x200

-- `~mask` of 32 bits.
abbrev pub complement : ℕ → ℕ
complement mask = 2 ^ 32 - 1 - mask

-- Does `if (revent & mask)` hold?
unfoldable pub has_event : ℕ → ℕ → Bool
has_event revent mask = not (bit_and revent mask == 0)

pub record Pipe {ℓ} (C : Type ℓ) : Type ℓ where
  pub fd : ℕ
  pub register_event : ℕ
  pub read_cb : Option C
  pub write_cb : Option C

-- What a handler does: log, or call.
pub data Action {ℓ} (C : Type ℓ) : Type ℓ where
  log_run_read log_run_write : ℕ → Action C
  warn_undefined_read warn_undefined_write : Action C
  call : C → Action C

module _ {ℓ} {C : Type ℓ} where
  abbrev pub new_pipe : ℕ → Pipe C
  new_pipe fd = record { fd = fd; register_event = 0; read_cb = none; write_cb = none }

  abbrev pub set_read_cb : C → Pipe C → Pipe C
  set_read_cb cb p = record p { read_cb = some cb }

  abbrev pub set_write_cb : C → Pipe C → Pipe C
  set_write_cb cb p = record p { write_cb = some cb }

  unfoldable pub enable_read : Pipe C → Pipe C
  enable_read p = record p { register_event = bit_or p.register_event t_read_event }

  unfoldable pub enable_write : Pipe C → Pipe C
  enable_write p = record p { register_event = bit_or p.register_event t_write_event }

  unfoldable pub disable_read : Pipe C → Pipe C
  disable_read p = record p { register_event = bit_and p.register_event (complement t_read_event) }

  unfoldable pub disable_write : Pipe C → Pipe C
  disable_write p = record p {
    register_event = bit_and p.register_event (complement t_write_event);
  }

  unfoldable pub handle_read : Pipe C → List (Action C)
  handle_read p = elim p.read_cb [
    | none ↦ warn_undefined_read ∷ []
    | some cb ↦ log_run_read p.fd ∷ call cb ∷ []
  ]

  unfoldable pub handle_write : Pipe C → List (Action C)
  handle_write p = elim p.write_cb [
    | none ↦ warn_undefined_write ∷ []
    | some cb ↦ log_run_write p.fd ∷ call cb ∷ []
  ]

  unfoldable pub handle_event : Pipe C → ℕ → List (Action C)
  handle_event p revent =
      (if has_event revent t_read_event then handle_read p else [])
      ++ (if has_event revent t_write_event then handle_write p else [])
