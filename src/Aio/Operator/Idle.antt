-- ===== src/Aio/Operator/Idle.antt =====
-- When a callback may wait.
use trantor_net.Base.{
  ℕ, ◌≡◌, sym, ◌∙◌, Bool, true, false, Option, none, some, List, [], ◌++◌, ◌==◌, if_cases,
}
use mathlib.Core.Bool.{true≢false}
use trantor_net.Tool.StringBuffer.{contents, get_readable_bytes}
use trantor_net.Tcp.Socket.{socket_write}
use trantor_net.Tcp.Socket.Taken.{nil_of_append}
use trantor_net.Aio.Operator.{
  Mode, Finish, Operator, set_events, is_writer, close_fd, clear_fd, handle_write,
}
use trantor_net.Aio.Operator.Invariant.{Inv}

module _ {U : Type 0} where
  -- A callback waits only when nothing is there to read and the end of the file has not been seen.
  abbrev pub Waits : Option U → Bool → List ℕ → Type 0
  Waits none eof xs = Unit
  Waits (some u) eof xs = (xs ≡ []) × (eof ≡ false)

  abbrev pub IsIdle : Operator U → Type 0
  IsIdle o = Waits o.file_read_finish_cb o.file_read_eof (contents o.input_buffer)

  -- May the callback be told what the operator says of the end?
  abbrev pub Honest : Option U → Bool → List ℕ → Type 0
  Honest none eof xs = Unit
  Honest (some u) eof xs = eof ≡ true → xs ≡ []

  pub Honest-empty : (u : Option U) (eof : Bool) (xs : List ℕ) → Waits u eof xs → Honest u true xs
  Honest-empty none eof xs w = tt
  Honest-empty (some u) eof xs (e, _) = λ _. e

  pub Honest-open : (u : Option U) (eof : Bool) (xs ys : List ℕ) → Waits u eof xs → Honest u eof ys
  Honest-open none eof xs ys w = tt
  Honest-open (some u) eof xs ys (_, e) = λ t. absurd (true≢false (sym t ∙ e))

  pub Waits-rest :
      (u : Option U) (eof : Bool) (xs ys zs : List ℕ)
      → xs ++ ys ≡ zs
      → Waits u eof zs
      → Waits u eof ys
  Waits-rest none eof xs ys zs e w = tt
  Waits-rest (some u) eof xs ys zs e (z, f) = (nil_of_append xs ys (e ∙ z), f)

  pub set_events-IsIdle : (n : ℕ) (o : Operator U) → IsIdle o → IsIdle (set_events n o)
  unfolding set_events
  set_events-IsIdle n o w = w

  pub close_fd-IsIdle : (o : Operator U) → IsIdle o → IsIdle (close_fd o)
  unfolding close_fd clear_fd
  close_fd-IsIdle o w =
      if_cases IsIdle (is_writer o.fd_mode) _ _
        (λ _. if_cases IsIdle (get_readable_bytes o.output_buffer == 0) _ _ (λ _. w) (λ _. w))
        (λ _. w)

  pub handle_write-IsIdle : (n : ℕ) (o : Operator U) → IsIdle o → IsIdle (handle_write (some n) o)
  unfolding handle_write clear_fd set_events
  handle_write-IsIdle n o w =
      let (bytes, b) = socket_write (some n) o.output_buffer in
      if_cases IsIdle (get_readable_bytes b == 0) _ _
        (λ _. if_cases IsIdle o.file_write_end _ _ (λ _. w) (λ _. w)) (λ _. w)

  -- What a user's callback does to the operator keeps the invariants.
  pub record IsTame (m : Mode) (run_user : Finish U → Operator U → Operator U) : Type 0 where
    pub keeps : (f : Finish U) (o : Operator U) → Inv m o → Inv m (run_user f o)
    pub idles : (f : Finish U) (o : Operator U) → IsIdle o → IsIdle (run_user f o)
