-- ===== src/Aio/Manager/Open.antt =====
-- The manager against the history of what was opened and closed.
use trantor_net.Base.{
  ℕ, ◌==◌, ◌&&◌, ◌≡◌, ◌↔◌, refl, sym, ◌∙◌, ap, Bool, true, false, List, [], ◌∷◌, if◌then◌else◌,
  contains,
}
use mathlib.Core.Bool.{true≢false}
use trantor_net.Net.Loop.{find}
use trantor_net.Aio.Manager.{
  Op, open_write, open_read, close_write, close_read, apply, run, insert_write_fdop,
  insert_read_fdop, erase_write_fdop, erase_read_fdop, wait_to_write, trig_read_event, is_some_list,
}
use trantor_net.Aio.Manager.Sets.{
  has, has-join, has-leave, nobody, IsInhabited, join-IsInhabited, leave-IsInhabited, waits_iff,
}

-- Is the file open by this operator, by its last operation?
pub is_writing : List Op → ℕ → ℕ → Bool
is_writing [] q j = false
is_writing (open_write p i ∷ ops) q j =
    let before = is_writing ops q j in if (p == q) && (i == j) then true else before
is_writing (close_write p i ∷ ops) q j =
    let before = is_writing ops q j in if (p == q) && (i == j) then false else before
is_writing (_ ∷ ops) q j = is_writing ops q j

pub is_reading : List Op → ℕ → ℕ → Bool
is_reading [] q j = false
is_reading (open_read p i ∷ ops) q j =
    let before = is_reading ops q j in if (p == q) && (i == j) then true else before
is_reading (close_read p i ∷ ops) q j =
    let before = is_reading ops q j in if (p == q) && (i == j) then false else before
is_reading (_ ∷ ops) q j = is_reading ops q j

run-IsInhabited : (ops : List Op) → IsInhabited (run ops).write_fdop_map
unfolding run apply insert_write_fdop insert_read_fdop erase_write_fdop erase_read_fdop IsInhabited
    find
run-IsInhabited [] = λ q e. absurd (true≢false (sym (ap is_some_list e)))
run-IsInhabited (open_write p i ∷ ops) = join-IsInhabited p i _ (run-IsInhabited ops)
run-IsInhabited (close_write p i ∷ ops) = leave-IsInhabited p i _ (run-IsInhabited ops)
run-IsInhabited (open_read p i ∷ ops) = run-IsInhabited ops
run-IsInhabited (close_read p i ∷ ops) = run-IsInhabited ops

writers : (ops : List Op) (q j : ℕ) → has q j (run ops).write_fdop_map ≡ is_writing ops q j
unfolding run apply insert_write_fdop insert_read_fdop erase_write_fdop erase_read_fdop is_writing
    find
writers [] q j = nobody q j [] refl
writers (open_write p i ∷ ops) q j =
    has-join p i q j (run ops).write_fdop_map
    ∙ ap (λ b. if (p == q) && (i == j) then true else b) (writers ops q j)
writers (close_write p i ∷ ops) q j =
    has-leave p i q j (run ops).write_fdop_map
    ∙ ap (λ b. if (p == q) && (i == j) then false else b) (writers ops q j)
writers (open_read p i ∷ ops) q j = writers ops q j
writers (close_read p i ∷ ops) q j = writers ops q j

readers : (ops : List Op) (q j : ℕ) → has q j (run ops).read_fdop_map ≡ is_reading ops q j
unfolding run apply insert_write_fdop insert_read_fdop erase_write_fdop erase_read_fdop is_reading
    find
readers [] q j = nobody q j [] refl
readers (open_read p i ∷ ops) q j =
    has-join p i q j (run ops).read_fdop_map
    ∙ ap (λ b. if (p == q) && (i == j) then true else b) (readers ops q j)
readers (close_read p i ∷ ops) q j =
    has-leave p i q j (run ops).read_fdop_map
    ∙ ap (λ b. if (p == q) && (i == j) then false else b) (readers ops q j)
readers (open_write p i ∷ ops) q j = readers ops q j
readers (close_write p i ∷ ops) q j = readers ops q j

-- After any operations a reader at the end of a file waits for a writer exactly when some operator
-- has the file open for writing, and what is written wakes exactly the operators that have it open
-- for reading.
pub manager_refines :
    (ops : List Op) (path : ℕ)
    → ((wait_to_write path (run ops) ≡ true) ↔ ((j : ℕ) × (is_writing ops path j ≡ true)))
      × ((j : ℕ) → contains j (trig_read_event path (run ops)) ≡ is_reading ops path j)
unfolding wait_to_write trig_read_event
manager_refines ops path =
    let w = waits_iff path (run ops).write_fdop_map (run-IsInhabited ops) in
    (
      (
        λ e. let (j, h) = w.0 e in (j, sym (writers ops path j) ∙ h),
        λ (j, h). w.1 (j, writers ops path j ∙ h),
      ),
      λ j. readers ops path j,
    )
