-- ===== src/Thread/Waking/Examples.antt =====
-- A pool of two threads.
use trantor_net.Base.{ℕ, ◌<◌, ◌≡◌, ◌⊎◌, refl, true, false, some, get_elem?, length, arith}
use trantor_net.Thread.Waking.{
  Later, wakes, Stage, asleep, notified, Crew, new_crew, move, push, check_alive, wait_not_empty,
  notify_empty, locked, shut_down, check, lock, turn, push_task, Reachable, here, next,
}
use trantor_net.Thread.Waking.Counts.{awake_of, busy_of}
use trantor_net.Thread.Waking.Invariant.{is_waiting}
use trantor_net.Thread.Waking.Awake.{somebody_awake}
use trantor_net.Thread.Waking.Destroy.{destroy_leaves_asleep}

abbrev idle : Crew ℕ
idle = locked 1 (check_alive 1 (locked 0 (check_alive 0 (new_crew 2))))

abbrev given : Crew ℕ
given = push 7 idle

stages :
    (get_elem? (check_alive 0 (new_crew {T = ℕ} 2)).workers 0 ≡ some Stage.locking)
    × (get_elem? (locked 0 (check_alive 0 (new_crew {T = ℕ} 2))).workers 1 ≡ some Stage.top)
    × (get_elem? (check_alive 1 (locked 0 (check_alive 0 (new_crew {T = ℕ} 2)))).workers 1
        ≡ some Stage.locking)
unfolding check_alive locked wait_not_empty notify_empty
stages = (refl, refl, refl)

given-Reachable : Reachable 2 given
given-Reachable =
    next
      (next
        (next (next (next here (turn (check 0 refl refl))) (turn (lock 0 stages.0 refl)))
          (turn (check 1 stages.1 refl)))
        (turn (lock 1 stages.2 refl)))
      (push_task 7 refl)

given_alive : given.pool_alive ≡ true
unfolding push check_alive locked wait_not_empty notify_empty
given_alive = refl

somebody_awake_example :
    ((length given.task_queue ≡ 0)
      ⊎ (0 < given.notices)
      ⊎ ((i : ℕ) × (s : Stage) × (get_elem? given.workers i ≡ some s) × (0 < awake_of s)))
    × ((is_waiting given.waiter ≡ false)
        ⊎ (0 < length given.task_queue)
        ⊎ ((i : ℕ) × (s : Stage) × (get_elem? given.workers i ≡ some s) × (0 < busy_of s)))
somebody_awake_example = somebody_awake 2 given (omega arith) given-Reachable given_alive

-- Both sleep when the destructor comes.
abbrev woken : Crew ℕ
woken = move 0 notified (shut_down idle)

both_asleep :
    (get_elem? idle.workers 0 ≡ some asleep)
    × (get_elem? idle.workers 1 ≡ some asleep)
    × (idle.notices ≡ 0)
    × (get_elem? woken.workers 0 ≡ some notified)
unfolding check_alive locked wait_not_empty notify_empty shut_down
both_asleep = (refl, refl, refl, refl)

destroy_leaves_asleep_example :
    (k : ℕ) × (get_elem? idle.workers k ≡ some asleep)
    × ((e : Crew ℕ) → Later woken e → get_elem? e.workers k ≡ some asleep)
destroy_leaves_asleep_example =
    destroy_leaves_asleep idle woken 0 1 both_asleep.0 both_asleep.1 (λ e. omega (arith, e))
      both_asleep.2 (wakes 0 both_asleep.0 refl)
