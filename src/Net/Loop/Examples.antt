-- ===== src/Net/Loop/Examples.antt =====
-- The theorems about TrantorLoop at a concrete epoll and concrete runs, and tests.
use trantor_net.Base.{ℕ, ◌≡◌, refl, false, none, some, [], ◌∷◌, ◌++◌, arith}
use trantor_net.Net.EPoll.{ready, start_epoll, insert_event, insert_events}
use trantor_net.Net.EPoll.Table.{epoll_table}
use trantor_net.Net.Loop.{Loop, remove_pipe_in_loop, loop_entry}
use trantor_net.Net.Loop.Interleaving.{
  outside, pushed, with_pc, System, start, push, wake, wait_own, read, swap, run, finish, Steps,
  here, next,
}
use trantor_net.Net.Loop.Interleaving.NoLostTask.{tasks_in_order, no_lost_task}

-- Pipe `n` is on descriptor `n`; a user task `n` removes pipe `n`.
abbrev idle_loop : Loop epoll_table ℕ
idle_loop = record {
  epoll = record { kernel = λ _. none; vec_size = 100 };
  pipe_map = [];
  pipes = λ n. record { fd = n; register_event = 0xc3; read_cb = some n; write_cb = none };
  loop_funcs_list = [];
  need_wakeup = false;
  eventfd = 0;
  log = [];
}

abbrev removing : ℕ → Loop epoll_table ℕ → Loop epoll_table ℕ
removing n = remove_pipe_in_loop epoll_table ℕ (some n)

abbrev entered : Loop epoll_table ℕ
entered = loop_entry epoll_table ℕ (some 3) (some 4) idle_loop

-- Two descriptors come out in order, and a vector of two that was filled is doubled.
two_ready : start_epoll (ready ((9, 1) ∷ (4, 2) ∷ [])) [] 2 ≡ ((4, 2) ∷ (9, 1) ∷ [], 4)
unfolding start_epoll insert_events insert_event
two_ready = refl

-- Thread 0 hands over task 5, wakes the loop, and the loop runs it.
abbrev one_posted : System ℕ
one_posted = record start {
  queue = 5 ∷ [];
  posted = 5 ∷ [];
  pc = with_pc (with_pc (λ _. outside) 0 pushed) 0 outside;
  eventfd = 1;
}

one_posted-Steps : Steps start one_posted
one_posted-Steps = next (next here (push 0 5 refl refl)) (wake 0 refl refl)

all_outside : (i : ℕ) → one_posted.pc i ≡ outside
all_outside i = ground arith

tasks_in_order_example :
    one_posted.ran ++ (one_posted.taken ++ one_posted.queue) ≡ one_posted.posted
tasks_in_order_example = tasks_in_order one_posted-Steps

abbrev all_ran : System ℕ
all_ran = record one_posted { queue = []; eventfd = 0; ran = 5 ∷ [] }

all_ran-Steps : Steps start all_ran
all_ran-Steps =
    next
      (next
        (next (next (next one_posted-Steps (wait_own refl (omega arith) refl)) (read refl refl))
          (swap refl refl))
        (run 5 [] refl refl refl))
      (finish refl refl refl)

no_lost_task_example : all_ran.ran ≡ 5 ∷ []
no_lost_task_example = no_lost_task all_ran-Steps refl refl all_outside
