-- ===== src/Net/LoopPool.antt =====
-- TrantorLoopThreadPool (src/net/inc/TrantorLoopThreadPool.h, src/net/src/TrantorLoopThreadPool.cc):
-- loops, each in a thread of its own, handed out in turn. A loop is its number.
pub mod RoundRobin
use trantor_net.Base.{
  ℕ, zero, suc, ◌+◌, ◌%◌, Option, none, some, List, [], ◌∷◌, ◌++◌, length, get_or,
}

pub record LoopPool : Type 0 where
  pub loop_pool : List ℕ
  pub current_index : ℕ

-- The constructor starts `thread_num` threads; `first` is the number of the first loop.
abbrev pub start_loops : ℕ → ℕ → List ℕ
start_loops zero first = []
start_loops (suc thread_num) first = first ∷ start_loops thread_num (suc first)

abbrev pub new_loop_pool : ℕ → LoopPool
new_loop_pool thread_num = record { loop_pool = start_loops thread_num 0; current_index = 0 }

unfoldable pub loop_after : List ℕ → ℕ → Option (ℕ × ℕ)
loop_after [] index = none
loop_after (x ∷ xs) index = let i = (index + 1) % length (x ∷ xs) in some (get_or (x ∷ xs) i 0, i)

-- The loop, and the pool after; `none` is the division by zero that an empty pool leads to.
unfoldable pub get_next_loop : LoopPool → Option (ℕ × LoopPool)
unfolding loop_after
get_next_loop p = elim (loop_after p.loop_pool p.current_index) [
  | none ↦ none
  | some (loop, i) ↦ some (loop, record p { current_index = i })
]
