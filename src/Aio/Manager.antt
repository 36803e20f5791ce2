-- ===== src/Aio/Manager.antt =====
-- FdOperatorManager (src/aio/inc/FdOperatorManager.h, src/aio/src/FdOperatorManager.cc): which
-- operators have which file open, for writing and for reading. A path and an operator are their
-- numbers. The operators whose `enableReading` is called are what an operation returns.
pub mod Sets
pub mod Open
use trantor_net.Base.{
  ℕ, ◌==◌, ◌||◌, Bool, true, false, Option, none, some, List, [], ◌∷◌, if◌then◌else◌, contains,
  without,
}
use trantor_net.Net.Loop.{find, put, erase}

abbrev pub FdMap : Type 0
FdMap = List (ℕ × List ℕ)

pub record Manager : Type 0 where
  pub write_fdop_map : FdMap
  pub read_fdop_map : FdMap

abbrev pub new_manager : Manager
new_manager = record { write_fdop_map = []; read_fdop_map = [] }

abbrev pub set_of : Option (List ℕ) → List ℕ
set_of none = []
set_of (some fdops) = fdops

-- `map[path]`, where a missing set is empty.
unfoldable pub members : ℕ → FdMap → List ℕ
members path m = set_of (find path m)

-- `map[path].insert(fdop)`
unfoldable pub join : ℕ → ℕ → FdMap → FdMap
unfolding members
join path fdop m =
    let fdops = members path m in put path (if contains fdop fdops then fdops else fdop ∷ fdops) m

-- What is left of the set, and no set at all if that is empty.
unfoldable pub leave_behind : ℕ → List ℕ → FdMap → FdMap
leave_behind path [] m = erase path m
leave_behind path (x ∷ rest) m = put path (x ∷ rest) m

unfoldable pub leave : ℕ → ℕ → FdMap → FdMap
unfolding leave_behind
leave path fdop m = elim (find path m) [
  | none ↦ m
  | some fdops ↦ leave_behind path (without fdop fdops) m
]

unfoldable pub insert_write_fdop : ℕ → ℕ → Manager → Manager
unfolding join
insert_write_fdop path fdop m = record m { write_fdop_map = join path fdop m.write_fdop_map }

unfoldable pub insert_read_fdop : ℕ → ℕ → Manager → Manager
unfolding join
insert_read_fdop path fdop m = record m { read_fdop_map = join path fdop m.read_fdop_map }

abbrev pub is_some_list : Option (List ℕ) → Bool
is_some_list none = false
is_some_list (some fdops) = true

unfoldable pub wait_to_write : ℕ → Manager → Bool
wait_to_write path m = is_some_list (find path m.write_fdop_map)

-- `eraseWriteFdop`: the last writer lets the readers read on.
unfoldable pub erase_write_fdop : ℕ → ℕ → Manager → Manager × List ℕ
unfolding leave members wait_to_write
erase_write_fdop path fdop m =
    let after : Manager = record m { write_fdop_map = leave path fdop m.write_fdop_map } in
    (
      after,
      if wait_to_write path m
          then if wait_to_write path after then [] else members path m.read_fdop_map
          else [],
    )

unfoldable pub erase_read_fdop : ℕ → ℕ → Manager → Manager
unfolding leave
erase_read_fdop path fdop m = record m { read_fdop_map = leave path fdop m.read_fdop_map }

-- `openFd` and `clearFd`, in the two modes.
pub data Op : Type 0 where
  open_write open_read close_write close_read : ℕ → ℕ → Op

unfoldable pub apply : Op → Manager → Manager
unfolding insert_write_fdop insert_read_fdop erase_write_fdop erase_read_fdop
apply (open_write path fdop) m = insert_write_fdop path fdop m
apply (open_read path fdop) m = insert_read_fdop path fdop m
apply (close_write path fdop) m = (erase_write_fdop path fdop m).0
apply (close_read path fdop) m = erase_read_fdop path fdop m

-- The latest operation is the first of the list.
unfoldable pub run : List Op → Manager
unfolding apply
run [] = new_manager
run (op ∷ ops) = apply op (run ops)

-- `trigReadEvent`
unfoldable pub trig_read_event : ℕ → Manager → List ℕ
unfolding members
trig_read_event path m = members path m.read_fdop_map
