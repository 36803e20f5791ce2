-- ===== src/Thread/ShareMutex.antt =====
-- TrantorShareMutex (src/thread/inc/TrantorShareMutex.h, src/thread/src/TrantorShareMutex.cc) and its
-- two guards, as a step relation on the counts, on whether a writer holds `write_mtx_` while it waits
-- for the readers, and on the threads. A thread in a wait goes on whenever its condition holds.
pub mod Exclusion
use trantor_net.Base.{
  ℕ, zero, suc, ◌+◌, ◌-◌, ◌^◌, ◌≤◌, ◌<◌, ◌≡◌, ◌⊎◌, refl, subst, sym, ap, ◌∙◌, Bool, true, false,
  Option, none, some, List, [], ◌∷◌, if◌then◌else◌, ltb, ◌==◌, u32, arith, Bool-cases, inl, inr,
  length, get_elem?, set, sum, sum-set, sum_zero, length-set,
}

-- A thread outside, between `readLock` and `readUnLock`, in the second wait of `writeLock`, or
-- between `writeLock` and `writeUnLock`.
pub data Pc : Type 0 where
  outside reading draining writing : Pc

pub record ShareMutex : Type 0 where
  pub read_count : ℕ
  pub write_count : ℕ

-- `readLock` behind the lock of `write_mtx_`; `none` stays in the wait.
unfoldable pub read_lock : ShareMutex → Option ShareMutex
read_lock m =
    if m.write_count == 0 then some (record m { read_count = u32 (m.read_count + 1) }) else none

-- `writeLock` up to the wait for the readers: does the first wait return?
unfoldable pub write_lock_begin : ShareMutex → Bool
write_lock_begin m = m.write_count == 0

-- The rest of `writeLock`.
unfoldable pub write_lock_end : ShareMutex → Option ShareMutex
write_lock_end m =
    if m.read_count == 0 then some (record m { write_count = u32 (m.write_count + 1) }) else none

unfoldable pub read_un_lock : ShareMutex → ShareMutex
read_un_lock m = if ltb 0 m.read_count then record m { read_count = m.read_count - 1 } else m

unfoldable pub write_un_lock : ShareMutex → ShareMutex
write_un_lock m = if ltb 0 m.write_count then record m { write_count = m.write_count - 1 } else m

pub record System : Type 0 where
  pub mutex : ShareMutex
  pub write_mtx : Bool  -- held by a writer in its second wait
  pub threads : List Pc

pub data Step (s u : System) : Type 0 where
  read_in :
      (i : ℕ) (m : ShareMutex)
      → get_elem? s.threads i ≡ some outside
      → s.write_mtx ≡ false
      → read_lock s.mutex ≡ some m
      → u ≡ record s { mutex = m; threads = set s.threads i reading }
      → Step s u
  write_begin :
      (i : ℕ)
      → get_elem? s.threads i ≡ some outside
      → s.write_mtx ≡ false
      → write_lock_begin s.mutex ≡ true
      → u ≡ record s { write_mtx = true; threads = set s.threads i draining }
      → Step s u
  write_in :
      (i : ℕ) (m : ShareMutex)
      → get_elem? s.threads i ≡ some draining
      → write_lock_end s.mutex ≡ some m
      → u ≡ record { mutex = m; write_mtx = false; threads = set s.threads i writing }
      → Step s u
  read_out :
      (i : ℕ)
      → get_elem? s.threads i ≡ some reading
      → u ≡ record s { mutex = read_un_lock s.mutex; threads = set s.threads i outside }
      → Step s u
  write_out :
      (i : ℕ)
      → get_elem? s.threads i ≡ some writing
      → s.write_mtx ≡ false
      → u ≡ record s { mutex = write_un_lock s.mutex; threads = set s.threads i outside }
      → Step s u

abbrev pub idle_threads : ℕ → List Pc
idle_threads zero = []
idle_threads (suc n) = outside ∷ idle_threads n

pub data Reachable (n : ℕ) : System → Type 0 where
  here : Reachable n (record {
    mutex = record { read_count = 0; write_count = 0 };
    write_mtx = false;
    threads = idle_threads n;
  })
  next : {s u : System} → Reachable n s → Step s u → Reachable n u

abbrev pub is_reading : Pc → ℕ
is_reading reading = 1
is_reading _ = 0

abbrev pub is_draining : Pc → ℕ
is_draining draining = 1
is_draining _ = 0

abbrev pub is_writing : Pc → ℕ
is_writing writing = 1
is_writing _ = 0

abbrev pub readers : System → ℕ
readers s = sum is_reading s.threads

abbrev pub writers : System → ℕ
writers s = sum is_writing s.threads

abbrev pub drainers : System → ℕ
drainers s = sum is_draining s.threads
