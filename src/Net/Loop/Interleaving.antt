-- ===== src/Net/Loop/Interleaving.antt =====
-- `queueInLoop`, the wait and `runLoopFuncs` interleaved: any number of threads hand tasks to a
-- loop that waits, reads its eventfd, takes the queue and runs what it took.
-- One step is one access to what the threads share: the queue (under its mutex) or the eventfd.
-- The posting threads are not the loop's own, so `!isInLoopThread()` holds and each post wakes.
pub mod NoLostTask
use trantor_net.Base.{
  ℕ, suc, ◌+◌, ◌<◌, ◌≡◌, Bool, true, false, List, [], ◌∷◌, ◌++◌, ◌==◌, if◌then◌else◌,
}

-- Where a posting thread stands: outside `queueInLoop`, or between its push and its wake-up.
pub data Pc : Type 0 where
  outside pushed : Pc

-- Where the loop stands: in `epoll_wait`; back from it, with the eventfd among the ready
-- descriptors or not; behind `handleEvents`; in the `for` of `runLoopFuncs`.
pub data Phase : Type 0 where
  waiting : Phase
  woken : Bool → Phase
  handled running : Phase

abbrev pub with_pc : (ℕ → Pc) → ℕ → Pc → ℕ → Pc
with_pc pcs thread new other = if thread == other then new else pcs other

-- `taken` is the swapped-out list; `ran` and `posted` are the histories of both ends.
pub record System (T : Type 0) : Type 0 where
  pub queue : List T
  pub eventfd : ℕ
  pub phase : Phase
  pub taken : List T
  pub pc : ℕ → Pc
  pub ran : List T
  pub posted : List T

abbrev pub start : {T : Type 0} → System T
start = record {
  queue = [];
  eventfd = 0;
  phase = waiting;
  taken = [];
  pc = λ _. outside;
  ran = [];
  posted = [];
}

module _ {T : Type 0} where
  pub data Step (s u : System T) : Type 0 where
    push :
        (i : ℕ) (t : T)
        → s.pc i ≡ outside
        → u ≡ record s {
          queue = s.queue ++ (t ∷ []);
          posted = s.posted ++ (t ∷ []);
          pc = with_pc s.pc i pushed;
        }
        → Step s u
    wake :
        (i : ℕ)
        → s.pc i ≡ pushed
        → u ≡ record s { eventfd = s.eventfd + 1; pc = with_pc s.pc i outside }
        → Step s u
    wait_own : s.phase ≡ waiting → 0 < s.eventfd → u ≡ record s { phase = woken true } → Step s u
    wait_other : s.phase ≡ waiting → u ≡ record s { phase = woken false } → Step s u
    read : s.phase ≡ woken true → u ≡ record s { phase = handled; eventfd = 0 } → Step s u
    pass : s.phase ≡ woken false → u ≡ record s { phase = handled } → Step s u
    swap :
        s.phase ≡ handled → u ≡ record s { phase = running; taken = s.queue; queue = [] } → Step s u
    run :
        (t : T) (rest : List T)
        → s.phase ≡ running
        → s.taken ≡ t ∷ rest
        → u ≡ record s { taken = rest; ran = s.ran ++ (t ∷ []) }
        → Step s u
    finish : s.phase ≡ running → s.taken ≡ [] → u ≡ record s { phase = waiting } → Step s u

  pub data Steps (s : System T) : System T → Type 0 where
    here : Steps s s
    next : {u v : System T} → Steps s u → Step u v → Steps s v
