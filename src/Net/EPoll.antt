-- ===== src/Net/EPoll.antt =====
-- TrantorEPoll (src/net/inc/TrantorEPoll.h, src/net/src/TrantorEPoll.cc): the calls of epoll, and
-- the events of one wait as a map from descriptors.
pub mod Events
pub mod Table
use trantor_net.Base.{
  ℕ, suc, ◌+◌, ◌*◌, ◌≡◌, Bool, true, false, Option, none, some, List, [], ◌∷◌, ltb, ◌==◌,
  if◌then◌else◌, length, u32,
}

-- What the source relies on of epoll, as its manual page documents it: the interest list gives for
-- a descriptor the events it is registered with; ADD refuses a registered descriptor, MOD and DEL
-- refuse one that is not registered, and a refused call changes nothing. ADD and MOD can be refused
-- for other reasons as well (EBADF, EPERM, ENOMEM, ENOSPC): `accepts` says for which they are not.
pub record Kernel : Type 1 where
  pub State : Type 0
  pub interest : State → ℕ → Option ℕ
  pub accepts : State → ℕ → ℕ → Bool
  pub ctl_add : State → ℕ → ℕ → State
  pub ctl_mod : State → ℕ → ℕ → State
  pub ctl_del : State → ℕ → State
  pub interest-ctl_add :
      (s : State) (fd ev j : ℕ)
      → interest (ctl_add s fd ev) j ≡ (
          if fd == j
          then elim (interest s j) [
            | none ↦ if accepts s fd ev then some ev else none
            | some e ↦ some e
          ]
          else interest s j)
  pub interest-ctl_mod :
      (s : State) (fd ev j : ℕ)
      → interest (ctl_mod s fd ev) j ≡ (
          if fd == j
          then elim (interest s j) [
            | none ↦ none
            | some e ↦ if accepts s fd ev then some ev else some e
          ]
          else interest s j)
  pub interest-ctl_del :
      (s : State) (fd j : ℕ) → interest (ctl_del s fd) j ≡ (if fd == j then none else interest s j)

module _ (K : Kernel) where
  open K use {State, ctl_add, ctl_mod, ctl_del}

  pub record EPoll : Type 0 where
    pub kernel : State
    pub vec_size : ℕ  -- events_vec.size()

  abbrev pub new_epoll : State → EPoll
  new_epoll k = record { kernel = k; vec_size = 100 }

  unfoldable pub register_fd : EPoll → ℕ → ℕ → EPoll
  register_fd e fd events = record e { kernel = ctl_add e.kernel fd events }

  unfoldable pub update_fd : EPoll → ℕ → ℕ → EPoll
  update_fd e fd events = record e { kernel = ctl_mod e.kernel fd events }

  unfoldable pub remove_fd : EPoll → ℕ → EPoll
  remove_fd e fd = record e { kernel = ctl_del e.kernel fd }

-- `map::insert`: keys ascend, and a key that is there keeps its value.
unfoldable pub insert_event : ℕ → ℕ → List (ℕ × ℕ) → List (ℕ × ℕ)
insert_event fd ev [] = (fd, ev) ∷ []
insert_event fd ev ((k, v) ∷ m) =
    let later = insert_event fd ev m in
    if ltb fd k then (fd, ev) ∷ (k, v) ∷ m else if fd == k then (k, v) ∷ m else (k, v) ∷ later

unfoldable pub insert_events : List (ℕ × ℕ) → List (ℕ × ℕ) → List (ℕ × ℕ)
insert_events [] m = m
insert_events ((fd, ev) ∷ ready) m = insert_events ready (insert_event fd ev m)

-- What `epoll_wait` returns: an error, or the first `nfds` cells of the vector.
pub data Wait : Type 0 where
  failed : Wait
  ready : List (ℕ × ℕ) → Wait

-- One wait: the event map after it, and the size of the vector for the next.
unfoldable pub start_epoll : Wait → List (ℕ × ℕ) → ℕ → List (ℕ × ℕ) × ℕ
start_epoll failed event_map vec_size = (event_map, vec_size)
start_epoll (ready events) event_map vec_size =
    (insert_events events event_map, if length events == vec_size then 2 * vec_size else vec_size)
