-- ===== src/Net/EPoll/Events.antt =====
-- The event map of a wait, and the size of the vector that receives it.
use trantor_net.Base.{
  ℕ, suc, ◌≤◌, ◌<◌, ◌≡◌, refl, Option, none, some, List, [], ◌∷◌, arith, ◌==◌, if◌then◌else◌,
  length,
}
use trantor_net.Net.EPoll.{insert_event, insert_events, ready, start_epoll}

abbrev pub lookup_event : ℕ → List (ℕ × ℕ) → Option ℕ
lookup_event j [] = none
lookup_event j ((k, v) ∷ m) = if k == j then some v else lookup_event j m

-- Every key is above the bound, and the keys ascend.
abbrev pub Above : ℕ → List (ℕ × ℕ) → Type 0
Above n [] = Unit
Above n ((k, v) ∷ m) = (n ≤ k) × Above (suc k) m

abbrev or_else : Option ℕ → Option ℕ → Option ℕ
or_else none o = o
or_else (some v) o = some v

lookup-Above : (n j : ℕ) (m : List (ℕ × ℕ)) → Above n m → j < n → lookup_event j m ≡ none
lookup-Above n j [] h lt = refl
lookup-Above n j ((k, v) ∷ m) h lt = ground (arith, lookup-Above (suc k) j m h.1)

insert_event-Above :
    (n fd ev : ℕ) (m : List (ℕ × ℕ)) → Above n m → n ≤ fd → Above n (insert_event fd ev m)
unfolding insert_event
insert_event-Above n fd ev [] h le = (le, tt)
insert_event-Above n fd ev ((k, v) ∷ m) h le =
    ground (arith, insert_event-Above (suc k) fd ev m h.1)

lookup-insert_event :
    (n fd ev j : ℕ) (m : List (ℕ × ℕ))
    → Above n m
    → lookup_event j (insert_event fd ev m)
      ≡ or_else (lookup_event j m) (if fd == j then some ev else none)
unfolding insert_event
lookup-insert_event n fd ev j [] h = refl
lookup-insert_event n fd ev j ((k, v) ∷ m) h =
    ground (arith, lookup-insert_event (suc k) fd ev j m h.1, lookup-Above (suc k) j m h.1)

insert_events-Above : (events m : List (ℕ × ℕ)) → Above 0 m → Above 0 (insert_events events m)
unfolding insert_events
insert_events-Above [] m h = h
insert_events-Above ((fd, ev) ∷ events) m h =
    insert_events-Above events (insert_event fd ev m) (insert_event-Above 0 fd ev m h (omega arith))

lookup-insert_events :
    (events m : List (ℕ × ℕ)) (j : ℕ)
    → Above 0 m
    → lookup_event j (insert_events events m) ≡ or_else (lookup_event j m) (lookup_event j events)
unfolding insert_events
lookup-insert_events [] m j h = ground arith
lookup-insert_events ((fd, ev) ∷ events) m j h = ground (
  arith,
  lookup-insert_events events (insert_event fd ev m) j
      (insert_event-Above 0 fd ev m h (omega arith)),
  lookup-insert_event 0 fd ev j m h,
)

-- After a wait that returns events, the loop's fresh map has the ready descriptors in ascending
-- order and without repetition, each with the events that were reported for it first. A vector that
-- was filled to its end is doubled for the next wait, and no vector shrinks.
pub start_epoll_lem :
    (events : List (ℕ × ℕ)) (size : ℕ)
    → let (event_map, next) = start_epoll (ready events) [] size in
      Above 0 event_map
      × ((j : ℕ) → lookup_event j event_map ≡ lookup_event j events)
      × (size ≤ next)
      × (0 < size → length events ≤ size → length events < next)
unfolding start_epoll
start_epoll_lem events size = (
  insert_events-Above events [] tt,
  λ j. lookup-insert_events events [] j tt,
  ground arith,
  λ p h. ground arith,
)
