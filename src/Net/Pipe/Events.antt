-- ===== src/Net/Pipe/Events.antt =====
-- The four operations on the mask, and the dispatch of what was registered.
use trantor_net.Base.{
  ℕ, ◌+◌, ◌≡◌, refl, Bool, true, false, not, [], ◌++◌, ◌==◌, if◌then◌else◌, table, table_entry,
  same, same_sound, ◌/◌, ◌%◌, ◌<◌, ◌||◌,
}
use trantor_net.Net.Pipe.{
  Pipe, t_read_event, t_write_event, enable_read, enable_write, disable_read, disable_write,
  handle_read, handle_write, handle_event, has_event,
}

-- The mask of a pipe that is registered for reading, for writing, for both or for neither.
abbrev pub mask : Bool → Bool → ℕ
mask reads writes = (if reads then t_read_event else 0) + (if writes then t_write_event else 0)

module _ {ℓ} {C : Type ℓ} where
  -- On a pipe that is registered for some of reading and writing, each of the four operations sets
  -- or clears its own half and keeps the other.
  pub interest_lem :
      (p : Pipe C) (r w : Bool)
      → p.register_event ≡ mask r w
      → ((enable_read p).register_event ≡ mask true w)
        × ((enable_write p).register_event ≡ mask r true)
        × ((disable_read p).register_event ≡ mask false w)
        × ((disable_write p).register_event ≡ mask r false)
  unfolding enable_read enable_write disable_read disable_write
  interest_lem p true true e = rw e (refl, refl, refl, refl)
  interest_lem p true false e = rw e (refl, refl, refl, refl)
  interest_lem p false true e = rw e (refl, refl, refl, refl)
  interest_lem p false false e = rw e (refl, refl, refl, refl)

-- Is one of the read events, bits 0, 1, 6 and 7, among the ready ones? One of the write events,
-- bits 2, 8 and 9?
abbrev pub read_ready : ℕ → Bool
read_ready revent = not (revent % 4 == 0) || not (revent / 64 % 4 == 0)

abbrev pub write_ready : ℕ → Bool
write_ready revent = not (revent / 4 % 2 == 0) || not (revent / 256 % 4 == 0)

read_table : table (λ e. same (has_event e t_read_event) (read_ready e)) 1024 ≡ true
unfolding table has_event
read_table = refl

write_table : table (λ e. same (has_event e t_write_event) (write_ready e)) 1024 ≡ true
unfolding table has_event
write_table = refl

reads : (revent : ℕ) → revent < 1024 → has_event revent t_read_event ≡ read_ready revent
reads revent h = same_sound _ _ (table_entry _ read_table revent h)

writes : (revent : ℕ) → revent < 1024 → has_event revent t_write_event ≡ write_ready revent
writes revent h = same_sound _ _ (table_entry _ write_table revent h)

module _ {ℓ} {C : Type ℓ} where
  -- Of ready events below 2^10, the read events run the read handler and then the write events run
  -- the write handler; error and hang-up (bits 3 and 4) run nothing, alone or beside others.
  pub handle_event_lem :
      (p : Pipe C) (revent : ℕ)
      → revent < 1024
      → handle_event p revent
        ≡ (if read_ready revent then handle_read p else [])
          ++ (if write_ready revent then handle_write p else [])
  unfolding handle_event
  handle_event_lem p revent h = rw (reads revent h, writes revent h)
