-- ===== src/Thread/ShareMutex/Exclusion.antt =====
-- Readers and writers exclude each other.
use trantor_net.Base.{
  ℕ, zero, suc, ◌+◌, ◌-◌, ◌^◌, ◌≤◌, ◌<◌, ◌≡◌, ◌⊎◌, refl, subst, sym, true, false, some, List, u32,
  arith, Bool-cases, inl, inr, length, get_elem?, set, sum, sum-set, length-set, sum_le_length,
}
use trantor_net.Thread.ShareMutex.{
  Pc, outside, reading, draining, writing, ShareMutex, read_lock, write_lock_begin, write_lock_end,
  read_un_lock, write_un_lock, System, Step, read_in, write_begin, write_in, read_out, write_out,
  idle_threads, Reachable, here, next, is_reading, is_draining, is_writing, readers, writers,
  drainers,
}

-- The counts count, and the threads exclude each other.
record Inv (n : ℕ) (s : System) : Type 0 where
  size : length s.threads ≡ n
  reads : s.mutex.read_count ≡ readers s
  writes : s.mutex.write_count ≡ writers s
  held : s.write_mtx ≡ true → (drainers s ≡ 1) × (writers s ≡ 0)
  free : s.write_mtx ≡ false → drainers s ≡ 0
  exclusive : (writers s ≡ 0) ⊎ ((writers s ≡ 1) × (readers s ≡ 0))

-- What a thread's change does to the numbers.
record Moved (before : List Pc) (a b : Pc) (after : List Pc) : Type 0 where
  size : length after ≡ length before
  reads : sum is_reading after + is_reading a ≡ sum is_reading before + is_reading b
  drains : sum is_draining after + is_draining a ≡ sum is_draining before + is_draining b
  writes : sum is_writing after + is_writing a ≡ sum is_writing before + is_writing b

moved : (ts : List Pc) (i : ℕ) (a b : Pc) → get_elem? ts i ≡ some a → Moved ts a b (set ts i b)
moved ts i a b e = record {
  size = length-set ts i b;
  reads = sum-set is_reading ts i a b e;
  drains = sum-set is_draining ts i a b e;
  writes = sum-set is_writing ts i a b e;
}

one_reader : (p : Pc) → is_reading p ≤ 1
one_reader outside = omega arith
one_reader reading = omega arith
one_reader draining = omega arith
one_reader writing = omega arith

one_writer : (p : Pc) → is_writing p ≤ 1
one_writer outside = omega arith
one_writer reading = omega arith
one_writer draining = omega arith
one_writer writing = omega arith

read_lock_parts :
    (m k : ShareMutex)
    → read_lock m ≡ some k
    → (m.write_count ≡ 0) × (k.write_count ≡ 0) × (k.read_count ≡ u32 (m.read_count + 1))
unfolding read_lock
read_lock_parts m k e = ground arith

write_lock_end_parts :
    (m k : ShareMutex)
    → write_lock_end m ≡ some k
    → (m.read_count ≡ 0) × (k.read_count ≡ 0) × (k.write_count ≡ u32 (m.write_count + 1))
unfolding write_lock_end
write_lock_end_parts m k e = ground arith

read_in-Inv :
    (n : ℕ) (s : System) (i : ℕ) (m : ShareMutex)
    → n < 2 ^ 32
    → Inv n s
    → get_elem? s.threads i ≡ some outside
    → s.write_mtx ≡ false
    → read_lock s.mutex ≡ some m
    → Inv n (record s { mutex = m; threads = set s.threads i reading })
read_in-Inv n s i m b h g f e =
    let move = moved s.threads i outside reading g in
    let (w, w', r) = read_lock_parts s.mutex m e in
    let few = sum_le_length is_reading (set s.threads i reading) one_reader in
    record {
      size = omega (arith, move.size, h.size);
      reads = omega (arith, move.reads, move.size, h.size, h.reads, r, few);
      writes = omega (arith, move.writes, h.writes, w, w');
      held = λ t. ground arith;
      free = λ t. omega (arith, move.drains, h.free f);
      exclusive = inl (omega (arith, move.writes, h.writes, w));
    }

write_begin-Inv :
    (n : ℕ) (s : System) (i : ℕ)
    → Inv n s
    → get_elem? s.threads i ≡ some outside
    → s.write_mtx ≡ false
    → s.mutex.write_count ≡ 0
    → Inv n (record s { write_mtx = true; threads = set s.threads i draining })
write_begin-Inv n s i h g f w =
    let move = moved s.threads i outside draining g in
    record {
      size = omega (arith, move.size, h.size);
      reads = omega (arith, move.reads, h.reads);
      writes = omega (arith, move.writes, h.writes);
      held = λ _. (omega (arith, move.drains, h.free f), omega (arith, move.writes, h.writes, w));
      free = λ t. ground arith;
      exclusive = inl (omega (arith, move.writes, h.writes, w));
    }

-- A writer in its second wait holds `write_mtx_`.
drains_held : (n : ℕ) (s : System) → Inv n s → 0 < drainers s → (drainers s ≡ 1) × (writers s ≡ 0)
drains_held n s h l = elim (Bool-cases s.write_mtx) [
  | inl e ↦ h.held e
  | inr e ↦ (omega (arith, h.free e, l), omega (arith, h.free e, l))
]

write_in-Inv :
    (n : ℕ) (s : System) (i : ℕ) (m : ShareMutex)
    → Inv n s
    → get_elem? s.threads i ≡ some draining
    → write_lock_end s.mutex ≡ some m
    → Inv n (record { mutex = m; write_mtx = false; threads = set s.threads i writing })
write_in-Inv n s i m h g e =
    let move = moved s.threads i draining writing g in
    let (r, r', w) = write_lock_end_parts s.mutex m e in
    let (d, none_writes) = drains_held n s h (omega (arith, move.drains)) in
    record {
      size = omega (arith, move.size, h.size);
      reads = omega (arith, move.reads, h.reads, r, r');
      writes = omega (arith, move.writes, h.writes, w, none_writes);
      held = λ t. ground arith;
      free = λ _. omega (arith, move.drains, d);
      exclusive =
          inr (omega (arith, move.writes, none_writes), omega (arith, move.reads, h.reads, r));
    }

read_un_lock_parts :
    (m : ShareMutex)
    → ((read_un_lock m).read_count ≡ m.read_count - 1)
      × ((read_un_lock m).write_count ≡ m.write_count)
unfolding read_un_lock
read_un_lock_parts m = ground arith

write_un_lock_parts :
    (m : ShareMutex)
    → ((write_un_lock m).write_count ≡ m.write_count - 1)
      × ((write_un_lock m).read_count ≡ m.read_count)
unfolding write_un_lock
write_un_lock_parts m = ground arith

read_out-Inv :
    (n : ℕ) (s : System) (i : ℕ)
    → Inv n s
    → get_elem? s.threads i ≡ some reading
    → Inv n (record s { mutex = read_un_lock s.mutex; threads = set s.threads i outside })
read_out-Inv n s i h g =
    let move = moved s.threads i reading outside g in
    let (r, w) = read_un_lock_parts s.mutex in
    record {
      size = omega (arith, move.size, h.size);
      reads = omega (arith, move.reads, h.reads, r);
      writes = omega (arith, move.writes, h.writes, w);
      held = λ t. (omega (arith, move.drains, h.held t), omega (arith, move.writes, h.held t));
      free = λ t. omega (arith, move.drains, h.free t);
      exclusive = inl (omega (arith, move.reads, move.writes, h.exclusive));
    }

write_out-Inv :
    (n : ℕ) (s : System) (i : ℕ)
    → Inv n s
    → get_elem? s.threads i ≡ some writing
    → s.write_mtx ≡ false
    → Inv n (record s { mutex = write_un_lock s.mutex; threads = set s.threads i outside })
write_out-Inv n s i h g f =
    let move = moved s.threads i writing outside g in
    let (w, r) = write_un_lock_parts s.mutex in
    record {
      size = omega (arith, move.size, h.size);
      reads = omega (arith, move.reads, h.reads, r);
      writes = omega (arith, move.writes, h.writes, w);
      held = λ t. ground arith;
      free = λ t. omega (arith, move.drains, h.free t);
      exclusive = inl (omega (arith, move.writes, h.exclusive));
    }

Step-Inv : (n : ℕ) (s u : System) → n < 2 ^ 32 → Inv n s → Step s u → Inv n u
unfolding write_lock_begin
Step-Inv n s u b h (read_in i m g f l e) = subst (Inv n) (sym e) (read_in-Inv n s i m b h g f l)
Step-Inv n s u b h (write_begin i g f l e) =
    subst (Inv n) (sym e) (write_begin-Inv n s i h g f (ground arith))
Step-Inv n s u b h (write_in i m g l e) = subst (Inv n) (sym e) (write_in-Inv n s i m h g l)
Step-Inv n s u b h (read_out i g e) = subst (Inv n) (sym e) (read_out-Inv n s i h g)
Step-Inv n s u b h (write_out i g f e) = subst (Inv n) (sym e) (write_out-Inv n s i h g f)

idle_lem :
    (n : ℕ)
    → (length (idle_threads n) ≡ n)
      × (sum is_reading (idle_threads n) ≡ 0)
      × (sum is_draining (idle_threads n) ≡ 0)
      × (sum is_writing (idle_threads n) ≡ 0)
idle_lem zero = (refl, refl, refl, refl)
idle_lem (suc n) =
    let h = idle_lem n in
    (omega (arith, h.0), omega (arith, h.1), omega (arith, h.2), omega (arith, h.3))

Reachable-Inv : (n : ℕ) (s : System) → n < 2 ^ 32 → Reachable n s → Inv n s
Reachable-Inv n s b here =
    let (size, none_reads, none_drains, none_writes) = idle_lem n in
    record {
      size = size;
      reads = sym none_reads;
      writes = sym none_writes;
      held = λ t. ground arith;
      free = λ _. none_drains;
      exclusive = inl none_writes;
    }
Reachable-Inv n s b (next r e) = Step-Inv n _ s b (Reachable-Inv n _ b r) e

-- With fewer than 2^32 threads, in every state: the counts are the numbers of threads that read and
-- that write, and if a thread writes it is the only one and none reads.
pub mutual_exclusion :
    (n : ℕ) (s : System)
    → n < 2 ^ 32
    → Reachable n s
    → (s.mutex.read_count ≡ readers s)
      × (s.mutex.write_count ≡ writers s)
      × ((writers s ≡ 0) ⊎ ((writers s ≡ 1) × (readers s ≡ 0)))
mutual_exclusion n s b r = let h = Reachable-Inv n s b r in (h.reads, h.writes, h.exclusive)
