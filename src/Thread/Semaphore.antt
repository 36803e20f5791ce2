-- ===== src/Thread/Semaphore.antt =====
-- TrantorSemaphore (src/thread/inc/TrantorSemaphore.h, src/thread/src/TrantorSemaphore.cc). Each
-- operation holds the mutex throughout; `none` stands for a thread that stays in `cv_.wait`.
use trantor_net.Base.{
  ℕ, ◌+◌, ◌-◌, ◌^◌, ◌<◌, ◌≡◌, ◌↔◌, subst, sym, Option, none, some, if◌then◌else◌, ltb, u16, arith,
}

pub record Semaphore : Type 0 where
  pub max_res_num : ℕ
  pub avaliable_res_num : ℕ

abbrev pub new_semaphore : ℕ → Semaphore
new_semaphore max_res_num = record {
  max_res_num = u16 max_res_num;
  avaliable_res_num = u16 max_res_num;
}

unfoldable pub wait : Semaphore → Option Semaphore
wait s =
    if ltb 0 s.avaliable_res_num
    then some (record s { avaliable_res_num = s.avaliable_res_num - 1 })
    else none

unfoldable pub post : Semaphore → Semaphore
post s =
    if ltb s.avaliable_res_num s.max_res_num
    then record s { avaliable_res_num = u16 (s.avaliable_res_num + 1) }
    else s

unfoldable pub get_res_num : Semaphore → ℕ
get_res_num s = s.avaliable_res_num

-- The semaphore among its users: how many have come back from `wait` and not called `post` since.
pub record System : Type 0 where
  pub semaphore : Semaphore
  pub held : ℕ

-- A user takes a resource, gives back one that it holds, or posts when no resource is out.
pub data Step (s u : System) : Type 0 where
  acquire :
      (m : Semaphore)
      → wait s.semaphore ≡ some m
      → u ≡ record { semaphore = m; held = s.held + 1 }
      → Step s u
  release : 0 < s.held → u ≡ record { semaphore = post s.semaphore; held = s.held - 1 } → Step s u
  stray : s.held ≡ 0 → u ≡ record s { semaphore = post s.semaphore } → Step s u

pub data Reachable (n : ℕ) : System → Type 0 where
  here : Reachable n (record { semaphore = new_semaphore n; held = 0 })
  next : {s u : System} → Reachable n s → Step s u → Reachable n u

abbrev Accounts : ℕ → System → Type 0
Accounts n s = (s.semaphore.max_res_num ≡ n) × (s.semaphore.avaliable_res_num + s.held ≡ n)

wait_parts :
    (s m : Semaphore)
    → wait s ≡ some m
    → (m.max_res_num ≡ s.max_res_num) × (m.avaliable_res_num + 1 ≡ s.avaliable_res_num)
unfolding wait
wait_parts s m e = ground arith

post_parts :
    (s : Semaphore) (h : ℕ)
    → s.max_res_num < 2 ^ 16
    → s.avaliable_res_num + h ≡ s.max_res_num
    → ((post s).max_res_num ≡ s.max_res_num)
      × (h ≡ 0 → (post s).avaliable_res_num ≡ s.avaliable_res_num)
      × (0 < h → (post s).avaliable_res_num ≡ s.avaliable_res_num + 1)
unfolding post
post_parts s h b e = ground arith

Step-Accounts : (n : ℕ) (s u : System) → n < 2 ^ 16 → Accounts n s → Step s u → Accounts n u
Step-Accounts n s u b h (acquire m w e) =
    let parts = wait_parts s.semaphore m w in subst (Accounts n) (sym e) (omega arith, omega arith)
Step-Accounts n s u b h (release l e) =
    let parts = post_parts s.semaphore s.held (omega arith) (omega arith) in
    subst (Accounts n) (sym e) (omega arith, omega (arith, parts.2 l))
Step-Accounts n s u b h (stray z e) =
    let parts = post_parts s.semaphore s.held (omega arith) (omega arith) in
    subst (Accounts n) (sym e) (omega arith, omega (arith, parts.1 z))

Reachable-Accounts : (n : ℕ) (s : System) → n < 2 ^ 16 → Reachable n s → Accounts n s
Reachable-Accounts n s b here = (omega arith, omega arith)
Reachable-Accounts n s b (next r e) = Step-Accounts n _ s b (Reachable-Accounts n _ b r) e

-- Of a semaphore of n resources, with n of 16 bits, those available and those out are n together in
-- every state, whatever is posted on top while none is out; so at most n are out. `wait` does not
-- return exactly when all are out.
pub resources_lem :
    (n : ℕ) (s : System)
    → n < 2 ^ 16
    → Reachable n s
    → (get_res_num s.semaphore + s.held ≡ n) × (wait s.semaphore ≡ none ↔ s.held ≡ n)
unfolding get_res_num wait
resources_lem n s b r =
    let h = Reachable-Accounts n s b r in (h.1, (λ w. ground (arith, h), λ e. ground (arith, h)))
