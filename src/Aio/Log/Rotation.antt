-- ===== src/Aio/Log/Rotation.antt =====
-- The files of the log.
use trantor_net.Base.{
  ℕ, ◌+◌, ◌^◌, ◌<◌, ◌≤◌, ◌≡◌, ◌⊎◌, refl, sym, ◌∙◌, ap, subst, Bool, false, Option, none, some, List,
  [], ◌∷◌, ◌++◌, length, leb, arith, sum, sum-++, All, Bool-cases, if_cases, if◌then◌else◌,
  append_assoc, inl, inr, u64,
}
use trantor_net.Aio.Log.{
  LogLevel, value, LogFile, Logger, is_empty, init, open_first, set_async_log_level, log,
  log_to_file, rotate, write_to, max_size_per_log_file,
}

-- The bytes of a file, and the messages of all files, in order.
abbrev pub size_of : LogFile → ℕ
size_of f = sum length f.messages

abbrev pub messages_of : List LogFile → List (List ℕ)
messages_of [] = []
messages_of (f ∷ fs) = messages_of fs ++ f.messages

-- A file is within the limit, or it has a single message.
abbrev pub IsBounded : LogFile → Type 0
IsBounded f = (size_of f ≤ max_size_per_log_file) ⊎ (length f.messages ≡ 1)

-- The files of the messages, with the size of the latest.
Files : ℕ → List (List ℕ) → List LogFile → Type 0
Files size ms [] = ⊥
Files size ms (f ∷ fs) = (messages_of (f ∷ fs) ≡ ms) × All IsBounded (f ∷ fs) × (size_of f ≡ size)

write_to-Files :
    (size : ℕ) (ms : List (List ℕ)) (fs : List LogFile) (content : List ℕ)
    → size + length content ≤ max_size_per_log_file
    → Files size ms fs
    → Files (size + length content) (ms ++ (content ∷ [])) (write_to content fs)
unfolding Files
write_to-Files size ms [] content room v = absurd v
write_to-Files size ms (f ∷ fs) content room (all, (_, bounded), counted) =
    let more : sum length (f.messages ++ (content ∷ [])) ≡ size + length content =
      omega (arith, sum-++ length f.messages (content ∷ []), counted) in
    (
      sym (append_assoc (messages_of fs) f.messages (content ∷ []))
          ∙ ap (λ (xs : List (List ℕ)). xs ++ (content ∷ [])) all,
      (inl (omega (arith, more)), bounded),
      more,
    )

open-Files :
    (size : ℕ) (ms : List (List ℕ)) (fs : List LogFile) (content n : List ℕ)
    → Files size ms fs
    → Files
        (length content)
        (ms ++ (content ∷ []))
        (record { name = n; messages = content ∷ [] } ∷ fs)
unfolding Files
open-Files size ms [] content n v = absurd v
open-Files size ms (f ∷ fs) content n (all, bounded, counted) =
    (ap (λ (xs : List (List ℕ)). xs ++ (content ∷ [])) all, (inr refl, bounded), omega arith)

record Inv (ms : List (List ℕ)) (s : Logger) : Type 0 where
  to_file : is_empty s.async_log_file_dir ≡ false
  held : Files s.current_log_file_size ms s.files
  small : s.current_log_file_size < 2 ^ 63

-- A logger that goes on.
Holds : (Logger → Type 0) → Option Logger → Type 0
Holds P none = Unit
Holds P (some s) = P s

rotate-Holds :
    (ms : List (List ℕ)) (content : List ℕ) (name : Option (List ℕ)) (s : Logger)
    → length content < 2 ^ 63
    → Inv ms s
    → Holds (Inv (ms ++ (content ∷ []))) (rotate content name s)
unfolding rotate Holds
rotate-Holds ms content none s short v = tt
rotate-Holds ms content (some n) s short v = record {
  to_file = v.to_file;
  held = open-Files s.current_log_file_size ms s.files content (s.async_log_file_dir ++ n) v.held;
  small = short;
}

log_to_file-Holds :
    (ms : List (List ℕ)) (content : List ℕ) (name : Option (List ℕ)) (s : Logger)
    → length content < 2 ^ 63
    → Inv ms s
    → Holds (Inv (ms ++ (content ∷ []))) (log_to_file content name s)
unfolding log_to_file Holds
log_to_file-Holds ms content name s short v =
    let size = s.current_log_file_size + length content in
    let exact : u64 size ≡ size = omega arith in
    if_cases (Holds (Inv (ms ++ (content ∷ [])))) (leb (u64 size) max_size_per_log_file) _ _
      (λ e. record {
        to_file = v.to_file;
        held =
            subst (λ (k : ℕ). Files k (ms ++ (content ∷ [])) (write_to content s.files)) (sym exact)
              (write_to-Files s.current_log_file_size ms s.files content (ground (arith, e, exact))
                v.held);
        small = ground (arith, e);
      })
      (λ e. rotate-Holds ms content name s short v)

-- Is a message of the level written?
abbrev pub is_logged : LogLevel → Logger → Bool
is_logged level s = leb (value level) (value s.global_log_level)

log-Holds :
    (ms : List (List ℕ)) (level : LogLevel) (content : List ℕ) (name : Option (List ℕ)) (s : Logger)
    → length content < 2 ^ 63
    → Inv ms s
    → Holds
        (Inv (if is_logged level s then ms ++ (content ∷ []) else ms))
        (log level content name s)
unfolding log
log-Holds ms level content name s short v = elim (Bool-cases (is_logged level s)) [
  | inl e ↦ rw (e, v.to_file) (log_to_file-Holds ms content name s short v)
  | inr e ↦ rw e (unfold Holds in v)
]

-- The histories of a log that goes to files: the messages that passed the filter, and the logger.
pub data History : List (List ℕ) → Logger → Type 0 where
  start :
      (name : Option (List ℕ)) (s t : Logger)
      → is_empty s.async_log_file_dir ≡ false
      → s.current_log_file_size ≡ 0
      → init name s ≡ some t
      → History [] t
  next :
      {ms : List (List ℕ)} {s t : Logger} (level : LogLevel) (content : List ℕ)
      (name : Option (List ℕ))
      → History ms s
      → length content < 2 ^ 63
      → log level content name s ≡ some t
      → History (if is_logged level s then ms ++ (content ∷ []) else ms) t
  relevel :
      {ms : List (List ℕ)} {s : Logger} (level : LogLevel)
      → History ms s
      → History ms (set_async_log_level level s)

open_first-Holds :
    (name : Option (List ℕ)) (s : Logger)
    → is_empty s.async_log_file_dir ≡ false
    → s.current_log_file_size ≡ 0
    → Holds (Inv []) (open_first name s)
unfolding open_first Holds Files
open_first-Holds none s dir zero_size = tt
open_first-Holds (some n) s dir zero_size = record {
  to_file = dir;
  held = (refl, (inl (omega arith), tt), sym zero_size);
  small = omega arith;
}

init-Holds :
    (name : Option (List ℕ)) (s : Logger)
    → is_empty s.async_log_file_dir ≡ false
    → s.current_log_file_size ≡ 0
    → Holds (Inv []) (init name s)
unfolding init
init-Holds name s dir zero_size = rw dir (open_first-Holds name s dir zero_size)

relevel-Inv :
    {ms : List (List ℕ)} {s : Logger} (level : LogLevel)
    → Inv ms s
    → Inv ms (set_async_log_level level s)
unfolding set_async_log_level
relevel-Inv level v = record { to_file = v.to_file; held = v.held; small = v.small }

history-Inv : {ms : List (List ℕ)} {s : Logger} → History ms s → Inv ms s
unfolding Holds
history-Inv (start name s t dir zero_size e) =
    subst (Holds (Inv [])) e (init-Holds name s dir zero_size)
history-Inv (next {ms} {s} level content name h short e) =
    subst (Holds (Inv (if is_logged level s then ms ++ (content ∷ []) else ms))) e
      (log-Holds ms level content name s short (history-Inv h))
history-Inv (relevel level h) = relevel-Inv level (history-Inv h)

files_lem :
    (size : ℕ) (ms : List (List ℕ)) (fs : List LogFile)
    → Files size ms fs
    → (messages_of fs ≡ ms) × All IsBounded fs
unfolding Files
files_lem size ms [] v = absurd v
files_lem size ms (f ∷ fs) (all, bounded, _) = (all, bounded)

-- A log that goes to files gives every message that passed the filter to `writeFd`, once and in order,
-- over the files it has opened, and `writeFd` of no file gets more than the limit unless it gets a
-- single message. Each message has less than 2^63 bytes, and every file could be opened. What `writeFd`
-- drops, above its high-water mark, is not considered.
pub log_rotates :
    {ms : List (List ℕ)} {s : Logger}
    → History ms s
    → (messages_of s.files ≡ ms) × All IsBounded s.files
log_rotates {ms} {s} h = files_lem s.current_log_file_size ms s.files (history-Inv h).held
