-- ===== src/Aio/Log.antt =====
-- FdLog (src/aio/inc/FdLog.h, src/aio/src/FdLog.cc): the text of a log message, and the files that
-- messages go to. A text is the list of its bytes. `files` are the files that were opened, the latest
-- first, with what was handed to `writeFd` of each; two that get the same name are one on the disk.
-- The name is an argument; `none` stands for an `openFd` that fails. That the former file is closed
-- when the next one is opened is not part of the state.
pub mod Rotation
mod Examples
use trantor_net.Base.{
  ℕ, ◌+◌, ◌==◌, leb, not, Bool, true, false, Option, none, some, List, [], ◌∷◌, ◌++◌, length, codes,
  u64, if◌then◌else◌,
}

pub data LogLevel : Type 0 where
  fatal error warn info debug : LogLevel

abbrev pub value : LogLevel → ℕ
value fatal = 0
value error = 1
value warn = 2
value info = 3
value debug = 4

-- MAX_SIZE_PER_LOG_FILE
abbrev pub max_size_per_log_file : ℕ
max_size_per_log_file = 1048576

pub record LogFile : Type 0 where
  pub name : List ℕ
  pub messages : List (List ℕ)  -- the arguments of `writeFd`, which may drop them

pub record Logger : Type 0 where
  pub async_log_file_dir : List ℕ
  pub async_log_file_basename : List ℕ
  pub global_log_level : LogLevel
  pub current_log_file_size : ℕ
  pub files : List LogFile
  pub std_out : List (List ℕ)

abbrev pub new_logger : Logger
new_logger = record {
  async_log_file_dir = [];
  async_log_file_basename = [];
  global_log_level = debug;
  current_log_file_size = 0;
  files = [];
  std_out = [];
}

abbrev pub is_empty : List ℕ → Bool
is_empty [] = true
is_empty (c ∷ text) = false

-- `dir.back()`
abbrev pub back : ℕ → List ℕ → ℕ
back c [] = c
back c (d ∷ text) = back d text

unfoldable pub set_async_log_level : LogLevel → Logger → Logger
set_async_log_level level s = record s { global_log_level = level }

unfoldable pub with_slash : List ℕ → List ℕ
with_slash [] = []
with_slash (c ∷ dir) = if back c dir == b'/' then c ∷ dir else (c ∷ dir) ++ (b'/' ∷ [])

unfoldable pub set_async_log_path : List ℕ → Logger → Logger
unfolding with_slash
set_async_log_path dir s = record s { async_log_file_dir = with_slash dir }

unfoldable pub set_async_log_file_basename : List ℕ → Logger → Logger
set_async_log_file_basename basename s = record s { async_log_file_basename = basename }

unfoldable pub generate_log_file_name : List ℕ → List ℕ → Logger → List ℕ
generate_log_file_name pid timestamp s =
    if is_empty s.async_log_file_basename
    then pid ++ codes "-" ++ timestamp ++ codes ".log"
    else s.async_log_file_basename ++ codes "-" ++ pid ++ codes "-" ++ timestamp ++ codes ".log"

abbrev pub label : LogLevel → List ℕ
label debug = codes "DEBUG -- "
label info = codes "INFO  -- "
label warn = codes "WARN  -- "
label error = codes "ERROR -- "
label fatal = codes "FATAL -- "

unfoldable pub generate_log_prefix : LogLevel → List ℕ → List ℕ → List ℕ
generate_log_prefix level now thread_id =
    (now ++ codes " " ++ thread_id ++ codes " ") ++ label level

unfoldable pub generate_log_suffix : List ℕ → List ℕ → List ℕ
generate_log_suffix file_name line_num =
    codes " -- " ++ file_name ++ codes ":" ++ line_num ++ codes "\n"

-- What the constructor, `<<` and the destructor build.
unfoldable pub log_content : List ℕ → List (List ℕ) → List ℕ → List ℕ
log_content log_prefix [] log_suffix = log_prefix ++ log_suffix
log_content log_prefix (content ∷ rest) log_suffix =
    log_content (log_prefix ++ content) rest log_suffix

abbrev pub write_to : List ℕ → List LogFile → List LogFile
write_to content [] = []
write_to content (f ∷ fs) = record f { messages = f.messages ++ (content ∷ []) } ∷ fs

unfoldable pub open_first : Option (List ℕ) → Logger → Option Logger
open_first none s = none
open_first (some n) s =
    some (record s { files = record { name = s.async_log_file_dir ++ n; messages = [] } ∷ [] })

-- `init`: the first file, or standard output; `none` is `abort()`.
unfoldable pub init : Option (List ℕ) → Logger → Option Logger
unfolding open_first
init name s = if is_empty s.async_log_file_dir then some s else open_first name s

-- A message in the next file; `none` is `abort()`.
unfoldable pub rotate : List ℕ → Option (List ℕ) → Logger → Option Logger
rotate content none s = none
rotate content (some n) s = some (record s {
  files = record { name = s.async_log_file_dir ++ n; messages = content ∷ [] } ∷ s.files;
  current_log_file_size = length content;
})

-- A message of a file is what `writeFd` is given, which drops data above its high-water mark.
unfoldable pub log_to_file : List ℕ → Option (List ℕ) → Logger → Option Logger
unfolding rotate
log_to_file content name s =
    let size = u64 (s.current_log_file_size + length content) in
    if leb size max_size_per_log_file
    then some (record s { files = write_to content s.files; current_log_file_size = size })
    else rotate content name s

unfoldable pub log : LogLevel → List ℕ → Option (List ℕ) → Logger → Option Logger
unfolding log_to_file
log level content name s =
    if leb (value level) (value s.global_log_level)
    then if is_empty s.async_log_file_dir
      then some (record s { std_out = s.std_out ++ (content ∷ []) })
      else log_to_file content name s
    else some s
