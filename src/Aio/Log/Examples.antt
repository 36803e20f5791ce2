-- ===== src/Aio/Log/Examples.antt =====
-- The log at concrete messages.
use trantor_net.Base.{◌≡◌, refl, some, [], ◌∷◌, All, arith, codes}
use trantor_net.Aio.Log.{
  warn, debug, error, Logger, new_logger, init, open_first, log, log_to_file, log_content,
  generate_log_prefix, generate_log_suffix, set_async_log_path, with_slash,
}
use trantor_net.Aio.Log.Rotation.{messages_of, IsBounded, History, start, next, log_rotates}

-- A warning and a debug message, of which the filter takes the warning.
abbrev fresh : Logger
fresh = record new_logger { async_log_file_dir = codes "/log/"; global_log_level = warn }

abbrev first : Logger
first = record fresh { files = record { name = codes "/log/a"; messages = [] } ∷ [] }

abbrev second : Logger
second = record fresh {
  files = record { name = codes "/log/a"; messages = codes "disk" ∷ [] } ∷ [];
  current_log_file_size = 4;
}

second-History : History (codes "disk" ∷ []) second
unfolding log init open_first log_to_file
second-History =
    next debug (codes "tick") (some (codes "c"))
      (next warn (codes "disk") (some (codes "b"))
        (start (some (codes "a")) fresh first refl refl refl) (omega arith) refl)
      (omega arith) refl

log_rotates_example : (messages_of second.files ≡ codes "disk" ∷ []) × All IsBounded second.files
log_rotates_example = log_rotates second-History

message_text :
    log_content
      (generate_log_prefix error (codes "now") (codes "7"))
      (codes "no " ∷ codes "space" ∷ [])
      (generate_log_suffix (codes "a.cc") (codes "12"))
    ≡ codes "now 7 ERROR -- no space -- a.cc:12\n"
unfolding log_content generate_log_prefix generate_log_suffix
message_text = refl

slash_added : (set_async_log_path (codes "/log") new_logger).async_log_file_dir ≡ codes "/log/"
unfolding set_async_log_path with_slash
slash_added = refl
