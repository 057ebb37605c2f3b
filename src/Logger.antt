-- ===== src/Logger.antt =====
-- src/util/logger.cpp and include/qing/util/logger.hpp: what is printed, and into which file.
pub mod Files
mod Tests
use Prim.Native.String.{String}
use text.Mathlib.Text.{◌==◌ as str_eq}
use qing.Common.{Bool, Option, none, some, List, [], ◌∷◌, ◌++◌, if◌then◌else◌, ℤ}

data LogLevel : Type 0 where
  qlog_level_debug qlog_level_info qlog_level_warn qlog_level_error qlog_level_fatal : LogLevel

-- What is printed, piece by piece. A `message` is what vfprintf makes of the format and what follows.
data Piece : Type 0 where
  word : String → Piece
  location : String → ℤ → Piece
  message : String → Piece
  newline : Piece

-- The `switch` of `print_log`.
unfoldable level_tag : LogLevel → String
level_tag qlog_level_debug = "[DEBUG]"
level_tag qlog_level_info = "[INFO]"
level_tag qlog_level_warn = "[WARNING]"
level_tag qlog_level_error = "[ERROR]"
level_tag qlog_level_fatal = "[INFO]"

-- `print_log`: what is put on the standard output.
unfoldable print_log : LogLevel → String → ℤ → String → List Piece → List Piece
print_log level filename line text out =
    out ++ (word (level_tag level) ∷ location filename line ∷ message text ∷ newline ∷ [])

-- The `switch` of `print_log_local`: the name of the file.
unfoldable log_name : LogLevel → String
log_name qlog_level_debug = "[DEBUG].log"
log_name qlog_level_info = "[INFO].log"
log_name qlog_level_warn = "[WARNING].log"
log_name qlog_level_error = "[ERROR].log"
log_name qlog_level_fatal = "[INFO].log"

-- The files by their names. "a+" appends.
abbrev Files : Type 0
Files = String → List Piece

abbrev appended : String → String → Files → Files
appended name text files n =
    if str_eq n name then files n ++ (word "[robot]" ∷ message text ∷ newline ∷ []) else files n

-- `print_log_local` on Windows. `opened`: fopen_s gives a stream.
unfoldable print_log_local_windows : Bool → LogLevel → String → Files → Files
print_log_local_windows opened level text files =
    if opened then appended (log_name level) text files else files

-- The same elsewhere, where the result of fopen is not looked at. No result: the null pointer is
-- printed to.
unfoldable print_log_local : Bool → LogLevel → String → Files → Option Files
print_log_local opened level text files =
    if opened then some (appended (log_name level) text files) else none
