-- ===== src/Logger/Tests.antt =====
-- The logger at inputs.
use qing.Common.{◌≡◌, refl, pos, true, false, none, List, [], ◌∷◌}
use qing.Logger.{
  qlog_level_debug, qlog_level_info, qlog_level_fatal, word, location, message, newline, print_log,
  level_tag, log_name, Files,
}
use qing.Logger.Files.{LogCall, log_all_windows, log_all, log_all-lines}

abbrev lines_of_a_run : List LogCall
lines_of_a_run =
    record { level = qlog_level_fatal; text = "a"; opened = true }
    ∷ record { level = qlog_level_debug; text = "b"; opened = true }
    ∷ record { level = qlog_level_info; text = "c"; opened = false }
    ∷ record { level = qlog_level_info; text = "d"; opened = true }
    ∷ []

abbrev no_files : Files
no_files name = []

log_all-lines_example :
    (log_all_windows lines_of_a_run no_files "[INFO].log"
      ≡ word "[robot]" ∷ message "a" ∷ newline ∷ word "[robot]" ∷ message "d" ∷ newline ∷ [])
    × (log_all lines_of_a_run no_files ≡ none)
unfolding log_name
log_all-lines_example = log_all-lines qlog_level_info lines_of_a_run no_files

-- A fatal error is tagged as information.
fatal_as_info :
    print_log qlog_level_fatal "main.cpp" (pos 7) "bind" []
    ≡ word "[INFO]" ∷ location "main.cpp" (pos 7) ∷ message "bind" ∷ newline ∷ []
unfolding print_log level_tag
fatal_as_info = refl
