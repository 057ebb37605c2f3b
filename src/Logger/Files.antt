-- ===== src/Logger/Files.antt =====
-- What the files hold after a run of `print_log_local`.
use Prim.Native.String.{String}
use text.Mathlib.Text.{◌==◌ as str_eq}
use mathlib.Core.List.{append_assoc, append-nil}
use qing.Common.{
  ℕ, ◌≡◌, refl, sym, ap, ◌∙◌, inl, inr, Bool, true, Option, none, some, List, [], ◌∷◌, ◌++◌, ◌>>=◌,
  ◌==◌, ◌&&◌, if◌then◌else◌, Bool-cases,
}
use qing.Logger.{
  LogLevel, qlog_level_debug, qlog_level_info, qlog_level_warn, qlog_level_error, qlog_level_fatal,
  Piece, word, message, newline, log_name, Files, appended, print_log_local_windows,
  print_log_local,
}

-- A call of `print_log_local`, and whether its file can be opened then.
pub record LogCall : Type 0 where
  pub level : LogLevel
  pub text : String
  pub opened : Bool

-- The calls, one after the other.
abbrev pub log_all_windows : List LogCall → Files → Files
log_all_windows [] files = files
log_all_windows (c ∷ calls) files =
    log_all_windows calls (print_log_local_windows c.opened c.level c.text files)

abbrev pub log_all : List LogCall → Files → Option Files
log_all [] files = some files
log_all (c ∷ calls) files = print_log_local c.opened c.level c.text files >>= log_all calls

-- The levels, those of FATAL and INFO taken together.
abbrev group : LogLevel → ℕ
group qlog_level_debug = 0
group qlog_level_info = 1
group qlog_level_warn = 2
group qlog_level_error = 3
group qlog_level_fatal = 1

-- The lines of the calls of a level whose file could be opened.
abbrev line_of : LogLevel → LogCall → List Piece
line_of level c =
    if c.opened && (group level == group c.level)
    then word "[robot]" ∷ message c.text ∷ newline ∷ []
    else []

abbrev pub lines : LogLevel → List LogCall → List Piece
lines level [] = []
lines level (c ∷ calls) = line_of level c ++ lines level calls

abbrev pub all_opened : List LogCall → Bool
all_opened [] = true
all_opened (c ∷ calls) = c.opened && all_opened calls

log_name-eq : (a b : LogLevel) → str_eq (log_name a) (log_name b) ≡ (group a == group b)
unfolding log_name
log_name-eq qlog_level_debug qlog_level_debug = refl
log_name-eq qlog_level_debug _ = refl
log_name-eq qlog_level_info qlog_level_debug = refl
log_name-eq qlog_level_info _ = refl
log_name-eq qlog_level_warn qlog_level_debug = refl
log_name-eq qlog_level_warn _ = refl
log_name-eq qlog_level_error qlog_level_debug = refl
log_name-eq qlog_level_error _ = refl
log_name-eq qlog_level_fatal qlog_level_debug = refl
log_name-eq qlog_level_fatal _ = refl

one_line :
    (level : LogLevel) (c : LogCall) (files : Files)
    → print_log_local_windows c.opened c.level c.text files (log_name level)
      ≡ files (log_name level) ++ line_of level c
unfolding print_log_local_windows
one_line level c files = elim (Bool-cases c.opened) [
  | inl o ↦
      rw (o, log_name-eq level c.level)
        (elim (Bool-cases (group level == group c.level)) [
          | inl same ↦ rw same refl
          | inr other ↦ rw other (sym (append-nil (files (log_name level))))
        ])
  | inr o ↦ rw o (sym (append-nil (files (log_name level))))
]

log_all_windows-lines :
    (level : LogLevel) (calls : List LogCall) (files : Files)
    → log_all_windows calls files (log_name level) ≡ files (log_name level) ++ lines level calls
log_all_windows-lines level [] files = sym (append-nil (files (log_name level)))
log_all_windows-lines level (c ∷ calls) files =
    log_all_windows-lines level calls (print_log_local_windows c.opened c.level c.text files)
    ∙ ap (λ out. out ++ lines level calls) (one_line level c files)
    ∙ append_assoc (files (log_name level)) (line_of level c) (lines level calls)

log_all-windows :
    (calls : List LogCall) (files : Files)
    → log_all calls files ≡ (if all_opened calls then some (log_all_windows calls files) else none)
unfolding print_log_local print_log_local_windows
log_all-windows [] files = refl
log_all-windows (c ∷ calls) files = elim (Bool-cases c.opened) [
  | inl o ↦ rw o (log_all-windows calls (appended (log_name c.level) c.text files))
  | inr o ↦ rw o refl
]

-- After any calls of `print_log_local`: on Windows the file of a level holds, behind what it held,
-- the lines of the calls of this level that could open it, in their order, those of FATAL and INFO
-- in one file; elsewhere it holds the same if every call could open its file, and if one could not,
-- a null pointer is printed to.
pub log_all-lines :
    (level : LogLevel) (calls : List LogCall) (files : Files)
    → (log_all_windows calls files (log_name level) ≡ files (log_name level) ++ lines level calls)
      × (log_all calls files
          ≡ (if all_opened calls then some (log_all_windows calls files) else none))
log_all-lines level calls files =
    (log_all_windows-lines level calls files, log_all-windows calls files)
