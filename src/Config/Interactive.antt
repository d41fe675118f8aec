-- ===== src/Config/Interactive.antt =====
-- The dialogue of src/config_interactive.go. A reader is the list of what `ReadString` returns until the end of
-- the input, so a loop that asks again is structural recursion.
pub mod Valid
use Prim.Native.Char.{Char, code}
use gosync.Base.{
  ℕ, ◌+◌, ◌-◌, ◌*◌, String, Bool, true, false, ◌&&◌, ◌||◌, not, Option, none, some, List, [], ◌∷◌,
  ◌==◌, string_Eq, nat_Eq, leb, between, all_codes, codes, is_space, is_int, if◌then◌else◌, Error,
  text, text_of, wrap, Result, ok, err, ℤ, pos,
}
use gosync.Base
use gosync.Config.Answers.{
  trim_space, parse_synchronization_interval, parse_synchronization_mode,
  parse_backup_retention_count,
}
use gosync.Os.Monad.{Io, after, ◌>>=◌, ◌>>◌, return, throw, within, raise, when}
use gosync.Config.Domain.{
  ConfigurationSnapshot, ConfigurationDraft, out_of_range, minimum_interval_seconds,
  maximum_interval_seconds, minimum_retention_count, maximum_retention_count, bidirectional,
  unidirectional, backup, schema_version_supported,
}

-- What one `ReadString` returns: a text that is not empty, or nothing and an error. The end of
-- the list is `io.EOF`.
pub data Reading : Type 0 where
  line : String → Reading
  failed : Error → Reading

-- What the program prints.
pub data Message : Type 0 where
  prompt : String → Message
  complaint : String → Error → Message
  summary : ℤ → String → Message
  retention_summary : ℤ → Message

abbrev pub configuration_cancelled : Error
configuration_cancelled = text "configuration cancelled"

-- `configurationInputError` of an error other than `io.EOF`
abbrev pub input_error : Error → Error
input_error e = wrap "read configuration input" e

-- An empty answer takes the default.
unfoldable pub parse_retention_answer : String → Result ℤ
unfolding parse_backup_retention_count
parse_retention_answer answer =
    if trim_space answer == "" then ok (pos 3) else parse_backup_retention_count answer

-- The guards of `confirmConfigurationWithReader`.
unfoldable pub draft_error : ConfigurationDraft → Option Error
draft_error d =
    if out_of_range d.interval_seconds minimum_interval_seconds maximum_interval_seconds
    then some (text "cannot confirm an invalid interval")
    else if not (d.mode == bidirectional)
        && not (d.mode == unidirectional)
        && not (d.mode == backup)
    then some (text "cannot confirm an invalid synchronization mode")
    else if (d.mode == backup)
        && out_of_range d.retention_count minimum_retention_count maximum_retention_count
    then some (text "cannot confirm an invalid backup retention count")
    else if not (d.mode == backup) && not (is_int d.retention_count 0)
    then some (text "backup retention is only valid for BACKUP mode")
    else none

-- A code point of an ASCII capital as its small letter.
abbrev pub lower : ℕ → ℕ
lower c = if between b'A' b'Z' c then c + 32 else c

-- `strings.ToLower(answer) == word`, for the words below, whose letters are the small letters of
-- ASCII letters alone.
unfoldable pub is_answer : List ℕ → List ℕ → Bool
is_answer [] [] = true
is_answer [] (d ∷ ds) = false
is_answer (c ∷ cs) [] = false
is_answer (c ∷ cs) (d ∷ ds) = (lower c == d) && is_answer cs ds

abbrev pub says : String → String → Bool
says answer word = is_answer (codes answer) (codes word)

module _ (World : Type 0) (print : Message → Io World (Unit {0})) where
  -- What an answer makes of the loop: its value, or a complaint and the question again.
  unfoldable pub answered :
      {A : Type 0}
      → String
      → String
      → List Reading
      → Io World (A × List Reading)
      → Result A
      → Io World (A × List Reading)
  answered complains complains_context rest again (ok a) = return (a, rest)
  answered complains complains_context rest again (err e) = do
    within complains_context (print (complaint complains e))
    again

  -- One of the loops that ask until the answer parses.
  unfoldable pub ask :
      {A : Type 0}
      → Message
      → (String → Result A)
      → String
      → String
      → String
      → List Reading
      → Io World (A × List Reading)
  unfolding answered
  ask question parse context complains complains_context [] = do
    within context (print question)
    throw configuration_cancelled
  ask question parse context complains complains_context (failed e ∷ rest) = do
    within context (print question)
    throw (input_error e)
  ask question parse context complains complains_context (line answer ∷ rest) =
      let again = ask question parse context complains complains_context rest in
      do
        within context (print question)
        answered complains complains_context rest again (parse (trim_space answer))

  unfoldable pub collect_retention : String → List Reading → Io World (ℤ × List Reading)
  unfolding ask parse_retention_answer
  collect_retention mode reader =
      if mode == backup
      then ask (prompt "Backup retention count (1-%d, default 3): ") parse_retention_answer
          "write retention prompt" "Invalid retention: %v. Please try again.\n"
          "write retention validation" reader
      else return (pos 0, reader)

  unfoldable pub collect_configuration_draft :
      List Reading → Io World (ConfigurationDraft × List Reading)
  unfolding ask parse_synchronization_interval parse_synchronization_mode collect_retention
  collect_configuration_draft reader = do
    (interval, reader1) ←
        ask (prompt "Synchronization interval in seconds (1-86400): ")
          parse_synchronization_interval "write interval prompt"
          "Invalid interval: %v. Please try again.\n" "write interval validation" reader
    (mode, reader2) ←
        ask (prompt "Synchronization mode (bidirectional, unidirectional, BACKUP): ")
          parse_synchronization_mode "write mode prompt" "Invalid mode: %v. Please try again.\n"
          "write mode validation" reader1
    (retention, reader3) ← collect_retention mode reader2
    return
        (record { interval_seconds = interval; mode = mode; retention_count = retention }, reader3)

  unfoldable pub ask_confirmation : List Reading → Io World Bool
  unfolding is_answer
  ask_confirmation [] = do
    within "write confirmation prompt" (print (prompt "Save configuration? (yes/no): "))
    throw configuration_cancelled
  ask_confirmation (failed e ∷ rest) = do
    within "write confirmation prompt" (print (prompt "Save configuration? (yes/no): "))
    throw (input_error e)
  ask_confirmation (line answer ∷ rest) =
      let again = ask_confirmation rest in
      do
        within "write confirmation prompt" (print (prompt "Save configuration? (yes/no): "))
        (if says (trim_space answer) "yes" || says (trim_space answer) "y"
            then return true
            else if says (trim_space answer) "no" || says (trim_space answer) "n"
            then throw configuration_cancelled
            else do
              within "write confirmation validation" (print (prompt "Please answer yes or no."))
              again)

  unfoldable pub confirm_configuration : List Reading → ConfigurationDraft → Io World Bool
  unfolding draft_error ask_confirmation
  confirm_configuration reader d = do
    raise (draft_error d)
    within "write configuration summary" (print (summary d.interval_seconds d.mode))
    when (d.mode == backup)
        (within "write retention summary" (print (retention_summary d.retention_count)))
    ask_confirmation reader

  unfoldable pub run_interactive_configuration : List Reading → Io World ConfigurationSnapshot
  unfolding collect_configuration_draft confirm_configuration
  run_interactive_configuration reader = do
    (d, rest) ← collect_configuration_draft reader
    confirmed ← confirm_configuration rest d
    (if confirmed
        then return (record {
          schema_version = pos schema_version_supported;
          interval_seconds = d.interval_seconds;
          mode = d.mode;
          retention_count = d.retention_count;
        })
        else throw configuration_cancelled)
