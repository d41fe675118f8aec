-- ===== src/Config/Answers.antt =====
-- The answers of src/config_interactive.go as texts: `strings.TrimSpace`, `strconv.Atoi` and the three
-- functions that parse an answer.
use Prim.Native.Char.{code}
use gosync.Base.{
  ℕ, ◌+◌, ◌-◌, ◌*◌, String, Bool, ◌&&◌, ◌||◌, not, List, [], ◌∷◌, ◌==◌, string_Eq, nat_Eq, leb,
  between, all_codes, codes, is_space, if◌then◌else◌, Error, text, text_of, wrap, Result, ok, err,
  ℤ, pos,
}
use gosync.Config.Domain.{
  out_of_range, minimum_interval_seconds, maximum_interval_seconds, minimum_retention_count,
  maximum_retention_count, bidirectional, unidirectional, backup,
}

unfoldable pub trim_left : String → String
unfolding is_space
trim_left String.[] = String.[]
trim_left (String.◌∷◌ c s) =
    let rest = trim_left s in if is_space (code c) then rest else String.◌∷◌ c s

unfoldable pub trim_right : String → String
unfolding is_space
trim_right String.[] = String.[]
trim_right (String.◌∷◌ c s) =
    let rest = trim_right s in
    if is_space (code c) && (rest == "") then String.[] else String.◌∷◌ c rest

-- `strings.TrimSpace`
abbrev pub trim_space : String → String
trim_space s = trim_right (trim_left s)

abbrev pub is_digit : ℕ → Bool
is_digit c = between b'0' b'9' c

-- The value of decimal digits behind a number.
unfoldable pub decimal_value : ℕ → List ℕ → ℕ
decimal_value n [] = n
decimal_value n (c ∷ cs) = decimal_value (n * 10 + (c - b'0')) cs

abbrev pub maximum_int : ℕ
maximum_int = 9223372036854775807

-- `strconv.Atoi` on decimal digits, with an `int` of 64 bits.
unfoldable pub atoi : String → Result ℤ
unfolding decimal_value
atoi s =
    if leb (decimal_value 0 (codes s)) maximum_int
    then ok (pos (decimal_value 0 (codes s)))
    else err (text "value out of range")

-- The answers that are numbers: `parseSynchronizationInterval` and `parseBackupRetentionCount`
-- differ in their messages and bounds.
unfoldable pub parse_number : Error → String → Error → ℕ → ℕ → String → Result ℤ
unfolding atoi
parse_number no_number context outside low high answer =
    if trim_space answer == ""
    then err no_number
    else if not (all_codes is_digit (codes (trim_space answer)))
    then err no_number
    else elim (atoi (trim_space answer)) [
      | err e ↦ err (wrap context e)
      | ok z ↦ if out_of_range z low high then err outside else ok z
    ]

unfoldable pub parse_synchronization_interval : String → Result ℤ
unfolding parse_number
parse_synchronization_interval =
    parse_number (text "interval must be a whole number") "parse interval"
      (text "interval must be between %d and %d seconds") minimum_interval_seconds
      maximum_interval_seconds

unfoldable pub parse_backup_retention_count : String → Result ℤ
unfolding parse_number
parse_backup_retention_count =
    parse_number (text "backup retention must be a whole number") "parse backup retention"
      (text "backup retention must be between %d and %d versions") minimum_retention_count
      maximum_retention_count

unfoldable pub parse_synchronization_mode : String → Result String
parse_synchronization_mode answer =
    if trim_space answer == bidirectional
    then ok bidirectional
    else if trim_space answer == unidirectional
    then ok unidirectional
    else if trim_space answer == backup || trim_space answer == "BACKUP"
    then ok backup
    else err (text_of "unsupported synchronization mode %q" (trim_space answer))
