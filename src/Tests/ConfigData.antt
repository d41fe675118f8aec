-- ===== src/Tests/ConfigData.antt =====
-- The theorems on the configuration at a small JSON library and at typed answers.
use gosync.Base.{
  ◌<>◌, ◌==◌, string_Eq, is_int, if◌then◌else◌, String, true, none, some, List, [], ◌∷◌, ◌++◌, ◌≡◌,
  refl, text, Result, ok, err, ℤ, pos,
}
use gosync.Os.Monad.{Io, after, within_result}
use gosync.Config.Answers.{trim_left, trim_right}
use gosync.Config.Domain.{
  ConfigurationSnapshot, ConfigurationDraft, validate_configuration_snapshot,
}
use gosync.Config.Codec.{
  document_fields, Json, ObjectTokens, encode_configuration, decode_configuration,
}
use gosync.Config.Codec.RoundTrip.{
  Rendering, ReadsBack, object_tokens, decode_configuration-encode_configuration,
  decode_configuration_valid,
}
use gosync.Config.Interactive.{
  Reading, line, Message, collect_configuration_draft, run_interactive_configuration, draft_error,
}
use gosync.Config.Interactive.Valid.{
  collect_configuration_draft_passes, run_interactive_configuration_valid,
}

abbrev backup_configuration : ConfigurationSnapshot
backup_configuration = record {
  schema_version = pos 2;
  interval_seconds = pos 30;
  mode = "backup";
  retention_count = pos 5;
}

backup_configuration_valid : validate_configuration_snapshot backup_configuration ≡ none
unfolding validate_configuration_snapshot
backup_configuration_valid = refl

-- The answers of a person who first types an interval that is no number.
abbrev answers : List Reading
answers = line "soon\n" ∷ line " 30 \n" ∷ line "BACKUP\n" ∷ line "5\n" ∷ line "Yes\n" ∷ []

abbrev print : Message → Io (List Message) (Unit {0})
print m ms = (ms ++ m ∷ [], ok tt)

dialogue :
    (run_interactive_configuration (List Message) print answers []).1 ≡ ok backup_configuration
unfolding run_interactive_configuration after within_result trim_right trim_left
dialogue = refl

run_interactive_configuration_valid_example :
    validate_configuration_snapshot backup_configuration ≡ none
run_interactive_configuration_valid_example =
    run_interactive_configuration_valid (List Message) print answers [] backup_configuration
      dialogue

abbrev backup_draft : ConfigurationDraft
backup_draft = record { interval_seconds = pos 30; mode = "backup"; retention_count = pos 5 }

collected :
    (collect_configuration_draft (List Message) print answers []).1
    ≡ ok (backup_draft, line "Yes\n" ∷ [])
unfolding collect_configuration_draft after within_result trim_right trim_left
collected = refl

collect_configuration_draft_passes_example : draft_error backup_draft ≡ none
collect_configuration_draft_passes_example =
    collect_configuration_draft_passes (List Message) print answers []
      (backup_draft, line "Yes\n" ∷ []) collected

-- A library that knows one document.
abbrev number_text : ℤ → String
number_text z = if is_int z 2 then "2" else if is_int z 30 then "30" else "5"

abbrev number_of : String → Result ℤ
number_of s =
    if s == "2"
    then ok (pos 2)
    else if s == "30"
    then ok (pos 30)
    else if s == "5"
    then ok (pos 5)
    else err (text "syntax")

abbrev rendering : Rendering
rendering = record { integer_text = number_text; string_text = λ s. "\"" <> s <> "\"" }

abbrev one_document : Json
one_document = record {
  marshal = λ fields. ok "document";
  open_object = λ s. ok (
      some (
        ObjectTokens.property "schemaVersion" (ok "2") (
          ObjectTokens.property "synchronizationIntervalSeconds" (ok "30") (
            ObjectTokens.property "synchronizationMode" (ok "\"backup\"") (
              ObjectTokens.property "backupRetentionCount" (ok "5")
                (ObjectTokens.closing true none))))));
  parse_int = number_of;
  unmarshal_string = λ s. ok "backup";
}

one_document_reads : ReadsBack one_document rendering backup_configuration
unfolding object_tokens document_fields
one_document_reads = record {
  version = refl;
  interval = refl;
  count = refl;
  mode = refl;
  quote = refl;
  document = ("document", refl, refl);
}

decode_configuration-encode_configuration_example :
    (t : String) × (encode_configuration one_document backup_configuration ≡ ok t)
    × (decode_configuration one_document t ≡ ok backup_configuration)
decode_configuration-encode_configuration_example =
    decode_configuration-encode_configuration one_document rendering backup_configuration
      one_document_reads backup_configuration_valid

decoded : decode_configuration one_document "document" ≡ ok backup_configuration
unfolding decode_configuration validate_configuration_snapshot
decoded = refl

decode_configuration_valid_example : validate_configuration_snapshot backup_configuration ≡ none
decode_configuration_valid_example =
    decode_configuration_valid one_document "document" backup_configuration decoded
