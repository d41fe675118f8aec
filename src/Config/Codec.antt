-- ===== src/Config/Codec.antt =====
-- src/config_codec.go. The JSON library is a parameter: what `json.Marshal` makes of a struct, and
-- what the decoder's calls return on a text.
pub mod RoundTrip
use gosync.Base.{
  ℕ, String, Bool, true, false, ◌&&◌, ◌||◌, not, Option, none, some, List, [], ◌∷◌, ◌++◌, ◌==◌,
  string_Eq, nat_Eq, if◌then◌else◌, Error, text, text_of, wrap, wrap_of, Result, ok, err, ◌>>=◌,
  ◌>>◌, check, fail_if, within, lookup, contains, map, ℤ, pos, is_int,
}
use package.text.Mathlib.Text.{starts_with}
use gosync.Config.Domain.{
  ConfigurationSnapshot, validate_configuration_snapshot, legacy_schema_version,
  schema_version_supported, backup,
}

pub data JsonValue : Type 0 where
  int : ℤ → JsonValue
  string : String → JsonValue

-- What the calls of a decoder return behind the opening brace, in order.
pub data ObjectTokens : Type 0 where
  -- `Token` fails.
  broken : Error → ObjectTokens
  -- A token in the place of a property name that is no string.
  no_name : ObjectTokens
  -- No property is left, and the `Token` for the closing brace fails.
  unclosed : Error → ObjectTokens
  -- A property name, and what `Decode` makes of its value.
  property : String → Result String → ObjectTokens → ObjectTokens
  -- The closing token (`true` for the brace), and the `Decode` behind it: `none` for `io.EOF`.
  closing : Bool → Option (Result (Unit {0})) → ObjectTokens

pub record Json : Type 0 where
  pub marshal : List (String × JsonValue) → Result String
  -- The first token: an error, no opening brace (`none`), or what follows it.
  pub open_object : String → Result (Option ObjectTokens)
  pub parse_int : String → Result ℤ
  pub unmarshal_string : String → Result String

module _ (json : Json) where
  abbrev pub base_fields : ConfigurationSnapshot → List (String × JsonValue)
  base_fields c =
      ("schemaVersion", JsonValue.int c.schema_version)
      ∷ ("synchronizationIntervalSeconds", JsonValue.int c.interval_seconds)
      ∷ ("synchronizationMode", JsonValue.string c.mode)
      ∷ []

  -- The two structs.
  unfoldable pub document_fields : ConfigurationSnapshot → List (String × JsonValue)
  document_fields c =
      if is_int c.schema_version legacy_schema_version || not (c.mode == backup)
      then base_fields c
      else base_fields c ++ ("backupRetentionCount", JsonValue.int c.retention_count) ∷ []

  unfoldable pub encode_configuration : ConfigurationSnapshot → Result String
  unfolding document_fields
  encode_configuration c = do
    check (validate_configuration_snapshot c)
    within "encode configuration" (json.marshal (document_fields c))

  abbrev pub is_property : String → Bool
  is_property name =
      name == "schemaVersion"
      || name == "synchronizationIntervalSeconds"
      || name == "synchronizationMode"
      || name == "backupRetentionCount"

  -- The closing token and the check for trailing data.
  unfoldable pub close_object :
      Bool → Option (Result (Unit {0})) → List (String × String) → Result (List (String × String))
  close_object false trailing values = err (text "configuration must be a JSON object")
  close_object true none values = ok values
  close_object true (some (ok u)) values = err (text "configuration contains trailing data")
  close_object true (some (err e)) values = err (wrap "decode trailing configuration data" e)

  -- The loop over the properties. The values are a Go map: the last pair added stands first.
  unfoldable pub read_properties :
      ObjectTokens → List (String × String) → Result (List (String × String))
  unfolding close_object
  read_properties (broken e) values = err (wrap "decode configuration property" e)
  read_properties no_name values = err (text "configuration property name is invalid")
  read_properties (unclosed e) values = err (wrap "close configuration object" e)
  read_properties (closing brace trailing) values = close_object brace trailing values
  read_properties (property name (ok value) rest) values =
      let more = read_properties rest ((name, value) ∷ values) in
      if contains name (map (λ (k, _). k) values)
      then err (text_of "duplicate configuration property %q" name)
      else if not (is_property name)
      then err (text_of "unknown configuration property %q" name)
      else more
  read_properties (property name (err e) rest) values =
      if contains name (map (λ (k, _). k) values)
      then err (text_of "duplicate configuration property %q" name)
      else if not (is_property name)
      then err (text_of "unknown configuration property %q" name)
      else err (wrap_of "decode configuration property %q" name e)

  unfoldable pub read_object : Option ObjectTokens → Result (List (String × String))
  unfolding read_properties
  read_object none = err (text "configuration must be a JSON object")
  read_object (some tokens) = read_properties tokens []

  -- A property that the loop over the required names has found, or the error of that loop.
  abbrev pub required : String → List (String × String) → Result String
  required name values = elim (lookup name values) [
    | none ↦ err (text_of "missing configuration property %q" name)
    | some raw ↦ ok raw
  ]

  -- `int` has 64 bits, so the conversion is exact.
  unfoldable pub decode_configuration_integer : String → String → Result ℤ
  decode_configuration_integer raw name = elim (json.parse_int raw) [
    | ok z ↦ ok z
    | err e ↦ err (wrap_of "configuration property %q must be an integer" name e)
  ]

  unfoldable pub decode_mode : String → Result String
  decode_mode raw =
      if not (starts_with raw "\"")
      then err (text_of "configuration property %q must be a string" "synchronizationMode")
      else elim (json.unmarshal_string raw) [
        | ok mode ↦ ok mode
        | err e ↦ err (text_of "configuration property %q must be a string" "synchronizationMode")
      ]

  -- The retention count of the document, by the schema version and the mode.
  unfoldable pub decode_retention : ℤ → String → Option String → Result ℤ
  unfolding decode_configuration_integer
  decode_retention version mode retention =
      if is_int version legacy_schema_version
      then elim retention [
        | some raw ↦ err (text "legacy configuration cannot define backup retention")
        | none ↦ ok (pos 0)
      ]
      else if is_int version schema_version_supported
      then if mode == backup
        then elim retention [
          | none ↦ err (text_of "missing configuration property %q" "backupRetentionCount")
          | some raw ↦ decode_configuration_integer raw "backupRetentionCount"
        ]
        else elim retention [
          | some raw ↦ err (text "backup retention is only valid for BACKUP mode")
          | none ↦ ok (pos 0)
        ]
      else ok (pos 0)

  -- `return configuration, nil` behind the validation.
  unfoldable pub validated : ConfigurationSnapshot → Result ConfigurationSnapshot
  validated c = do check (validate_configuration_snapshot c); ok c

  unfoldable pub decode_values : List (String × String) → Result ConfigurationSnapshot
  unfolding decode_configuration_integer decode_mode decode_retention validated lookup
  decode_values values = do
    raw_version ← required "schemaVersion" values
    raw_interval ← required "synchronizationIntervalSeconds" values
    raw_mode ← required "synchronizationMode" values
    version ← decode_configuration_integer raw_version "schemaVersion"
    interval ← decode_configuration_integer raw_interval "synchronizationIntervalSeconds"
    mode ← decode_mode raw_mode
    retention ← decode_retention version mode (lookup "backupRetentionCount" values)
    validated (record {
      schema_version = version;
      interval_seconds = interval;
      mode = mode;
      retention_count = retention;
    })

  unfoldable pub decode_configuration : String → Result ConfigurationSnapshot
  unfolding decode_values read_object
  decode_configuration encoded = do
    first ← within "decode configuration object" (json.open_object encoded)
    values ← read_object first
    decode_values values
