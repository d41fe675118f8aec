-- ===== src/Config/Codec/RoundTrip.antt =====
-- The document of a configuration in src/config_codec.go, written and read.
use mathlib.Core.Path.{subst}
use package.text.Mathlib.Text.{starts_with}
use gosync.Base.{
  arith, ℕ, String, true, false, not, ◌||◌, Option, none, some, List, [], ◌∷◌, ◌++◌, ◌≡◌, refl, sym,
  ap, ◌∙◌, ◌==◌, string_Eq, nat_Eq, ok, ◌>>=◌, within, lookup, ℤ, pos, is_int, Bool-cases,
  >>=-holds, check_then, inl, inr,
}
use gosync.Config.Domain.{
  ConfigurationSnapshot, validate_configuration_snapshot, validate_legacy, validate_mode,
  legacy_schema_version, schema_version_supported, backup,
}
use gosync.Config.Codec.{
  Json, JsonValue, ObjectTokens, required, base_fields, decode_configuration, decode_values,
  read_object, decode_configuration_integer, decode_mode, decode_retention, validated,
  encode_configuration, document_fields,
}

module _ (json : Json) where
  validated_valid :
      (c c' : ConfigurationSnapshot)
      → validated json c ≡ ok c'
      → validate_configuration_snapshot c' ≡ none
  unfolding validated
  validated_valid c c' h = let p = check_then (validate_configuration_snapshot c) (ok c) h in cc

  abbrev HasValid : ConfigurationSnapshot → Type 0
  HasValid c = validate_configuration_snapshot c ≡ none

  values_valid :
      (values : List (String × String)) (c : ConfigurationSnapshot)
      → decode_values json values ≡ ok c
      → HasValid c
  unfolding decode_values
  values_valid values = >>=-holds HasValid (required json "schemaVersion" values) _ λ version.
      >>=-holds HasValid (required json "synchronizationIntervalSeconds" values) _ λ interval.
        >>=-holds HasValid (required json "synchronizationMode" values) _ λ mode.
          >>=-holds HasValid (decode_configuration_integer json version "schemaVersion") _ λ v.
            >>=-holds HasValid
              (decode_configuration_integer json interval "synchronizationIntervalSeconds") _
              λ i. >>=-holds HasValid (decode_mode json mode) _ λ m.
                >>=-holds HasValid
                  (decode_retention json v m (lookup "backupRetentionCount" values)) _
                  λ n. validated_valid _

  -- Whatever the JSON library returns, a configuration that decodes passes the validation.
  pub decode_configuration_valid :
      (t : String) (c : ConfigurationSnapshot)
      → decode_configuration json t ≡ ok c
      → validate_configuration_snapshot c ≡ none
  unfolding decode_configuration
  decode_configuration_valid t =
      >>=-holds HasValid (within "decode configuration object" (json.open_object t)) _
        λ tokens. >>=-holds HasValid (read_object json tokens) _ λ values. values_valid values

-- A document without the retention count belongs to a configuration that has none.
is_int-pos : (z : ℤ) (n : ℕ) → is_int z n ≡ true → z ≡ pos n
is_int-pos (pos m) n h = ap pos (ground arith)
is_int-pos (ℤ.negsuc m) n h = cc

abbrev WithoutCount : ConfigurationSnapshot → Type 0
WithoutCount c = (is_int c.schema_version legacy_schema_version || not (c.mode == backup)) ≡ true

abbrev WithCount : ConfigurationSnapshot → Type 0
WithCount c = (is_int c.schema_version legacy_schema_version || not (c.mode == backup)) ≡ false

WithoutCount-zero :
    (c : ConfigurationSnapshot)
    → validate_configuration_snapshot c ≡ none
    → WithoutCount c
    → is_int c.retention_count 0 ≡ true
unfolding validate_configuration_snapshot validate_legacy validate_mode
WithoutCount-zero c v h = ground arith

WithCount-version :
    (c : ConfigurationSnapshot)
    → validate_configuration_snapshot c ≡ none
    → WithCount c
    → is_int c.schema_version schema_version_supported ≡ true
unfolding validate_configuration_snapshot
WithCount-version c v h = ground arith

decode_retention_absent :
    (json : Json) (c : ConfigurationSnapshot)
    → WithoutCount c
    → decode_retention json c.schema_version c.mode none ≡ ok (pos 0)
unfolding decode_retention
decode_retention_absent json c h = ground arith

-- How a JSON library writes values, and the calls of its decoder on an object of these fields.
pub record Rendering : Type 0 where
  pub integer_text : ℤ → String
  pub string_text : String → String

abbrev pub value_text : Rendering → JsonValue → String
value_text w (JsonValue.int z) = w.integer_text z
value_text w (JsonValue.string s) = w.string_text s

unfoldable pub object_tokens : Rendering → List (String × JsonValue) → ObjectTokens
object_tokens w [] = ObjectTokens.closing true none
object_tokens w ((name, v) ∷ rest) =
    ObjectTokens.property name (ok (value_text w v)) (object_tokens w rest)

-- A library that reads what it writes of a configuration.
pub record ReadsBack (json : Json) (w : Rendering) (c : ConfigurationSnapshot) : Type 0 where
  pub version : json.parse_int (w.integer_text c.schema_version) ≡ ok c.schema_version
  pub interval : json.parse_int (w.integer_text c.interval_seconds) ≡ ok c.interval_seconds
  pub count : json.parse_int (w.integer_text c.retention_count) ≡ ok c.retention_count
  pub mode : json.unmarshal_string (w.string_text c.mode) ≡ ok c.mode
  pub quote : starts_with (w.string_text c.mode) "\"" ≡ true
  pub document :
      (t : String) × (json.marshal (document_fields json c) ≡ ok t)
      × (json.open_object t ≡ ok (some (object_tokens w (document_fields json c))))

fields_absent :
    (json : Json) (c : ConfigurationSnapshot)
    → WithoutCount c
    → document_fields json c ≡ base_fields json c
unfolding document_fields
fields_absent json c h = rw h refl

fields_present :
    (json : Json) (c : ConfigurationSnapshot)
    → WithCount c
    → document_fields json c
      ≡ base_fields json c ++ ("backupRetentionCount", JsonValue.int c.retention_count) ∷ []
unfolding document_fields
fields_present json c h = rw h refl

module _ (json : Json) (w : Rendering) (c : ConfigurationSnapshot)
    (reads : ReadsBack json w c) where
  -- The values that the loop over the properties collects from a document.
  abbrev base_values : ConfigurationSnapshot → List (String × String)
  base_values c =
      ("synchronizationMode", w.string_text c.mode)
      ∷ ("synchronizationIntervalSeconds", w.integer_text c.interval_seconds)
      ∷ ("schemaVersion", w.integer_text c.schema_version)
      ∷ []

  abbrev document_values : ConfigurationSnapshot → Option ℤ → List (String × String)
  document_values c none = base_values c
  document_values c (some n) = ("backupRetentionCount", w.integer_text n) ∷ base_values c

  abbrev retention_text : Option ℤ → Option String
  retention_text none = none
  retention_text (some n) = some (w.integer_text n)

  integer_back :
      (z : ℤ) (name : String)
      → json.parse_int (w.integer_text z) ≡ ok z
      → decode_configuration_integer json (w.integer_text z) name ≡ ok z
  unfolding decode_configuration_integer
  integer_back z name h = rw (h, decode_configuration_integer) refl

  mode_back : decode_mode json (w.string_text c.mode) ≡ ok c.mode
  unfolding decode_mode
  mode_back = rw (reads.quote, reads.mode) refl

  values_back :
      (n : Option ℤ)
      → validate_configuration_snapshot c ≡ none
      → decode_retention json c.schema_version c.mode (retention_text n) ≡ ok c.retention_count
      → decode_values json (document_values c n) ≡ ok c
  unfolding decode_values validated lookup
  values_back none v h =
      rw
        (
          integer_back c.schema_version "schemaVersion" reads.version,
          integer_back c.interval_seconds "synchronizationIntervalSeconds" reads.interval,
          mode_back,
          h,
          v,
        )
        refl
  values_back (some n) v h =
      rw
        (
          integer_back c.schema_version "schemaVersion" reads.version,
          integer_back c.interval_seconds "synchronizationIntervalSeconds" reads.interval,
          mode_back,
          h,
          v,
        )
        refl

  count_back :
      is_int c.schema_version schema_version_supported ≡ true
      → WithCount c
      → decode_retention json c.schema_version c.mode (some (w.integer_text c.retention_count))
        ≡ ok c.retention_count
  unfolding decode_retention
  count_back v h =
      let e : decode_configuration_integer json (w.integer_text c.retention_count)
            "backupRetentionCount"
          ≡ ok c.retention_count =
        integer_back c.retention_count "backupRetentionCount" reads.count in
      ground arith

  -- What the document's tokens decode to.
  tokens_back :
      validate_configuration_snapshot c ≡ none
      → (◌>>=◌
          (read_object json (some (object_tokens w (document_fields json c))))
          (decode_values json))
        ≡ ok c
  unfolding read_object object_tokens
  tokens_back v =
      elim (Bool-cases (is_int c.schema_version legacy_schema_version || not (c.mode == backup))) [
        | inl h ↦ subst Decodes (sym (fields_absent json c h)) (
            values_back none v (
              decode_retention_absent json c h
              ∙ ap ok (sym (is_int-pos _ 0 (WithoutCount-zero c v h)))))
        | inr h ↦
            subst Decodes (sym (fields_present json c h))
              (values_back (some c.retention_count) v (count_back (WithCount-version c v h) h))
      ]
    where
      Decodes : List (String × JsonValue) → Type 0
      Decodes fields =
          (◌>>=◌ (read_object json (some (object_tokens w fields))) (decode_values json)) ≡ ok c

  -- A valid configuration is written as a document, and that document reads back as the same
  -- configuration, if the JSON library reads what it writes of that configuration.
  pub decode_configuration-encode_configuration :
      validate_configuration_snapshot c ≡ none
      → (t : String) × (encode_configuration json c ≡ ok t) × (decode_configuration json t ≡ ok c)
  unfolding encode_configuration decode_configuration
  decode_configuration-encode_configuration v =
      let (t, written, opened) = reads.document in
      (t, rw (v, written) refl, rw opened (tokens_back v))
