-- ===== src/Remote/Endpoint/Valid.antt =====
-- What the parser of src/watch_endpoint.go accepts, against the validation of src/remote_watch_policy.go.
use gosync.Base.{
  ℕ, zero, suc, ◌<◌, String, Bool, true, false, not, ◌||◌, Option, none, some, ◌==◌, string_Eq,
  length, codes, any, Error, text, Result, ok, err, ℤ, pos, ◌≡◌, ◌⊎◌, refl, sym, ap, ◌∙◌, arith,
  beq_self, check_then, fail_if_then, passed_on, Bool-cases, Option-cases, Result-cases, inl, inr,
}
use mathlib.Core.Path.{subst}
use gosync.Config.Domain.{out_of_range}
use gosync.Config.Answers.{atoi}
use gosync.Remote.Paths.{
  Texts, check_escaping, escaping_fuel, has_encoded_separator, contains_codes,
  validate_remote_directory_path, validate_remote_path_escaping,
}
use gosync.Remote.Paths.Fuel.{check_escaping_ends}
use gosync.Remote.Endpoint.{
  Url, RemoteEndpoint, ftp, is_protocol, is_url_space, ends_in_colon, in_port_range, with_syntax,
  contains_remote_host_delimiter, parse_remote_port, parse_remote_endpoint,
  validate_remote_endpoint,
}

-- Two runs of the loop that end agree.
check_escaping_agrees :
    (texts : Texts) (n m : ℕ) (candidate : String) (r s : Option Error)
    → check_escaping texts n candidate ≡ some r
    → check_escaping texts m candidate ≡ some s
    → r ≡ s
unfolding check_escaping
check_escaping_agrees texts zero m candidate r s h k = cc
check_escaping_agrees texts (suc n) zero candidate r s h k = cc
check_escaping_agrees texts (suc n) (suc m) candidate r s h k =
    let ih = λ (d : String). check_escaping_agrees texts n m d r s in
    elim (Bool-cases (has_encoded_separator texts candidate)) [
      | inl b ↦ ground arith
      | inr b ↦ elim (Result-cases (texts.path_unescape candidate)) [
        | inl (x, u) ↦ ground arith
        | inr (d, u) ↦ elim (Option-cases (validate_remote_directory_path texts d)) [
          | inr (x, v) ↦ ground arith
          | inl v ↦ elim (Bool-cases (d == candidate)) [
            | inl same ↦ ground arith
            | inr same ↦ ih d (ground arith) (ground arith)
          ]
        ]
      ]
    ]

-- A round that ends without an error leaves the same text or ends so for what was unescaped.
check_escaping_next :
    (texts : Texts) (n : ℕ) (candidate decoded : String)
    → texts.path_unescape candidate ≡ ok decoded
    → check_escaping texts (suc n) candidate ≡ some none
    → (decoded ≡ candidate) ⊎ (check_escaping texts n decoded ≡ some none)
unfolding check_escaping
check_escaping_next texts n candidate d u h =
    elim (Bool-cases (has_encoded_separator texts candidate)) [
      | inl b ↦ absurd (ground arith)
      | inr b ↦ elim (Option-cases (validate_remote_directory_path texts d)) [
        | inr (x, v) ↦ absurd (ground arith)
        | inl v ↦ elim (Bool-cases (d == candidate)) [
          | inl same ↦ inl ((string_Eq.beq_iff d candidate).0 same)
          | inr same ↦ inr (ground arith)
        ]
      ]
    ]

fuel_escaping :
    (texts : Texts) (path : String)
    → validate_remote_path_escaping texts path ≡ none
    → check_escaping texts (escaping_fuel texts path) path ≡ some none
unfolding validate_remote_path_escaping
fuel_escaping texts path h =
    elim (Option-cases (check_escaping texts (escaping_fuel texts path) path)) [
      | inl e ↦ absurd (ground arith)
      | inr (r, e) ↦ ground arith
    ]

escaping_fuel-none :
    (texts : Texts) (path : String)
    → check_escaping texts (escaping_fuel texts path) path ≡ some none
    → validate_remote_path_escaping texts path ≡ none
unfolding validate_remote_path_escaping
escaping_fuel-none texts path h = rw (h, validate_remote_path_escaping)

-- What Go documents of `strings.ToLower`, `url.PathUnescape` and `URL.EscapedPath`.
pub record UrlLaws (texts : Texts) (parse_url : String → Result Url) : Type 0 where
  pub lowered : (s : String) → texts.lower (texts.lower s) ≡ texts.lower s
  pub not_emptied : (s : String) → texts.lower s ≡ "" → s ≡ ""
  pub shorter :
      (s t : String)
      → texts.path_unescape s ≡ ok t
      → (t == s) ≡ false
      → length (codes t) < length (codes s)
  pub escaped :
      (s : String) (u : Url) → parse_url s ≡ ok u → texts.path_unescape u.escaped_path ≡ ok u.path

unescaped_passes :
    (texts : Texts) (candidate decoded : String)
    → ((s t : String)
        → texts.path_unescape s ≡ ok t
        → (t == s) ≡ false
        → length (codes t) < length (codes s))
    → texts.path_unescape candidate ≡ ok decoded
    → validate_remote_path_escaping texts candidate ≡ none
    → validate_remote_path_escaping texts decoded ≡ none
unescaped_passes texts c d shorter u h =
    elim (check_escaping_next texts (length (codes c)) c d u (fuel_escaping texts c h)) [
      | inl same ↦ subst (λ x. validate_remote_path_escaping texts x ≡ none) (sym same) h
      | inr ends ↦ elim (Option-cases (check_escaping texts (escaping_fuel texts d) d)) [
        | inl e ↦
            absurd (check_escaping_ends texts (escaping_fuel texts d) d shorter (omega arith) e)
        | inr (r, e) ↦
            escaping_fuel-none texts d
              (e ∙ ap (λ x. some x) (check_escaping_agrees texts _ _ d r none e ends))
      ]
    ]

in_port_range_lem :
    (texts : Texts) (r : Result ℤ) (z : ℤ)
    → in_port_range texts r ≡ ok z
    → out_of_range z 1 65535 ≡ false
in_port_range_lem texts (err e) z h = cc
in_port_range_lem texts (ok y) z h = elim (Bool-cases (out_of_range y 1 65535)) [
  | inl b ↦ absurd (ground arith)
  | inr b ↦ ground arith
]

parsed_port :
    (texts : Texts) (u : Url) (z : ℤ)
    → parse_remote_port texts u ≡ ok z
    → out_of_range z 1 65535 ≡ false
unfolding parse_remote_port
parsed_port texts u z h = elim (Bool-cases (u.port == "")) [
  | inr b ↦ in_port_range_lem texts (atoi u.port) z (rw b at h)
  | inl b ↦ elim (Bool-cases (ends_in_colon (codes u.host))) [
    | inl c ↦ absurd (ground arith)
    | inr c ↦ elim (Bool-cases (texts.lower u.scheme == ftp)) [
      | inl d ↦ default_port 21 (ground arith) refl
      | inr d ↦ default_port 22 (ground arith) refl
    ]
  ]
]
  where
    default_port :
        (n : ℕ)
        → ◌≡◌ {A = Result ℤ} (ok (pos n)) (ok z)
        → out_of_range (pos n) 1 65535 ≡ false
        → out_of_range z 1 65535 ≡ false
    default_port n e k =
        let same : pos n ≡ z = cc in subst (λ x. out_of_range x 1 65535 ≡ false) same k

not_empty_text :
    (texts : Texts) (s : String)
    → (texts.lower s ≡ "" → s ≡ "")
    → (s == "") ≡ false
    → (texts.lower s == "") ≡ false
not_empty_text texts s k h = elim (Bool-cases (texts.lower s == "")) [
  | inl b ↦
      let empty = k ((string_Eq.beq_iff (texts.lower s) "").0 b) in
      let there = (string_Eq.beq_iff s "").1 empty in absurd cc
  | inr b ↦ b
]

validate_all :
    (texts : Texts) (e : RemoteEndpoint)
    → not (is_protocol e.protocol) ≡ false
    → (e.host == "") ≡ false
    → out_of_range e.port 1 65535 ≡ false
    → (e.host == texts.lower e.host) ≡ true
    → contains_remote_host_delimiter e.host ≡ false
    → validate_remote_directory_path texts e.path ≡ none
    → validate_remote_path_escaping texts e.path ≡ none
    → validate_remote_endpoint texts e ≡ none
unfolding validate_remote_endpoint
validate_all texts e a b c d f g h = rw (a, b, c, d, f, g, h)

or_false : (a b : Bool) → (a || b) ≡ false → b ≡ false
or_false true b h = cc
or_false false b h = h

-- An endpoint that is parsed from a text passes the validation of endpoints, if its host has none of the
-- characters that the validation refuses, and if `net/url` and `strings` behave as documented.
pub parse_remote_endpoint-IsValid :
    (texts : Texts) (parse_url : String → Result Url) (endpoint_text : String) (e : RemoteEndpoint)
    → UrlLaws texts parse_url
    → contains_remote_host_delimiter e.host ≡ false
    → parse_remote_endpoint texts parse_url endpoint_text ≡ ok e
    → validate_remote_endpoint texts e ≡ none
unfolding parse_remote_endpoint
parse_remote_endpoint-IsValid texts parse_url t e laws clean h =
    let (_, h) =
      fail_if_then (any is_url_space (codes t)) (text "URL contains unescaped whitespace") _ h in
    let (u, (parsed, h)) = passed_on (with_syntax (parse_url t)) _ h in
    let (protocol, h) =
      fail_if_then (not (is_protocol (texts.lower u.scheme))) (text "scheme must be ftp or sftp") _
        h in
    let (_, h) =
      fail_if_then (not (u.opaque_part == ""))
        (text "URL must use an explicit server and directory path") _ h in
    let (host, h) =
      fail_if_then (u.host == "" || u.hostname == "") (text "server host is required") _ h in
    let (_, h) = fail_if_then u.has_user (text "credentials must not be included in the URL") _ h in
    let (_, h) =
      fail_if_then
        (not (u.raw_query == "") || u.force_query || contains_codes (codes t) (codes "?"))
        (text "query strings are not allowed") _ h in
    let (_, h) =
      fail_if_then (contains_codes (codes t) (codes "#")) (text "fragments are not allowed") _ h in
    let (port, (ported, h)) = passed_on (parse_remote_port texts u) _ h in
    let (path, h) = check_then (validate_remote_directory_path texts u.path) _ h in
    let (escaping, h) = check_then (validate_remote_path_escaping texts u.escaped_path) _ h in
    let endpoint : RemoteEndpoint = record {
      protocol = texts.lower u.scheme;
      host = texts.lower u.hostname;
      port = port;
      path = u.path;
    } in
    let same : endpoint ≡ e = ok_value h in
    subst (λ x. validate_remote_endpoint texts x ≡ none) same
      (validate_all texts endpoint protocol
        (not_empty_text texts u.hostname (laws.not_emptied u.hostname)
          (or_false (u.host == "") (u.hostname == "") host))
        (parsed_port texts u port ported)
        (ap (λ s. texts.lower u.hostname == s) (laws.lowered u.hostname)
          ∙ beq_self (texts.lower u.hostname))
        (subst (λ x. contains_remote_host_delimiter x.host ≡ false) (sym same) clean) path
        (unescaped_passes texts u.escaped_path u.path laws.shorter
          (laws.escaped t u (without_syntax (parse_url t) u parsed)) escaping))
  where
    ok_value : {a b : RemoteEndpoint} → ◌≡◌ {A = Result RemoteEndpoint} (ok a) (ok b) → a ≡ b
    ok_value h = cc

    without_syntax : (r : Result Url) (u : Url) → with_syntax r ≡ ok u → r ≡ ok u
    without_syntax (ok v) u h = h
    without_syntax (err x) u h = cc
