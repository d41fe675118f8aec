-- ===== src/Remote/Paths/Fuel.antt =====
-- The rounds of `validateRemotePathEscaping` of src/watch_endpoint.go.
use gosync.Base.{
  ℕ, zero, suc, ◌<◌, String, false, none, ◌==◌, string_Eq, length, codes, ok, ◌≡◌, arith,
  Bool-cases, Option-cases, Result-cases, inl, inr,
}
use gosync.Remote.Paths.{
  Texts, check_escaping, has_encoded_separator, validate_remote_directory_path,
}

-- The loop ends within as many rounds as the text is long, and one more, if unescaping shortens every
-- text that it changes.
pub check_escaping_ends :
    (texts : Texts) (n : ℕ) (candidate : String)
    → ((s t : String)
        → texts.path_unescape s ≡ ok t
        → (t == s) ≡ false
        → length (codes t) < length (codes s))
    → length (codes candidate) < n
    → ¬ (check_escaping texts n candidate ≡ none)
unfolding check_escaping
check_escaping_ends texts zero candidate shorter h = λ e. omega arith
check_escaping_ends texts (suc n) candidate shorter h =
    let ih = λ (d : String) (l : length (codes d) < n). check_escaping_ends texts n d shorter l in
    λ e. elim (Bool-cases (has_encoded_separator texts candidate)) [
      | inl b ↦ ground arith
      | inr b ↦ elim (Result-cases (texts.path_unescape candidate)) [
        | inl (x, u) ↦ ground arith
        | inr (d, u) ↦ elim (Option-cases (validate_remote_directory_path texts d)) [
          | inr (x, v) ↦ ground arith
          | inl v ↦ elim (Bool-cases (d == candidate)) [
            | inl same ↦ ground arith
            | inr same ↦ ih d (omega (arith, shorter candidate d u same)) (ground arith)
          ]
        ]
      ]
    ]
