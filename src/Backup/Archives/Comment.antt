-- ===== src/Backup/Archives/Comment.antt =====
-- Of src/backup_archive.go: the comment that is written behind the end record of a ZIP archive, on
-- lists of bytes, and the names that an entry may have. The end record has 22 bytes, and its last two
-- are the length of the comment, the low byte first.
use gosync.Base.{
  ℕ, zero, suc, ◌+◌, ◌*◌, ◌/◌, ◌%◌, ◌≤◌, Bool, true, false, ◌&&◌, Option, none, some, List, [], ◌∷◌,
  ◌++◌, ◌==◌, nat_Eq, ltb, length, take, drop, if◌then◌else◌, length-append, length-take_le,
  append_assoc, text, Result, ok, err, ◌≡◌, refl, ap, sym, ◌∙◌, arith, Bool-cases, Option-cases,
  inl, inr,
}
use gosync.Os.Monad.{Io, ◌>>=◌, within, lift}

abbrev pub signature : List ℕ
signature = 0x50 ∷ 0x4b ∷ 0x05 ∷ 0x06 ∷ []

unfoldable pub begins_with : List ℕ → List ℕ → Bool
begins_with cs [] = true
begins_with [] (d ∷ ds) = false
begins_with (c ∷ cs) (d ∷ ds) = c == d && begins_with cs ds

-- `bytes.LastIndex` of the signature.
unfoldable pub last_signature : List ℕ → Option ℕ
unfolding begins_with
last_signature [] = none
last_signature (c ∷ cs) = elim (last_signature cs) [
  | some n ↦ some (suc n)
  | none ↦ if begins_with (c ∷ cs) signature then some 0 else none
]

-- `binary.LittleEndian.Uint16` of the first two bytes.
unfoldable pub word_at : List ℕ → ℕ
word_at [] = 0
word_at (a ∷ []) = a
word_at (a ∷ b ∷ rest) = a + 256 * b

-- `binary.LittleEndian.PutUint16` of a number of 16 bits.
abbrev pub word_bytes : ℕ → List ℕ
word_bytes n = n % 256 ∷ n / 256 % 256 ∷ []

-- The archive up to the length of the comment, the new length, and the new comment.
unfoldable pub rewritten : ℕ → List ℕ → List ℕ → List ℕ
rewritten end contents comment =
    take (end + 20) contents ++ (word_bytes (length comment) ++ comment)

-- The tests behind the search for the end record.
unfoldable pub rewrite_at : ℕ → List ℕ → List ℕ → Result (List ℕ)
unfolding word_at rewritten
rewrite_at end contents comment =
    if ltb (length contents) (end + 22)
    then err (text "backup archive end record is missing")
    else if ltb 65535 (length comment)
    then err (text "backup archive identity is too large")
    else if ltb (length contents) (end + 22 + word_at (drop (end + 20) contents))
    then err (text "backup archive comment is invalid")
    else ok (rewritten end contents comment)

-- The new contents that `setBackupArchiveComment` writes, or its error.
unfoldable pub with_comment : List ℕ → List ℕ → Result (List ℕ)
unfolding last_signature rewrite_at
with_comment contents comment = elim (last_signature contents) [
  | none ↦ err (text "backup archive end record is missing")
  | some end ↦ rewrite_at end contents comment
]

-- `read` and `write` are `os.ReadFile` and `os.WriteFile` at the archive.
module _ (World : Type 0) (read : Io World (List ℕ)) (write : List ℕ → Io World (Unit {0})) where
  unfoldable pub set_backup_archive_comment : List ℕ → Io World (Unit {0})
  unfolding with_comment
  set_backup_archive_comment comment = do
    contents ← within "read backup archive for identity" read
    changed ← lift (with_comment contents comment)
    within "write backup archive identity" (write changed)

-- What a reader of the archive finds at an end record: the length of the comment, and what follows.
abbrev pub comment_length : ℕ → List ℕ → ℕ
comment_length end contents = word_at (drop (end + 20) contents)

abbrev pub comment_at : ℕ → List ℕ → List ℕ
comment_at end contents = drop (end + 22) contents

drop-length : (n : ℕ) (xs ys : List ℕ) → n ≡ length xs → drop n (xs ++ ys) ≡ ys
drop-length zero [] ys h = refl
drop-length zero (x ∷ xs) ys h = absurd (omega (arith, h))
drop-length (suc n) [] ys h = absurd (omega (arith, h))
drop-length (suc n) (x ∷ xs) ys h = drop-length n xs ys (omega (arith, h))

take-length : (n : ℕ) (xs ys : List ℕ) → n ≡ length xs → take n (xs ++ ys) ≡ xs
take-length zero [] ys h = refl
take-length zero (x ∷ xs) ys h = absurd (omega (arith, h))
take-length (suc n) [] ys h = absurd (omega (arith, h))
take-length (suc n) (x ∷ xs) ys h = ap (λ r. x ∷ r) (take-length n xs ys (omega (arith, h)))

-- What the tests of a rewrite that succeeds have found.
rewrite_at_ok :
    (end : ℕ) (contents comment r : List ℕ)
    → rewrite_at end contents comment ≡ ok r
    → (end + 22 ≤ length contents) × (length comment ≤ 65535) × (r ≡ rewritten end contents comment)
unfolding rewrite_at
rewrite_at_ok end contents comment r h = elim (Bool-cases (ltb (length contents) (end + 22))) [
  | inl a ↦ absurd (ground arith)
  | inr a ↦ elim (Bool-cases (ltb 65535 (length comment))) [
    | inl b ↦ absurd (ground arith)
    | inr b ↦
        elim (Bool-cases (ltb (length contents) (end + 22 + word_at (drop (end + 20) contents)))) [
          | inl c ↦ absurd (ground arith)
          | inr c ↦ (ground arith, ground arith, ground arith)
        ]
  ]
]

-- A comment of 16 bits is found again behind its length, and what precedes it is unchanged.
rewritten_lem :
    (end : ℕ) (contents comment : List ℕ)
    → end + 22 ≤ length contents
    → length comment ≤ 65535
    → (take (end + 20) (rewritten end contents comment) ≡ take (end + 20) contents)
      × (comment_length end (rewritten end contents comment) ≡ length comment)
      × (comment_at end (rewritten end contents comment) ≡ comment)
unfolding rewritten word_at
rewritten_lem end contents comment h small =
    let start = take (end + 20) contents in
    let word = word_bytes (length comment) in
    let size : end + 20 ≡ length start = sym (length-take_le (end + 20) contents (omega arith)) in
    let word_size : end + 22 ≡ length (start ++ word) =
      omega (arith, length-append start word, size) in
    (
      take-length (end + 20) start (word ++ comment) size,
      (ap word_at (drop-length (end + 20) start (word ++ comment) size) ∙ omega arith),
      (ap (drop (end + 22)) (sym (append_assoc start word comment))
          ∙ drop-length (end + 22) (start ++ word) comment word_size),
    )

-- If a comment is accepted, the archive had an end record whose 22 bytes fit, and at it the new contents
-- tell the length of the comment and then the comment, behind bytes that are those of the old contents.
pub with_comment_reads_back :
    (contents comment r : List ℕ)
    → with_comment contents comment ≡ ok r
    → (end : ℕ) × (last_signature contents ≡ some end)
      × (end + 22 ≤ length contents)
      × (take (end + 20) r ≡ take (end + 20) contents)
      × (comment_length end r ≡ length comment)
      × (comment_at end r ≡ comment)
unfolding with_comment
with_comment_reads_back contents comment r h = elim (Option-cases (last_signature contents)) [
  | inl e ↦ absurd (ground arith)
  | inr (end, e) ↦
      let (fits, small, same) = rewrite_at_ok end contents comment r (rw (e, with_comment) at h) in
      let (before, told, found) = rewritten_lem end contents comment fits small in
      (
        end,
        e,
        fits,
        ap (take (end + 20)) same ∙ before,
        ap (comment_length end) same ∙ told,
        ap (comment_at end) same ∙ found,
      )
]
