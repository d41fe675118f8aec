-- ===== src/Base/Text.antt =====
-- Texts by their code points. Go orders strings by bytes, which is the order of code points in UTF-8.
use Prim.Native.Nat.{ℕ}
use Prim.Native.Char.{code}
use Prim.Native.String.{String}
use mathlib.Core.Bool.{Bool, true, false, ◌&&◌, ◌||◌}
use mathlib.Core.List.{List, [], ◌∷◌}
use gosync.Base.Tests.{◌==◌, nat_Eq, ltb, leb, if◌then◌else◌}

abbrev pub codes : String → List ℕ
codes (String.◌∷◌ head tail) = code head ∷ codes tail
codes String.[] = []

-- The lexicographic order.
unfoldable pub codes_ltb : List ℕ → List ℕ → Bool
codes_ltb [] [] = false
codes_ltb [] (d ∷ ds) = true
codes_ltb (c ∷ cs) [] = false
codes_ltb (c ∷ cs) (d ∷ ds) =
    let rest = codes_ltb cs ds in if ltb c d then true else if c == d then rest else false

-- Go's `a < b` on strings.
unfoldable pub str_ltb : String → String → Bool
unfolding codes_ltb
str_ltb a b = codes_ltb (codes a) (codes b)

-- Inserts a text into a sorted list, behind its equals.
unfoldable pub insert_text : String → List String → List String
insert_text s [] = s ∷ []
insert_text s (t ∷ ts) = let rest = insert_text s ts in if str_ltb s t then s ∷ t ∷ ts else t ∷ rest

-- `sort.Strings`
unfoldable pub sort_strings : List String → List String
unfolding insert_text
sort_strings [] = []
sort_strings (s ∷ ts) = insert_text s (sort_strings ts)

abbrev pub between : ℕ → ℕ → ℕ → Bool
between low high c = leb low c && leb c high

-- `unicode.IsSpace`
unfoldable pub is_space : ℕ → Bool
is_space c =
    between 0x9 0xd c
    || c == 0x20
    || c == 0x85
    || c == 0xa0
    || c == 0x1680
    || between 0x2000 0x200a c
    || between 0x2028 0x2029 c
    || c == 0x202f
    || c == 0x205f
    || c == 0x3000

abbrev pub all_codes : (ℕ → Bool) → List ℕ → Bool
all_codes p [] = true
all_codes p (c ∷ cs) = p c && all_codes p cs

-- `strings.TrimSpace(s) == ""`
unfoldable pub is_blank : String → Bool
unfolding is_space
is_blank s = all_codes is_space (codes s)

unfoldable pub is_lower_hex : ℕ → Bool
is_lower_hex c = between b'0' b'9' c || between b'a' b'f' c
