-- ===== src/Text.antt =====
-- What modules/registry uses of Go's `strings` on header values and names, over code points: a
-- header is taken to be valid UTF-8. `trim_space` is strings.TrimSpace with its table of white
-- space, `equal_fold` is strings.EqualFold against a text of ASCII letters other than k and s (the
-- two that fold to a letter outside ASCII too), `split_on` is strings.Split at one character, and
-- `to_lower` is strings.ToLower, its part outside ASCII being a parameter.
pub mod Laws
use Prim.Native.Char.{Char, code}
use Prim.Native.String
use appstore_gerege_nexus.Prelude.{
  ℕ, zero, suc, ◌+◌, ◌-◌, String, Bool, true, false, ◌&&◌, ◌||◌, List, [], ◌∷◌, ◌==◌, leb, eqb,
  if◌then◌else◌,
}

-- unicode.IsSpace
unfoldable pub is_space : Char → Bool
is_space ch =
    let c = code ch in
    leb 9 c && leb c 13
    || eqb c 32
    || eqb c 0x85
    || eqb c 0xa0
    || eqb c 0x1680
    || leb 0x2000 c && leb c 0x200a
    || eqb c 0x2028
    || eqb c 0x2029
    || eqb c 0x202f
    || eqb c 0x205f
    || eqb c 0x3000

unfoldable pub trim_left : String → String
unfolding is_space
trim_left String.[] = ""
trim_left (String.◌∷◌ c s) = let rest = trim_left s in if is_space c then rest else String.◌∷◌ c s

-- A trailing run of white space goes as the rest of the text comes back empty.
abbrev pub trimmed_cons : Char → String → String
trimmed_cons c String.[] = if is_space c then "" else String.◌∷◌ c ""
trimmed_cons c (String.◌∷◌ d s) = String.◌∷◌ c (String.◌∷◌ d s)

unfoldable pub trim_right : String → String
unfolding is_space
trim_right String.[] = ""
trim_right (String.◌∷◌ c s) = trimmed_cons c (trim_right s)

-- strings.TrimSpace
unfoldable pub trim_space : String → String
unfolding trim_left trim_right
trim_space s = trim_right (trim_left s)

-- s[:n] and s[n:], over code points.
abbrev pub take_text : ℕ → String → String
take_text zero s = ""
take_text (suc n) String.[] = ""
take_text (suc n) (String.◌∷◌ c s) = String.◌∷◌ c (take_text n s)

abbrev pub drop_text : ℕ → String → String
drop_text zero s = s
drop_text (suc n) String.[] = ""
drop_text (suc n) (String.◌∷◌ c s) = drop_text n s

abbrev pub length_text : String → ℕ
length_text String.[] = 0
length_text (String.◌∷◌ c s) = suc (length_text s)

-- The letter that a code point folds to, within ASCII.
abbrev pub fold : Char → ℕ
fold ch = let c = code ch in if leb b'A' c && leb c b'Z' then c + 32 else c

-- strings.EqualFold
unfoldable pub equal_fold : String → String → Bool
equal_fold String.[] String.[] = true
equal_fold (String.◌∷◌ c s) (String.◌∷◌ d t) = eqb (fold c) (fold d) && equal_fold s t
equal_fold _ _ = false

abbrev pub onto_first : Char → List String → List String
onto_first c [] = String.◌∷◌ c "" ∷ []
onto_first c (part ∷ parts) = String.◌∷◌ c part ∷ parts

-- strings.Split(s, sep), for a separator of one character: never empty.
unfoldable pub split_on : ℕ → String → List String
split_on sep String.[] = "" ∷ []
split_on sep (String.◌∷◌ c s) =
    let parts = split_on sep s in if eqb (code c) sep then "" ∷ parts else onto_first c parts

-- strings.SplitN(s, sep, 2)[0]
unfoldable pub before : ℕ → String → String
before sep String.[] = ""
before sep (String.◌∷◌ c s) =
    let rest = before sep s in if eqb (code c) sep then "" else String.◌∷◌ c rest

-- strings.TrimPrefix(s, prefix)
abbrev pub cut_prefix : String → String → String → String
cut_prefix whole s String.[] = s
cut_prefix whole String.[] (String.◌∷◌ d t) = whole
cut_prefix whole (String.◌∷◌ c s) (String.◌∷◌ d t) =
    let rest = cut_prefix whole s t in if eqb (code c) (code d) then rest else whole

abbrev pub trim_prefix : String → String → String
trim_prefix s prefix = cut_prefix s s prefix

abbrev nth_char : String → ℕ → Char → Char
nth_char String.[] n d = d
nth_char (String.◌∷◌ c s) zero d = c
nth_char (String.◌∷◌ c s) (suc n) d = nth_char s n d

abbrev lower_char : (Char → Char) → Char → Char
lower_char other ch =
    let c = code ch in
    let low = nth_char "abcdefghijklmnopqrstuvwxyz" (c - b'A') ch in
    if leb b'A' c && leb c b'Z' then low else if leb c 127 then ch else other ch

-- strings.ToLower; `other` is unicode.ToLower outside ASCII.
unfoldable pub to_lower : (Char → Char) → String → String
to_lower other String.[] = ""
to_lower other (String.◌∷◌ c s) = String.◌∷◌ (lower_char other c) (to_lower other s)
