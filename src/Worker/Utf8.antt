-- ===== src/Worker/Utf8.antt =====
-- UTF-8 as the standard library reads it (`str::from_utf8`): how long the character at the front of
-- some bytes is, and how far the bytes are valid.
pub mod Prefix
pub mod Stream
use rust_playground.Base.{
  ℕ, zero, suc, ◌+◌, ◌≡◌, Bool, ◌&&◌, Option, none, some, List, [], ◌∷◌, leb, ◌==◌, if◌then◌else◌,
  length, get_or, drop,
}

between : ℕ → ℕ → ℕ → Bool
between lo hi x = leb lo x && leb x hi

-- The second byte of a character of three bytes, and of four: no overlong form, no surrogate,
-- nothing past the last code point.
second3 : ℕ → ℕ → Bool
unfolding between
second3 a b =
    if a == 0xe0
    then between 0xa0 0xbf b
    else if a == 0xed
    then between 0x80 0x9f b
    else between 0x80 0xbf b

second4 : ℕ → ℕ → Bool
unfolding between
second4 a b =
    if a == 0xf0
    then between 0x90 0xbf b
    else if a == 0xf4
    then between 0x80 0x8f b
    else between 0x80 0xbf b

-- The length of the character that four bytes begin with.
code_len : ℕ → ℕ → ℕ → ℕ → Option ℕ
unfolding second3 second4 between
code_len a b c d =
    if leb a 0x7f
    then some 1
    else if between 0xc2 0xdf a
    then (if between 0x80 0xbf b then some 2 else none)
    else if between 0xe0 0xef a
    then (if second3 a b && between 0x80 0xbf c then some 3 else none)
    else if between 0xf0 0xf4 a
    then (if second4 a b && (between 0x80 0xbf c && between 0x80 0xbf d) then some 4 else none)
    else none

-- A missing byte is read as 0, which continues no character.
unfoldable pub char_len : List ℕ → Option ℕ
unfolding code_len
char_len [] = none
char_len (a ∷ r) = code_len a (get_or r 0 0) (get_or r 1 0) (get_or r 2 0)

unfoldable pub valid_up_to_within : ℕ → List ℕ → ℕ
unfolding char_len
valid_up_to_within zero bs = 0
valid_up_to_within (suc fuel) bs = elim (char_len bs) [
  | none ↦ 0
  | some k ↦ k + valid_up_to_within fuel (drop k bs)
]

-- `from_utf8(bs)`: the length of `Ok(s)`, and `valid_up_to` of an error.
unfoldable pub valid_up_to : List ℕ → ℕ
unfolding valid_up_to_within
valid_up_to bs = valid_up_to_within (length bs) bs

-- The bytes of whole characters.
pub data IsUtf8 : List ℕ → Type 0 where
  nil : IsUtf8 []
  char : {bs : List ℕ} (k : ℕ) → char_len bs ≡ some k → IsUtf8 (drop k bs) → IsUtf8 bs
