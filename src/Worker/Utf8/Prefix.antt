-- ===== src/Worker/Utf8/Prefix.antt =====
-- A character is read the same whatever follows it.
use rust_playground.Base.{ℕ, ◌≤◌, ◌<◌, ◌≡◌, some, List, [], ◌∷◌, ◌++◌, arith, length}
use rust_playground.Worker.Utf8.{char_len}

pub char_len_bounds :
    (bs : List ℕ) (k : ℕ) → char_len bs ≡ some k → (0 < k) × (k ≤ 4) × (k ≤ length bs)
unfolding char_len
char_len_bounds [] k h = cc
char_len_bounds (a ∷ []) k h = ground arith
char_len_bounds (a ∷ b ∷ []) k h = ground arith
char_len_bounds (a ∷ b ∷ c ∷ []) k h = ground arith
char_len_bounds (a ∷ b ∷ c ∷ d ∷ r) k h = ground arith

pub char_len-append :
    (bs more : List ℕ) (k : ℕ) → char_len bs ≡ some k → char_len (bs ++ more) ≡ some k
unfolding char_len
char_len-append [] more k h = cc
char_len-append (a ∷ []) more k h = ground arith
char_len-append (a ∷ b ∷ []) more k h = ground arith
char_len-append (a ∷ b ∷ c ∷ []) more k h = ground arith
char_len-append (a ∷ b ∷ c ∷ d ∷ r) more k h = h

pub char_len_within :
    (bs more : List ℕ) (k : ℕ)
    → char_len (bs ++ more) ≡ some k
    → k ≤ length bs
    → char_len bs ≡ some k
unfolding char_len
char_len_within [] more k h le = ground (arith, char_len_bounds more k)
char_len_within (a ∷ []) more k h le = ground arith
char_len_within (a ∷ b ∷ []) more k h le = ground arith
char_len_within (a ∷ b ∷ c ∷ []) more k h le = ground arith
char_len_within (a ∷ b ∷ c ∷ d ∷ r) more k h le = h
