-- ===== src/Worker/Utf8/Stream.antt =====
-- Bytes that arrive in pieces: what is valid can be taken off, and what is left is less than a
-- character and still begins one.
use rust_playground.Base.{
  some-injective, none≢some, ℕ, zero, suc, ◌+◌, ◌≤◌, ◌<◌, ◌≡◌, refl, sym, subst, ◌∙◌, inl, inr,
  none, some, List, [], ◌∷◌, ◌++◌, arith, length, take, drop, Option-cases, length-drop, drop-drop,
  drop-append_le, take-add, take-append-drop, length-take_le, leb, leb→le, leb→lt, Bool-cases,
}
use rust_playground.Worker.Utf8.{char_len, valid_up_to_within, valid_up_to, IsUtf8, nil, char}
use rust_playground.Worker.Utf8.Prefix.{char_len_bounds, char_len-append, char_len_within}

-- Nothing more can be taken off.
left_within :
    (fuel : ℕ) (bs : List ℕ)
    → length bs ≤ fuel
    → char_len (drop (valid_up_to_within fuel bs) bs) ≡ none
unfolding valid_up_to_within
left_within zero [] h = unfold char_len in refl
left_within zero (b ∷ bs) h = absurd (omega arith)
left_within (suc fuel) bs h = elim (Option-cases (char_len bs)) [
  | inl e ↦ rw (e, valid_up_to_within) e
  | inr (k, e) ↦
      rw (e, valid_up_to_within)
        (rw (drop-drop k (valid_up_to_within fuel (drop k bs)) bs)
          (left_within fuel (drop k bs) (omega (arith, char_len_bounds bs k e, length-drop k bs))))
]

within_le : (fuel : ℕ) (bs : List ℕ) → valid_up_to_within fuel bs ≤ length bs
unfolding valid_up_to_within
within_le zero bs = omega arith
within_le (suc fuel) bs = elim (Option-cases (char_len bs)) [
  | inl e ↦ rw (e, valid_up_to_within) (omega arith)
  | inr (k, e) ↦
      rw (e, valid_up_to_within)
        (omega (arith, char_len_bounds bs k e, length-drop k bs, within_le fuel (drop k bs)))
]

-- What is valid stays so when its first character is taken off.
IsUtf8-drop : (bs : List ℕ) (k : ℕ) → char_len bs ≡ some k → IsUtf8 bs → IsUtf8 (drop k bs)
unfolding char_len
IsUtf8-drop [] k e nil = cc
IsUtf8-drop bs k e (char j f rest) =
    subst (λ n. IsUtf8 (drop n bs)) (some-injective (sym f ∙ e)) rest

-- A valid stream stays valid when the valid part of its beginning is taken off.
rest_within :
    (fuel : ℕ) (bs more : List ℕ)
    → IsUtf8 (bs ++ more)
    → IsUtf8 (drop (valid_up_to_within fuel bs) bs ++ more)
unfolding valid_up_to_within
rest_within zero bs more h = h
rest_within (suc fuel) bs more h = elim (Option-cases (char_len bs)) [
  | inl e ↦ rw (e, valid_up_to_within) h
  | inr (k, e) ↦
      rw (e, valid_up_to_within)
        (rw (drop-drop k (valid_up_to_within fuel (drop k bs)) bs) (
          rest_within fuel (drop k bs) more (
            subst IsUtf8 (drop-append_le k bs more (char_len_bounds bs k e).2)
              (IsUtf8-drop (bs ++ more) k (char_len-append bs more k e) h))))
]

room :
    (fuel : ℕ) (bs : List ℕ) (k : ℕ)
    → char_len bs ≡ some k
    → k ≤ length (take (k + valid_up_to_within fuel (drop k bs)) bs)
room fuel bs k e = omega (
  arith,
  char_len_bounds bs k e,
  within_le fuel (drop k bs),
  length-drop k bs,
  length-take_le (k + valid_up_to_within fuel (drop k bs)) bs,
)

-- The part that is taken off is whole characters.
taken_within : (fuel : ℕ) (bs : List ℕ) → IsUtf8 (take (valid_up_to_within fuel bs) bs)
unfolding valid_up_to_within
taken_within zero bs = nil
taken_within (suc fuel) bs = elim (Option-cases (char_len bs)) [
  | inl e ↦ rw (e, valid_up_to_within) nil
  | inr (k, e) ↦
      rw (e, valid_up_to_within)
        (let n = valid_up_to_within fuel (drop k bs) in
          char k
            (char_len_within (take (k + n) bs) (drop (k + n) bs) k
              (rw (take-append-drop (k + n) bs) e) (room fuel bs k e))
            (rw (take-add k n bs) (taken_within fuel (drop k bs))))
]

module _ (bs : List ℕ) where
  pub valid_up_to-le : valid_up_to bs ≤ length bs
  unfolding valid_up_to
  valid_up_to-le = within_le (length bs) bs

  pub left_of_valid : char_len (drop (valid_up_to bs) bs) ≡ none
  unfolding valid_up_to
  left_of_valid = left_within (length bs) bs (omega arith)

  pub taken_of_valid : IsUtf8 (take (valid_up_to bs) bs)
  unfolding valid_up_to
  taken_of_valid = taken_within (length bs) bs

  pub rest_of_valid :
      (more : List ℕ) → IsUtf8 (bs ++ more) → IsUtf8 (drop (valid_up_to bs) bs ++ more)
  unfolding valid_up_to
  rest_of_valid more = rest_within (length bs) bs more

-- What is left of a valid stream is less than a character.
pub left_short : (bs more : List ℕ) → char_len bs ≡ none → IsUtf8 (bs ++ more) → length bs < 4
left_short [] more e h = omega arith
left_short (b ∷ bs) more e (char k f rest) = elim (Bool-cases (leb k (length (b ∷ bs)))) [
  | inl le ↦ absurd (none≢some (sym e ∙ char_len_within (b ∷ bs) more k f (leb→le _ _ le)))
  | inr gt ↦ omega (arith, leb→lt _ _ gt, char_len_bounds ((b ∷ bs) ++ more) k f)
]

-- Nothing is left of a whole valid stream.
pub left_none : (bs : List ℕ) → char_len bs ≡ none → IsUtf8 bs → bs ≡ []
left_none [] e h = refl
left_none (b ∷ bs) e (char k f rest) = absurd (none≢some (sym e ∙ f))
