-- ===== src/Worker/Reader/Progress.antt =====
-- What `next` returns on an input of whole characters, however it is split into reads.
use rust_playground.Base.{
  ℕ, ◌<◌, ◌≡◌, refl, sym, subst, ap, ◌∙◌, inl, inr, none, some, List, [], ◌∷◌, ◌++◌, arith,
  append-nil, append_assoc, Bool-cases, ◌==◌, ==→eq, length, take, drop, take-append-drop,
  length-take_le, ok,
}
use rust_playground.Worker.Utf8.{char_len, valid_up_to, IsUtf8}
use rust_playground.Worker.Utf8.Stream.{
  valid_up_to-le, left_of_valid, taken_of_valid, rest_of_valid, left_short, left_none,
}
use rust_playground.Worker.Reader.{
  Read, bytes, failed, Next, returns, again, round, Reader, next_from, next,
}

-- All bytes that are still to be read.
abbrev pub stream : List Read → List ℕ
stream [] = []
stream (bytes chunk ∷ rest) = chunk ++ stream rest
stream (failed e ∷ rest) = stream rest

-- No read fails, and only the end of the input answers no bytes.
abbrev pub IsClean : List Read → Type 0
IsClean [] = Unit {0}
IsClean (bytes chunk ∷ rest) = (0 < length chunk) × IsClean rest
IsClean (failed e ∷ rest) = ⊥

-- What waits in the buffer is less than a character, and with what comes it is whole characters.
pub record IsReady (incomplete : List ℕ) (reads : List Read) : Type 0 where
  pub partial : char_len incomplete ≡ none
  pub whole : IsUtf8 (incomplete ++ stream reads)
  pub clean : IsClean reads

-- A good answer: the end when nothing is left, or whole characters, at least one, that the input
-- begins with.
pub data Answers (all : List ℕ) : Next → Reader → Type 0 where
  ended : {r : Reader} → all ≡ [] → Answers all (ok none) r
  packet :
      {r : Reader} (s : List ℕ)
      → 0 < length s
      → IsUtf8 s
      → all ≡ s ++ (r.incomplete ++ stream r.reads)
      → IsReady r.incomplete r.reads
      → Answers all (ok (some s)) r

-- A round that finds no character goes round again with what it has.
round_again :
    (incomplete chunk : List ℕ)
    → 0 < length chunk
    → length (incomplete ++ chunk) < 4
    → valid_up_to (incomplete ++ chunk) ≡ 0
    → round incomplete chunk ≡ again (incomplete ++ chunk)
unfolding round
round_again incomplete chunk h short none_valid = ground arith

-- A round that finds characters returns them.
round_returns :
    (incomplete chunk : List ℕ)
    → 0 < length chunk
    → 0 < valid_up_to (incomplete ++ chunk)
    → let n = valid_up_to (incomplete ++ chunk) in
      round incomplete chunk
      ≡ returns (ok (some (take n (incomplete ++ chunk)))) (drop n (incomplete ++ chunk))
unfolding round
round_returns incomplete chunk h some_valid = ground arith

module _ (incomplete chunk : List ℕ) (rest : List Read)
    (ready : IsReady incomplete (bytes chunk ∷ rest)) where
  whole_after : IsUtf8 ((incomplete ++ chunk) ++ stream rest)
  whole_after = subst IsUtf8 (sym (append_assoc incomplete chunk (stream rest))) ready.whole

  IsReady-after : IsReady (drop (valid_up_to (incomplete ++ chunk)) (incomplete ++ chunk)) rest
  IsReady-after = record {
    partial = left_of_valid (incomplete ++ chunk);
    whole = rest_of_valid (incomplete ++ chunk) (stream rest) whole_after;
    clean = ready.clean.1;
  }

  short_after : valid_up_to (incomplete ++ chunk) ≡ 0 → length (incomplete ++ chunk) < 4
  short_after e =
      left_short (incomplete ++ chunk) (stream rest)
        (subst (λ n. char_len (drop n (incomplete ++ chunk)) ≡ none) e
          (left_of_valid (incomplete ++ chunk)))
        whole_after

  split_after :
      let n = valid_up_to (incomplete ++ chunk) in
      incomplete ++ (chunk ++ stream rest)
      ≡ take n (incomplete ++ chunk) ++ (drop n (incomplete ++ chunk) ++ stream rest)
  split_after =
      let n = valid_up_to (incomplete ++ chunk) in
      sym (append_assoc incomplete chunk (stream rest))
      ∙ ap (λ l. l ++ stream rest) (sym (take-append-drop n (incomplete ++ chunk)))
      ∙ append_assoc (take n (incomplete ++ chunk)) (drop n (incomplete ++ chunk)) (stream rest)

  IsReady-again : valid_up_to (incomplete ++ chunk) ≡ 0 → IsReady (incomplete ++ chunk) rest
  IsReady-again e = record {
    partial =
        subst (λ n. char_len (drop n (incomplete ++ chunk)) ≡ none) e
          (left_of_valid (incomplete ++ chunk));
    whole = whole_after;
    clean = ready.clean.1;
  }

-- At the end of whole characters nothing waits in the buffer.
end-Answers :
    (incomplete : List ℕ)
    → incomplete ≡ []
    → let (v, r) = next_from incomplete [] in Answers (incomplete ++ []) v r
unfolding next_from round
end-Answers [] e = ended refl
end-Answers (b ∷ bs) e = cc

next_from-Answers :
    (incomplete : List ℕ) (reads : List Read)
    → IsReady incomplete reads
    → let (v, r) = next_from incomplete reads in Answers (incomplete ++ stream reads) v r
unfolding next_from
next_from-Answers incomplete [] ready =
    end-Answers incomplete
      (left_none incomplete ready.partial (subst IsUtf8 (append-nil incomplete) ready.whole))
next_from-Answers incomplete (failed e ∷ rest) ready = absurd ready.clean
next_from-Answers incomplete (bytes chunk ∷ rest) ready =
    let n = valid_up_to (incomplete ++ chunk) in
    elim (Bool-cases (n == 0)) [
      | inl e ↦
          let none_valid : n ≡ 0 = ==→eq n 0 e in
          rw
            (
              round_again incomplete chunk ready.clean.0
                  (short_after incomplete chunk rest ready none_valid) none_valid,
              next_from,
            )
            (subst
              (λ l.
                Answers l (next_from (incomplete ++ chunk) rest).0
                  (next_from (incomplete ++ chunk) rest).1)
              (append_assoc incomplete chunk (stream rest))
              (next_from-Answers (incomplete ++ chunk) rest
                (IsReady-again incomplete chunk rest ready none_valid)))
      | inr e ↦
          let some_valid : 0 < n = ground (arith) in
          rw (round_returns incomplete chunk ready.clean.0 some_valid, next_from)
            (packet (take n (incomplete ++ chunk))
              (omega (
                arith,
                some_valid,
                length-take_le n (incomplete ++ chunk),
                valid_up_to-le (incomplete ++ chunk),
              ))
              (taken_of_valid (incomplete ++ chunk)) (split_after incomplete chunk rest ready)
              (IsReady-after incomplete chunk rest ready))
    ]

-- On an input of whole characters, however it is split into reads, `next` never fails: it returns
-- the next whole characters, at least one, and stays ready for the rest of the input, or it
-- reports the end when the whole input has been returned.
pub next-Answers :
    (r : Reader)
    → IsReady r.incomplete r.reads
    → Answers (r.incomplete ++ stream r.reads) (next r).0 (next r).1
unfolding next
next-Answers r ready = next_from-Answers r.incomplete r.reads ready
