-- ===== src/Worker/Reader/Sizes.antt =====
-- Each packet that `next` returns makes what is left to read smaller, whatever the input.
use rust_playground.Base.{
  ℕ, ◌+◌, ◌≤◌, ◌<◌, inl, inr, none, some, List, [], ◌∷◌, ◌++◌, ◌==◌, ◌&&◌, arith, leb, Bool-cases,
  length, length-append, length-drop, length-take_le, ok, err,
}
use rust_playground.Worker.Utf8.{valid_up_to}
use rust_playground.Worker.Utf8.Stream.{valid_up_to-le}
use rust_playground.Worker.Reader.{
  Read, bytes, failed, fails, never_returns, Next, Round, returns, again, round, finish, Reader,
  next_from,
}
use rust_playground.Worker.Reader.Progress.{stream}

abbrev pub size : Reader → ℕ
size r = length r.incomplete + length (stream r.reads)

-- There is an answer, and a packet has at least one byte and leaves less to be read.
abbrev pub Shrinks : ℕ → Next → Reader → Type 0
Shrinks n (ok none) r = Unit {0}
Shrinks n (ok (some s)) r = (0 < length s) × (size r < n)
Shrinks n (err (fails e)) r = Unit {0}
Shrinks n (err never_returns) r = ⊥

-- The same of a round that has read `k` bytes: only one that has read some goes round again.
abbrev RoundShrinks : ℕ → ℕ → Round → Type 0
RoundShrinks k n (returns (ok none) left) = Unit {0}
RoundShrinks k n (returns (ok (some s)) left) = (0 < length s) × (length left < n)
RoundShrinks k n (returns (err (fails e)) left) = Unit {0}
RoundShrinks k n (returns (err never_returns) left) = ⊥
RoundShrinks k n (again left) = (0 < k) × (length left ≤ n)

round-RoundShrinks :
    (incomplete chunk : List ℕ)
    → RoundShrinks (length chunk) (length incomplete + length chunk) (round incomplete chunk)
unfolding round
round-RoundShrinks incomplete chunk =
    let buffer = incomplete ++ chunk in
    let n = valid_up_to buffer in
    elim (Bool-cases (length chunk == 0 && length incomplete == 0)) [
      | inl e ↦ rw e tt
      | inr e ↦ elim (Bool-cases (n == 0)) [
        | inr f ↦
            let some_valid : 0 < n = ground arith in
            rw (e, f)
              (
                omega (arith, some_valid, length-take_le n buffer, valid_up_to-le buffer),
                omega (
                  arith,
                  some_valid,
                  length-drop n buffer,
                  length-append incomplete chunk,
                  valid_up_to-le buffer,
                ),
              )
        | inl f ↦ elim (Bool-cases (leb 4 (length buffer))) [
          | inl g ↦ rw (e, f, g) tt
          | inr g ↦ elim (Bool-cases (length chunk == 0)) [
            | inl h ↦ rw (e, f, g, h) tt
            | inr h ↦ rw (e, f, g, h) (ground arith, omega (arith, length-append incomplete chunk))
          ]
        ]
      ]
    ]

-- Reads that were skipped count as well.
Shrinks-mono : (m n : ℕ) (v : Next) (r : Reader) → m ≤ n → Shrinks m v r → Shrinks n v r
Shrinks-mono m n (ok none) r h s = tt
Shrinks-mono m n (ok (some b)) r h s = (s.0, omega arith)
Shrinks-mono m n (err (fails e)) r h s = tt
Shrinks-mono m n (err never_returns) r h s = s

returns-Shrinks :
    (k n : ℕ) (v : Next) (left : List ℕ) (reads : List Read)
    → RoundShrinks k n (returns v left)
    → Shrinks (n + length (stream reads)) v (record { incomplete = left; reads = reads })
returns-Shrinks k n (ok none) left reads s = tt
returns-Shrinks k n (ok (some b)) left reads s = (s.0, omega arith)
returns-Shrinks k n (err (fails e)) left reads s = tt
returns-Shrinks k n (err never_returns) left reads s = s

-- At the end of the input no round goes round again.
finish-Shrinks :
    (n : ℕ) (t : Round) (reads : List Read)
    → RoundShrinks 0 n t
    → Shrinks (n + length (stream reads)) (finish t reads).0 (finish t reads).1
finish-Shrinks n (returns v left) reads s = returns-Shrinks 0 n v left reads s
finish-Shrinks n (again left) reads s = absurd (let h = s.0 in omega arith)

step-Shrinks :
    (k n : ℕ) (t : Round) (rest : List Read)
    → RoundShrinks k n t
    → ((left : List ℕ)
        → let (v, r) = next_from left rest in Shrinks (length left + length (stream rest)) v r)
    → let (v, r) = elim t as (λ _. Next × Reader) [
      | returns v left ↦ (v, record { incomplete = left; reads = rest })
      | again left ↦ next_from left rest
    ] in
      Shrinks (n + length (stream rest)) v r
step-Shrinks k n (returns v left) rest s later = returns-Shrinks k n v left rest s
step-Shrinks k n (again left) rest s later =
    let le = s.1 in
    Shrinks-mono (length left + length (stream rest)) _ (next_from left rest).0
      (next_from left rest).1 (omega arith) (later left)

pub next_from-Shrinks :
    (incomplete : List ℕ) (reads : List Read)
    → let (v, r) = next_from incomplete reads in
      Shrinks (length incomplete + length (stream reads)) v r
unfolding next_from
next_from-Shrinks incomplete [] = Shrinks-mono (length incomplete + 0 + 0) _ _ _ (omega arith) (
    finish-Shrinks (length incomplete + 0) (round incomplete []) []
      (round-RoundShrinks incomplete []))
next_from-Shrinks incomplete (failed e ∷ rest) = tt
next_from-Shrinks incomplete (bytes chunk ∷ rest) =
    Shrinks-mono (length incomplete + length chunk + length (stream rest)) _ _ _
      (omega (arith, length-append chunk (stream rest)))
      (step-Shrinks (length chunk) _ (round incomplete chunk) rest
        (round-RoundShrinks incomplete chunk) (λ left. next_from-Shrinks left rest))
