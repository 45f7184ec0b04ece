-- ===== src/Worker/Reader.antt =====
-- `Utf8BufReader` of compiler/base/orchestrator/src/worker.rs. The bytes of `buffer` below
-- `n_incomplete` are a list, and what `read` will answer is a list of reads: after the last it has
-- come to the end and answers no bytes.
pub mod Progress
pub mod Sizes
use rust_playground.Base.{
  ℕ, String, ◌≡◌, Bool, ◌&&◌, Option, none, some, List, [], ◌∷◌, ◌++◌, leb, ◌==◌, if◌then◌else◌,
  length, take, drop, Result, ok, err,
}
use rust_playground.Worker.Utf8.{valid_up_to}

pub data Read : Type 0 where
  bytes : List ℕ → Read
  failed : String → Read

pub data Utf8BufReaderError : Type 0 where
  reader : String → Utf8BufReaderError
  ran_out_of_input invalid_utf8 : Utf8BufReaderError

-- Why `next` gives no answer: it fails, or its loop goes round for ever.
pub data Failure : Type 0 where
  fails : Utf8BufReaderError → Failure
  never_returns : Failure

abbrev pub Next : Type 0
Next = Result (Option (List ℕ)) Failure

-- One round of the loop: it returns and leaves bytes in the buffer, or goes round again.
pub data Round : Type 0 where
  returns : Next → List ℕ → Round
  again : List ℕ → Round

-- The round after `read` has answered `chunk`.
unfoldable pub round : List ℕ → List ℕ → Round
round incomplete chunk =
    let n_read = length chunk in
    let buffer = incomplete ++ chunk in
    let n_valid = length buffer in
    let valid_utf_8_bytes = valid_up_to buffer in
    if n_read == 0 && length incomplete == 0
    then returns (ok none) incomplete
    else if valid_utf_8_bytes == 0 && leb 4 n_valid
    then returns (err (fails invalid_utf8)) incomplete
    else if valid_utf_8_bytes == 0 && n_read == 0
    then returns (err (fails ran_out_of_input)) incomplete
    else if valid_utf_8_bytes == 0
    then again buffer
    else returns (ok (some (take valid_utf_8_bytes buffer))) (drop valid_utf_8_bytes buffer)

pub record Reader : Type 0 where
  pub incomplete : List ℕ
  pub reads : List Read

abbrev pub finish : Round → List Read → Next × Reader
finish (returns v left) reads = (v, record { incomplete = left; reads = reads })
finish (again left) reads = (err never_returns, record { incomplete = left; reads = reads })

-- `Utf8BufReader::next`. At the end of the input each round reads no bytes: one that goes round
-- again does so for ever.
unfoldable pub next_from : List ℕ → List Read → Next × Reader
next_from incomplete [] = finish (round incomplete []) []
next_from incomplete (failed e ∷ rest) =
    (err (fails (reader e)), record { incomplete = incomplete; reads = rest })
next_from incomplete (bytes chunk ∷ rest) = elim (round incomplete chunk) [
  | returns v left ↦ (v, record { incomplete = left; reads = rest })
  | again left ↦ next_from left rest
]

unfoldable pub next : Reader → Next × Reader
unfolding next_from
next r = next_from r.incomplete r.reads

-- `Utf8BufReader::new`
unfoldable pub new : List Read → Reader
new reads = record { incomplete = []; reads = reads }
