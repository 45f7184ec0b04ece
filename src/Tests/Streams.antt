-- ===== src/Tests/Streams.antt =====
-- Output of a child process at concrete inputs: two characters, the second one split between reads.
use rust_playground.Base.{◌≡◌, refl, arith, true, false, some, List, [], ◌∷◌, ok}
use rust_playground.Worker.Utf8.{char_len, valid_up_to, IsUtf8, nil, char}
use rust_playground.Worker.Reader.{Read, bytes, Reader, round, next}
use rust_playground.Worker.Reader.Progress.{stream, IsClean, IsReady, Answers, next-Answers}
use rust_playground.Worker.Output.{Copied, copy_child_output}
use rust_playground.Worker.Output.Limit.{IsWithin, copy_child_output-IsWithin}
use rust_playground.Worker.Output.Complete.{
  IsWhole, copy_child_output-total, copy_child_output-IsWhole,
}

abbrev output : List Read
output = bytes (104 ∷ 195 ∷ []) ∷ bytes (169 ∷ []) ∷ []

output-IsUtf8 : IsUtf8 (104 ∷ 195 ∷ 169 ∷ [])
unfolding char_len
output-IsUtf8 = char 1 refl (char 2 refl nil)

output-IsClean : IsClean output
output-IsClean = (omega arith, (omega arith, tt))

beginning : Reader
beginning = record { incomplete = []; reads = output }

beginning-IsReady : IsReady [] output
beginning-IsReady = record {
  partial = unfold char_len in refl;
  whole = output-IsUtf8;
  clean = output-IsClean;
}

next-Answers_example :
    Answers
      (104 ∷ 195 ∷ 169 ∷ [])
      (next (record { incomplete = []; reads = output })).0
      (next (record { incomplete = []; reads = output })).1
next-Answers_example = next-Answers (record { incomplete = []; reads = output }) beginning-IsReady

copy_child_output-IsWhole_example :
    (c : Copied) × (copy_child_output (λ _. true) 10 output ≡ some c) × IsWhole (stream output) c
copy_child_output-IsWhole_example =
    copy_child_output-IsWhole 10 output output-IsClean output-IsUtf8 (omega arith) (omega arith)

copy_child_output-total_example :
    (c : Copied) × (copy_child_output (λ _. false) 655361 output ≡ some c)
copy_child_output-total_example = copy_child_output-total (λ _. false) 655361 output (omega arith)

abbrev copied : Copied
copied = record { packets = (104 ∷ []) ∷ (195 ∷ 169 ∷ []) ∷ []; result = ok tt }

copies : copy_child_output (λ _. true) 10 output ≡ some copied
unfolding copy_child_output next round valid_up_to
copies = refl

copy_child_output-IsWithin_example : IsWithin 0 copied
copy_child_output-IsWithin_example = copy_child_output-IsWithin (λ _. true) 10 output copied copies
