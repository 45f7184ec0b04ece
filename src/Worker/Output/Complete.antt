-- ===== src/Worker/Output/Complete.antt =====
-- That copying ends, and that output within the limit is sent whole.
use Prim.Native.Nat.{min}
use rust_playground.Base.{
  leb, leb→le, Bool-cases, inl, inr, ◌≢◌, ◌^◌, ◌-◌, false, ℕ, zero, suc, ◌+◌, ◌≤◌, ◌<◌, ◌≡◌, refl,
  sym, Bool, true, Option, none, some, List, [], ◌∷◌, ◌++◌, arith, length, length-append, ok, err,
  All,
}
use rust_playground.Worker.Utf8.{char_len, IsUtf8}
use rust_playground.Worker.Reader.{Read, fails, never_returns, Next, Reader, next, new}
use rust_playground.Worker.Reader.Progress.{
  stream, IsClean, IsReady, Answers, ended, packet, next-Answers,
}
use rust_playground.Worker.Reader.Sizes.{size, Shrinks, next_from-Shrinks}
use rust_playground.Worker.Output.{
  output_byte_limit, Copied, saturating_add, Round, ends, goes_on, never_ends, round, add_packet,
  copy_from, copy_child_output,
}

abbrev pub flatten : List (List ℕ) → List ℕ
flatten [] = []
flatten (p ∷ ps) = p ++ flatten ps

add_packet-total :
    (p : List ℕ) (o : Option Copied) (c : Copied)
    → o ≡ some c
    → add_packet p o ≡ some (record c { packets = p ∷ c.packets })
add_packet-total p o c e = rw e refl

after_round :
    (rest : List ℕ → ℕ → Option Copied) (t : Round)
    → t ≢ never_ends
    → ((p : List ℕ) (m : ℕ) → t ≡ goes_on p m → (c : Copied) × (rest p m ≡ some c))
    → (c : Copied) × (elim t as (λ _. Option Copied) [
      | ends d ↦ some d
      | goes_on p m ↦ add_packet p (rest p m)
      | never_ends ↦ none
    ]
        ≡ some c)
after_round rest (ends d) ends_ever later = (d, refl)
after_round rest (goes_on p m) ends_ever later =
    let (c, e) = later p m refl in (_, add_packet-total p (rest p m) c e)
after_round rest never_ends ends_ever later = absurd (ends_ever refl)

round-ends :
    (accepted : Bool) (n : ℕ) (v : Next) (r : Reader) (s : ℕ)
    → Shrinks s v r
    → round accepted n v ≢ never_ends
unfolding round saturating_add
round-ends accepted n (err (fails e)) r s h q = cc
round-ends accepted n (err never_returns) r s h q = absurd h
round-ends accepted n (ok none) r s h q = cc
round-ends false n (ok (some b)) r s h q = cc
round-ends true n (ok (some b)) r s h q =
    elim (Bool-cases (leb (min (n + length b) (2 ^ 64 - 1)) output_byte_limit)) [
      | inl e ↦ let z = rw e at q in cc
      | inr e ↦ let z = rw e at q in cc
    ]

total_of : {p q : List ℕ} {m n : ℕ} → goes_on p m ≡ goes_on q n → m ≡ n
total_of h = cc

-- A round that goes on has sent more, and no more than the limit.
round-goes_on :
    (accepted : Bool) (n : ℕ) (v : Next) (r : Reader) (s : ℕ) (p : List ℕ) (m : ℕ)
    → n ≤ output_byte_limit
    → Shrinks s v r
    → round accepted n v ≡ goes_on p m
    → (n < m) × (m ≤ output_byte_limit)
unfolding round saturating_add
round-goes_on accepted n (err (fails e)) r s p m l h q = cc
round-goes_on accepted n (err never_returns) r s p m l h q = absurd h
round-goes_on accepted n (ok none) r s p m l h q = cc
round-goes_on false n (ok (some b)) r s p m l h q = cc
round-goes_on true n (ok (some b)) r s p m l h q =
    elim (Bool-cases (leb (min (n + length b) (2 ^ 64 - 1)) output_byte_limit)) [
      | inl e ↦
          let same = total_of (rw e at q) in
          let fits = leb→le _ _ e in
          let more = h.0 in (omega (arith, same, fits, more), omega (arith, same, fits))
      | inr e ↦ absurd (let z = rw e at q in cc)
    ]

copy_from-total :
    (accepts : ℕ → Bool) (fuel k n : ℕ) (r : Reader)
    → n ≤ output_byte_limit
    → output_byte_limit < n + fuel
    → (c : Copied) × (copy_from accepts fuel k n r ≡ some c)
unfolding copy_from next
copy_from-total accepts zero k n r l h = absurd (omega arith)
copy_from-total accepts (suc fuel) k n r l h =
    let s = next_from-Shrinks r.incomplete r.reads in
    after_round (λ p m. copy_from accepts fuel (suc k) m (next r).1)
      (round (accepts k) n (next r).0) (round-ends (accepts k) n (next r).0 (next r).1 (size r) s)
      (λ p m e.
        let (more, fits) = round-goes_on (accepts k) n (next r).0 (next r).1 (size r) p m l s e in
        copy_from-total accepts fuel (suc k) m (next r).1 fits (omega arith))

-- Copying comes to an end, whatever the child writes and however much, and whatever the coordinator
-- accepts: each call of `next` returns, and one round more than the limit has bytes is always
-- enough.
pub copy_child_output-total :
    (accepts : ℕ → Bool) (fuel : ℕ) (output : List Read)
    → output_byte_limit < fuel
    → (c : Copied) × (copy_child_output accepts fuel output ≡ some c)
unfolding copy_child_output
copy_child_output-total accepts fuel output h =
    copy_from-total accepts fuel 0 0 (new output) (omega arith) (omega arith)

-- Copying that ended well, with all of the input sent as packets of whole characters.
pub record IsWhole (all : List ℕ) (c : Copied) : Type 0 where
  pub finished : c.result ≡ ok tt
  pub content : flatten c.packets ≡ all
  pub characters : All IsUtf8 c.packets

-- A packet within the limit lets the copying go on.
round_accepts :
    (n : ℕ) (s : List ℕ)
    → n + length s ≤ output_byte_limit
    → round true n (ok (some s)) ≡ goes_on s (n + length s)
unfolding round saturating_add
round_accepts n s h = ground arith

add_packet-IsWhole :
    (p all : List ℕ) (c : Copied)
    → IsUtf8 p
    → IsWhole all c
    → IsWhole (p ++ all) (record c { packets = p ∷ c.packets })
add_packet-IsWhole p all c h w = record {
  finished = w.finished;
  content = rw w.content refl;
  characters = (h, w.characters);
}

IsWhole-step :
    (all : List ℕ) (n : ℕ) (v : Next) (r : Reader) (rest : ℕ → Option Copied)
    → Answers all v r
    → n + length all ≤ output_byte_limit
    → ((m : ℕ)
        → IsReady r.incomplete r.reads
        → m + size r ≤ output_byte_limit
        → size r < length all
        → (c : Copied) × (rest m ≡ some c) × IsWhole (r.incomplete ++ stream r.reads) c)
    → (c : Copied) × (elim (round true n v) as (λ _. Option Copied) [
      | ends d ↦ some d
      | goes_on p m ↦ add_packet p (rest m)
      | never_ends ↦ none
    ]
        ≡ some c)
      × IsWhole all c
unfolding round
IsWhole-step all n v r rest (ended e) h later =
    (_, refl, record { finished = refl; content = sym e; characters = tt })
IsWhole-step all n v r rest (packet s pos chars e ready) h later =
    let lengths : length all ≡ length s + (length r.incomplete + length (stream r.reads)) = rw e (
      omega (
        arith,
        length-append s (r.incomplete ++ stream r.reads),
        length-append r.incomplete (stream r.reads),
      )) in
    let (c, ec, w) = later (n + length s) ready (omega arith) (omega arith) in
    (
      record c { packets = s ∷ c.packets },
      rw (round_accepts n s (omega arith)) (add_packet-total s (rest (n + length s)) c ec),
      rw e (add_packet-IsWhole s (r.incomplete ++ stream r.reads) c chars w),
    )

copy_from-IsWhole :
    (fuel k n : ℕ) (r : Reader)
    → IsReady r.incomplete r.reads
    → n + size r ≤ output_byte_limit
    → size r < fuel
    → (c : Copied) × (copy_from (λ _. true) fuel k n r ≡ some c)
      × IsWhole (r.incomplete ++ stream r.reads) c
unfolding copy_from
copy_from-IsWhole zero k n r ready h f = absurd (omega arith)
copy_from-IsWhole (suc fuel) k n r ready h f =
    let lengths = length-append r.incomplete (stream r.reads) in
    IsWhole-step (r.incomplete ++ stream r.reads) n (next r).0 (next r).1
      (λ m. copy_from (λ _. true) fuel (suc k) m (next r).1) (next-Answers r ready) (omega arith)
      (λ m later fits less. copy_from-IsWhole fuel (suc k) m (next r).1 later fits (omega arith))

-- When the child writes no more bytes than the limit, and they are whole characters however they
-- are split into reads, no read fails and the coordinator goes on listening, then copying ends well
-- and the packets, each of whole characters, are together just what the child wrote.
pub copy_child_output-IsWhole :
    (fuel : ℕ) (output : List Read)
    → IsClean output
    → IsUtf8 (stream output)
    → length (stream output) ≤ output_byte_limit
    → length (stream output) < fuel
    → (c : Copied) × (copy_child_output (λ _. true) fuel output ≡ some c)
      × IsWhole (stream output) c
unfolding copy_child_output new
copy_child_output-IsWhole fuel output clean whole h f =
    copy_from-IsWhole fuel 0 0 (new output)
      (record { partial = unfold char_len in refl; whole = whole; clean = clean }) (omega arith)
      (omega arith)
