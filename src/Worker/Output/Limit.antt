-- ===== src/Worker/Output/Limit.antt =====
-- The limit on output: whatever the child writes, what is sent stays within it but for the packet
-- that passes it.
use Prim.Native.Nat.{min}
use rust_playground.Base.{
  some-injective, ℕ, zero, suc, ◌+◌, ◌-◌, ◌^◌, ◌≤◌, ◌<◌, ◌≡◌, ◌≢◌, refl, sym, subst, inl, inr, Bool,
  true, false, Option, none, some, List, [], ◌∷◌, arith, leb, leb→le, leb→lt, Bool-cases, length,
  Result, ok, err,
}
use rust_playground.Worker.Reader.{Read, fails, never_returns, Next, Reader, next, new}
use rust_playground.Worker.Output.{
  output_byte_limit, CopyChildOutputError, too_many_bytes, Copied, saturating_add, Round, ends,
  goes_on, never_ends, round, add_packet, copy_from, copy_child_output,
}

abbrev pub total : List (List ℕ) → ℕ
total [] = 0
total (p ∷ ps) = length p + total ps

abbrev pub but_last : List (List ℕ) → List (List ℕ)
but_last [] = []
but_last (p ∷ []) = []
but_last (p ∷ q ∷ ps) = p ∷ but_last (q ∷ ps)

-- Copying that began with `n` bytes sent kept to the limit.
pub record IsWithin (n : ℕ) (c : Copied) : Type 0 where
  pub all_but_last : n + total (but_last c.packets) ≤ output_byte_limit
  pub finished : c.result ≡ ok tt → n + total c.packets ≤ output_byte_limit
  pub reported :
      (m : ℕ)
      → c.result ≡ err (too_many_bytes m)
      → (output_byte_limit < m) × (m ≤ n + total c.packets)

-- What one round contributes to that.
abbrev RoundIsWithin : ℕ → Round → Type 0
RoundIsWithin n (ends c) = IsWithin n c
RoundIsWithin n (goes_on p m) = (m ≡ n + length p) × (m ≤ output_byte_limit)
RoundIsWithin n never_ends = Unit {0}

IsWithin-stopped :
    (n : ℕ) {c : Copied}
    → n ≤ output_byte_limit
    → c.packets ≡ []
    → ((m : ℕ) → c.result ≢ err (too_many_bytes m))
    → IsWithin n c
IsWithin-stopped n {c} h none_sent other = record {
  all_but_last = rw none_sent (omega arith);
  finished = λ _. rw none_sent (omega arith);
  reported = λ m e. absurd (other m e);
}

too_many-injective :
    {a b : ℕ}
    → ◌≡◌ {A = Result (Unit {0}) CopyChildOutputError}
        (err (too_many_bytes a))
        (err (too_many_bytes b))
    → a ≡ b
too_many-injective h = cc

round-RoundIsWithin :
    (accepted : Bool) (n : ℕ) (v : Next)
    → n ≤ output_byte_limit
    → RoundIsWithin n (round accepted n v)
unfolding round saturating_add
round-RoundIsWithin accepted n (err never_returns) h = tt
round-RoundIsWithin accepted n (err (fails e)) h = IsWithin-stopped n h refl (λ m q. cc)
round-RoundIsWithin accepted n (ok none) h = IsWithin-stopped n h refl (λ m q. cc)
round-RoundIsWithin false n (ok (some b)) h = IsWithin-stopped n h refl (λ m q. cc)
round-RoundIsWithin true n (ok (some b)) h =
    elim (Bool-cases (leb (min (n + length b) (2 ^ 64 - 1)) output_byte_limit)) [
      | inl e ↦ rw e (omega (arith, leb→le _ _ e), leb→le _ _ e)
      | inr e ↦ rw e (record {
        all_but_last = omega arith;
        finished = λ q. cc;
        reported = λ m q.
            let same = too_many-injective q in
            (omega (arith, same, leb→lt _ _ e), omega (arith, same));
      })
    ]

but_last_cons :
    (n : ℕ) (p : List ℕ) (ps : List (List ℕ))
    → n + length p ≤ output_byte_limit
    → n + length p + total (but_last ps) ≤ output_byte_limit
    → n + total (but_last (p ∷ ps)) ≤ output_byte_limit
but_last_cons n p [] h w = omega arith
but_last_cons n p (q ∷ ps) h w = omega arith

-- A packet in front of copying that kept to the limit with it.
add_packet-IsWithin :
    (n : ℕ) (p : List ℕ) (c : Copied)
    → n + length p ≤ output_byte_limit
    → IsWithin (n + length p) c
    → IsWithin n (record c { packets = p ∷ c.packets })
add_packet-IsWithin n p c h w = record {
  all_but_last = but_last_cons n p c.packets h w.all_but_last;
  finished = λ e. omega (arith, w.finished e);
  reported = λ m e. let (a, b) = w.reported m e in (a, omega arith);
}

add_packet-some :
    (p : List ℕ) (o : Option Copied) (c : Copied)
    → add_packet p o ≡ some c
    → (d : Copied) × (o ≡ some d) × (c ≡ record d { packets = p ∷ d.packets })
add_packet-some p none c e = cc
add_packet-some p (some d) c e = (d, refl, some-injective (sym e))

-- What follows a round keeps to the limit when the round and what the loop does next keep to it.
after :
    {n : ℕ} {c : Copied} (rest : ℕ → Option Copied) (t : Round)
    → RoundIsWithin n t
    → ((m : ℕ) (d : Copied) → m ≤ output_byte_limit → rest m ≡ some d → IsWithin m d)
    → elim t as (λ _. Option Copied) [
      | ends d ↦ some d
      | goes_on p m ↦ add_packet p (rest m)
      | never_ends ↦ none
    ]
      ≡ some c
    → IsWithin n c
after {n} rest (ends d) w later e = subst (IsWithin n) (some-injective e) w
after rest never_ends w later e = cc
after {n} {c} rest (goes_on p m) w later e =
    let (d, ed, ec) = add_packet-some p (rest m) c e in
    let fits : n + length p ≤ output_byte_limit = omega arith in
    rw ec (add_packet-IsWithin n p d fits (subst (λ (t : ℕ). IsWithin t d) w.0 (later m d w.1 ed)))

copy_from-IsWithin :
    (accepts : ℕ → Bool) (fuel k n : ℕ) (r : Reader) (c : Copied)
    → n ≤ output_byte_limit
    → copy_from accepts fuel k n r ≡ some c
    → IsWithin n c
unfolding copy_from
copy_from-IsWithin accepts zero k n r c h e = cc
copy_from-IsWithin accepts (suc fuel) k n r c h e =
    after (λ m. copy_from accepts fuel (suc k) m (next r).1) (round (accepts k) n (next r).0)
      (round-RoundIsWithin (accepts k) n (next r).0 h)
      (λ m. copy_from-IsWithin accepts fuel (suc k) m (next r).1) e

-- Whatever the child writes, and whether or not the coordinator goes on listening: all packets but
-- the last are within the limit, copying that succeeds has sent no more than the limit, and
-- copying that stops for too many bytes reports a number above the limit and no larger than what
-- was sent.
pub copy_child_output-IsWithin :
    (accepts : ℕ → Bool) (fuel : ℕ) (output : List Read) (c : Copied)
    → copy_child_output accepts fuel output ≡ some c
    → IsWithin 0 c
unfolding copy_child_output
copy_child_output-IsWithin accepts fuel output c e =
    copy_from-IsWithin accepts fuel 0 0 (new output) c (omega arith) e
