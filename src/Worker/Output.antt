-- ===== src/Worker/Output.antt =====
-- `copy_child_output` of compiler/base/orchestrator/src/worker.rs. `accepts` tells, for the
-- packets in order, whether the channel to the coordinator still takes them. What the child writes
-- is a list of reads, of any length.
pub mod Limit
pub mod Complete
use Prim.Native.Nat.{min}
use rust_playground.Base.{
  ℕ, zero, suc, ◌+◌, ◌*◌, ◌-◌, ◌^◌, String, ◌≡◌, Bool, Option, none, some, List, [], ◌∷◌, ◌++◌, leb,
  if◌then◌else◌, length, Result, ok, err,
}
use rust_playground.Worker.Reader.{
  Read, Utf8BufReaderError, fails, never_returns, Next, Reader, next, new,
}

abbrev pub output_byte_limit : ℕ
output_byte_limit = 640 * 1024

pub data CopyChildOutputError : Type 0 where
  unable_to_read : Utf8BufReaderError → CopyChildOutputError
  unable_to_send : CopyChildOutputError
  too_many_bytes : ℕ → CopyChildOutputError

-- The packets that were sent, and how the copying ended.
pub record Copied : Type 0 where
  pub packets : List (List ℕ)
  pub result : Result (Unit {0}) CopyChildOutputError

-- `usize::saturating_add`, on a 64-bit target.
unfoldable pub saturating_add : ℕ → ℕ → ℕ
saturating_add a b = min (a + b) (2 ^ 64 - 1)

-- One round: it ends the copying, goes on with a new total after a packet, or waits for ever for
-- `next`.
pub data Round : Type 0 where
  ends : Copied → Round
  goes_on : List ℕ → ℕ → Round
  never_ends : Round

unfoldable pub round : Bool → ℕ → Next → Round
unfolding saturating_add
round accepted n_total (err (fails e)) =
    ends (record { packets = []; result = err (unable_to_read e) })
round accepted n_total (err never_returns) = never_ends
round accepted n_total (ok none) = ends (record { packets = []; result = ok tt })
round accepted n_total (ok (some buffer)) =
    let n = saturating_add n_total (length buffer) in
    if accepted
    then (if leb n output_byte_limit
        then goes_on buffer n
        else ends (record { packets = buffer ∷ []; result = err (too_many_bytes n) }))
    else ends (record { packets = []; result = err unable_to_send })

abbrev add_packet : List ℕ → Option Copied → Option Copied
add_packet p none = none
add_packet p (some c) = some (record c { packets = p ∷ c.packets })

module _ (accepts : ℕ → Bool) where
  -- The loop, on fuel: `k` packets have been sent, with `n_total` bytes.
  unfoldable pub copy_from : ℕ → ℕ → ℕ → Reader → Option Copied
  unfolding round
  copy_from zero k n_total r = none
  copy_from (suc fuel) k n_total r =
      let (v, r') = next r in
      elim (round (accepts k) n_total v) [
        | ends c ↦ some c
        | goes_on p n ↦ add_packet p (copy_from fuel (suc k) n r')
        | never_ends ↦ none
      ]

  unfoldable pub copy_child_output : ℕ → List Read → Option Copied
  unfolding copy_from new
  copy_child_output fuel output = copy_from fuel 0 0 (new output)
