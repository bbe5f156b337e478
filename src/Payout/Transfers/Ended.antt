-- ===== src/Payout/Transfers/Ended.antt =====
-- The loop of `list_recent_token_transfers` of app/common/payout/bsc.py.
use abr_out.Prelude.{ℕ, zero, suc, ◌<◌, ◌≤◌, true, false, ◌≡◌, inl, inr, arith, Bool-cases}
use abr_out.Payout.Transfers.{Node, Scan, chunk, goes_on, round, scan}

-- The size of a chunk stays within its bounds, so that a round moves the cursor.
abbrev pub IsSized : Scan → Type 0
IsSized s = (1 ≤ s.chunk_size) × (s.chunk_size ≤ chunk)

round-IsSized : (node : Node) (s : Scan) → IsSized s → IsSized (round node s)
unfolding round
round-IsSized node s h = ground (arith, h)

round-cursor :
    (node : Node) (lookback limit : ℕ) (s : Scan)
    → IsSized s
    → goes_on lookback limit s ≡ true
    → (round node s).cursor < s.cursor
unfolding round
round-cursor node lookback limit s h on = ground (arith, h, on)

-- Whatever the node answers, the walk back over the chain comes to its end within as many rounds as
-- there are blocks: by then it has reached the first block, used up its budget or found enough, and
-- the size of its chunks has stayed between one and 2,000 blocks.
pub scan-ends :
    (node : Node) (fuel lookback limit : ℕ) (s : Scan)
    → IsSized s
    → s.cursor < fuel
    → (goes_on lookback limit (scan node fuel lookback limit s) ≡ false)
      × IsSized (scan node fuel lookback limit s)
unfolding scan
scan-ends node zero lookback limit s h small = absurd (omega arith)
scan-ends node (suc fuel) lookback limit s h small = elim (Bool-cases (goes_on lookback limit s)) [
  | inl on ↦ rw on (
      scan-ends node fuel lookback limit (round node s) (round-IsSized node s h)
        (omega (arith, round-cursor node lookback limit s h on)))
  | inr off ↦ rw off (off, h)
]
