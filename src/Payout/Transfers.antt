-- ===== src/Payout/Transfers.antt =====
-- `list_recent_token_transfers` of app/common/payout/bsc.py: the walk back over the chain in chunks,
-- and the page that is made of what it finds. The node is a function of a range of blocks and of the
-- side of the transfer; an entry that cannot be parsed is left out of its answer. The pauses, the
-- times of blocks and log lines are left out. Hashes are numbers that stand for them.
pub mod Ended
use abr_out.Prelude.{
  ℕ, zero, suc, ◌+◌, ◌-◌, ◌*◌, ◌/◌, List, [], ◌∷◌, ◌++◌, Bool, true, false, ◌&&◌, ◌||◌, ◌==◌, ltb,
  leb, length, take, if◌then◌else◌,
}
use abr_out.Prelude.Int.{ℤ}
use abr_out.Prelude.Rows.{exists_row}
use abr_out.Prelude.Pages.{order_by}

-- An entry of `events`.
pub record Transfer : Type 0 where
  pub hash : ℕ
  pub log_index : ℕ
  pub block : ℕ
  pub from_address : ℕ
  pub to_address : ℕ
  pub amount : ℕ

-- The topics of the two queries.
pub data Side : Type 0 where
  outgoing incoming : Side

-- `get_logs`: the entries, an error that `_is_rate_limit` knows, or another error.
pub data Logs : Type 0 where
  found : List Transfer → Logs
  rate_limited failed : Logs

abbrev pub Node : Type 0
Node = ℕ → ℕ → Side → Logs

abbrev pub chunk : ℕ
chunk = 2_000

abbrev pub min_chunk : ℕ
min_chunk = 250

abbrev pub larger : ℕ → ℕ → ℕ
larger a b = if ltb a b then b else a

abbrev pub smaller : ℕ → ℕ → ℕ
smaller a b = if ltb b a then b else a

-- `budget`, and the number of events that is enough.
abbrev pub budget : ℕ → ℕ
budget lookback = larger chunk lookback

abbrev pub enough : ℕ → ℕ
enough limit = larger 1 limit * 2

abbrev pub second_answer : Logs → List Transfer
second_answer (found ts) = ts
second_answer _ = []

-- The attempts of one query; the second asks for the upper half only.
abbrev pub attempts : Node → ℕ → ℕ → Side → Logs → Bool × List Transfer
attempts node from to side (found ts) = (false, ts)
attempts node from to side rate_limited = (true, second_answer (node ((from + to) / 2 + 1) to side))
attempts node from to side failed = (false, [])

abbrev pub query : Node → ℕ → ℕ → Side → Bool × List Transfer
query node from to side = attempts node from to side (node from to side)

pub record Scan : Type 0 where
  pub cursor : ℕ
  pub scanned : ℕ
  pub chunk_size : ℕ
  pub events : List Transfer

-- `max(0, cursor - chunk_size + 1)`
abbrev pub chunk_from : Scan → ℕ
chunk_from s = s.cursor + 1 - s.chunk_size

abbrev pub next_chunk : Bool → ℕ → ℕ
next_chunk limited size =
    if limited
    then larger min_chunk (size / 2)
    else if ltb size chunk
    then smaller chunk (size * 2)
    else size

abbrev pub goes_on : ℕ → ℕ → Scan → Bool
goes_on lookback limit s =
    ltb 0 s.cursor && ltb s.scanned (budget lookback) && ltb (length s.events) (enough limit)

module _ (node : Node) where
  -- A round of the loop. The cursor stops at zero, where the loop ends as it does below zero.
  unfoldable pub round : Scan → Scan
  round s =
      let from = chunk_from s in
      let (limited_out, sent) = query node from s.cursor Side.outgoing in
      let (limited_in, received) = query node from s.cursor Side.incoming in
      record {
        cursor = from - 1;
        scanned = s.scanned + (s.cursor + 1 - from);
        chunk_size = next_chunk (limited_out || limited_in) s.chunk_size;
        events = s.events ++ (sent ++ received);
      }

  unfoldable pub scan : ℕ → ℕ → ℕ → Scan → Scan
  unfolding round
  scan zero lookback limit s = s
  scan (suc fuel) lookback limit s =
      let rest = scan fuel lookback limit (round s) in if goes_on lookback limit s then rest else s

-- The first of each pair of entries with one hash and index stays.
abbrev pub same_entry : Transfer → Transfer → Bool
same_entry a b = a.hash == b.hash && a.log_index == b.log_index

unfoldable pub unique_from : List Transfer → List Transfer → List Transfer
unfolding exists_row
unique_from seen [] = []
unique_from seen (e ∷ events) =
    let dropped = unique_from seen events in
    let kept = unique_from (e ∷ seen) events in
    if exists_row (same_entry e) seen then dropped else e ∷ kept

-- Newest first; a stable sort by block and index, both downwards.
abbrev pub newer : Transfer → Transfer → Bool
newer a b = ltb b.block a.block || (a.block == b.block && ltb b.log_index a.log_index)

-- `list_recent_token_transfers`, from the head of the chain.
unfoldable pub list_recent_token_transfers : Node → ℕ → ℕ → ℕ → List Transfer
unfolding scan unique_from order_by take
list_recent_token_transfers node head lookback limit =
    let s =
      scan node (suc head) lookback limit
        (record { cursor = head; scanned = 0; chunk_size = chunk; events = [] }) in
    take (larger 1 limit) (order_by newer (unique_from [] s.events))
