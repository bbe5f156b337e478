-- ===== src/Billing/Turns.antt =====
-- What the meter of `_bill_inbound` charges over many cycles of the poll, beside what the client used:
-- with traffic between the read and the reset of its counter, resets that fail, and bills that are
-- rolled back. The panel's counter grows with the traffic, and a reset zeroes it.
use abr_out.Prelude.{
  ℕ, ◌+◌, ◌≤◌, List, [], ◌∷◌, some, Bool, true, false, ◌≡◌, refl, ◌∙◌, arith, leb, All,
  if◌then◌else◌, Bool-cases, inl, inr,
}
use abr_out.Prelude.Rows.{first_row}
use abr_out.Prelude.Text.{Text}
use abr_out.Models.{Db, Config, Listing}
use abr_out.Outside.{ClientTraffic}
use abr_out.Quota.{used_bytes}
use abr_out.Billing.{Cycle, delta_since, next_anchor, has_email, bill_client}
use abr_out.Billing.Metering.{bill_client-meters, billable}

-- One cycle: the traffic before the read, that between the read and the reset, and whether the bill
-- was committed.
pub record Turn : Type 0 where
  pub cycle : Cycle
  pub bytes : ℕ
  pub late : ℕ
  pub written : Bool

abbrev pub reading : Text → ℕ → ClientTraffic
reading email n = record { email = email; up = n; down = 0 }

module _ (share : ℕ → ℕ → ℕ → ℕ) (l : Listing) (email : Text) where
  abbrev pub billed : Turn → ℕ → Db → Db
  billed t counter db =
      if t.written
      then (bill_client share t.cycle l (reading email (counter + t.bytes)) (db, false)).0
      else db

  -- The tables after the cycles, from the panel's counter.
  unfoldable pub turns_from : ℕ → List Turn → Db → Db
  turns_from counter [] db = db
  turns_from counter (t ∷ ts) db =
      let counter' = if t.cycle.reset_succeeded then 0 else counter + t.bytes + t.late in
      turns_from counter' ts (billed t counter db)

-- Less than half a MiB is forgiven.
abbrev pub charged : ℕ → ℕ
charged n = if leb 524_288 n then n else 0

-- The bytes to charge, where some are waiting from before: a bill is for all bytes since the last,
-- but a reset forgets what it did not bill, and those after the read with it.
abbrev pub due : ℕ → List Turn → ℕ
due waiting [] = 0
due waiting (t ∷ ts) =
    (if t.written then charged (waiting + t.bytes) else 0)
    + due
        (if t.cycle.reset_succeeded
          then 0
          else if t.written
          then t.late
          else waiting + t.bytes + t.late)
        ts

since_reset :
    (reset : Bool) (read late : ℕ)
    → (if reset then 0 else read + late)
      ≡ next_anchor reset (read + 0) + (if reset then 0 else late)
since_reset true read late = refl
since_reset false read late = omega arith

delta-waiting :
    (counter anchor waiting bytes : ℕ)
    → counter ≡ anchor + waiting
    → delta_since (counter + bytes + 0) anchor ≡ waiting + bytes
unfolding delta_since
delta-waiting counter anchor waiting bytes h = ground (arith, h)

-- A counter from which no reading bills more than what waits and the bytes that come.
abbrev IsCovered : ℕ → ℕ → ℕ → Type 0
IsCovered counter anchor waiting =
    (bytes : ℕ) → delta_since (counter + bytes) anchor ≤ waiting + bytes

ahead-IsCovered :
    (counter anchor waiting : ℕ) → counter ≡ anchor + waiting → IsCovered counter anchor waiting
unfolding delta_since
ahead-IsCovered counter anchor waiting h bytes = ground (arith, h)

reset-IsCovered : (anchor : ℕ) → IsCovered 0 anchor 0
unfolding delta_since
reset-IsCovered anchor bytes = ground arith

later-IsCovered :
    (counter anchor waiting more : ℕ)
    → IsCovered counter anchor waiting
    → IsCovered (counter + more) anchor (waiting + more)
later-IsCovered counter anchor waiting more h bytes =
    let e : counter + more + bytes ≡ counter + (more + bytes) = omega arith in
    rw e (omega (arith, h (more + bytes)))

skipped-IsCovered :
    (reset : Bool) (counter anchor waiting bytes late : ℕ)
    → IsCovered counter anchor waiting
    → IsCovered
        (if reset then 0 else counter + bytes + late)
        anchor
        (if reset then 0 else waiting + bytes + late)
skipped-IsCovered true counter anchor waiting bytes late h = reset-IsCovered anchor
skipped-IsCovered false counter anchor waiting bytes late h =
    later-IsCovered (counter + bytes) anchor (waiting + bytes) late
      (later-IsCovered counter anchor waiting bytes h)

charged_mono : (a b : ℕ) → a ≤ b → billable a ≤ charged b
charged_mono a b h = ground (arith, h)

module _ (share : ℕ → ℕ → ℕ → ℕ) (l : Listing) (email : Text) where
  -- If every bill is committed, the usage of a client's config grows over any number of cycles by the
  -- bytes of each stretch between two reads, less those between a read and a successful reset, and
  -- less a stretch under half a MiB, whichever resets fail. The client is known: an active config of
  -- the listing has its address; the panel's counter is past the anchor of that config by the bytes
  -- that wait.
  pub turns_from-meters :
      (turns : List Turn) (counter waiting : ℕ) (db : Db) {cfg : Config}
      → first_row (has_email l email) db.configs ≡ some cfg
      → counter ≡ cfg.last_snapshot_bytes + waiting
      → All (λ t. t.written ≡ true) turns
      → used_bytes (turns_from share l email counter turns db) cfg.id
        ≡ used_bytes db cfg.id + due waiting turns
  unfolding turns_from
  turns_from-meters [] counter waiting db known ahead committed = omega arith
  turns_from-meters (t ∷ ts) counter waiting db {cfg} known ahead committed =
      let read = counter + t.bytes in
      let (grown, found) = bill_client-meters share t.cycle l (reading email read) db false known in
      let db' = (bill_client share t.cycle l (reading email read) (db, false)).0 in
      let reset = t.cycle.reset_succeeded in
      let rest =
        turns_from-meters ts (if reset then 0 else read + t.late) (if reset then 0 else t.late) db'
          found (since_reset reset read t.late) committed.1 in
      let delta = delta-waiting counter cfg.last_snapshot_bytes waiting t.bytes ahead in
      rw committed.0 (rest ∙ rw grown (rw delta (omega arith)))

  turns_from-covered :
      (turns : List Turn) (counter waiting : ℕ) (db : Db) {cfg : Config}
      → first_row (has_email l email) db.configs ≡ some cfg
      → IsCovered counter cfg.last_snapshot_bytes waiting
      → used_bytes (turns_from share l email counter turns db) cfg.id
        ≤ used_bytes db cfg.id + due waiting turns
  unfolding turns_from
  turns_from-covered [] counter waiting db known covered = omega arith
  turns_from-covered (t ∷ ts) counter waiting db {cfg} known covered =
      let read = counter + t.bytes in
      let reset = t.cycle.reset_succeeded in
      elim (Bool-cases t.written) [
        | inl written ↦
            let (grown, found) =
              bill_client-meters share t.cycle l (reading email read) db false known in
            let db' = (bill_client share t.cycle l (reading email read) (db, false)).0 in
            let rest =
              turns_from-covered ts (if reset then 0 else read + t.late)
                (if reset then 0 else t.late) db' found
                (ahead-IsCovered _ (next_anchor reset (read + 0)) _
                  (since_reset reset read t.late)) in
            let whole : read + 0 ≡ read = omega arith in
            let fair : billable (delta_since (read + 0) cfg.last_snapshot_bytes)
                ≤ charged (waiting + t.bytes) =
              rw whole (charged_mono _ (waiting + t.bytes) (covered t.bytes)) in
            rw written (omega (arith, rest, grown, fair))
        | inr lost ↦
            let rest =
              turns_from-covered ts (if reset then 0 else read + t.late)
                (if reset then 0 else waiting + t.bytes + t.late) db known
                (skipped-IsCovered reset counter cfg.last_snapshot_bytes waiting t.bytes t.late
                  covered) in
            rw lost (omega (arith, rest))
      ]

  -- Whichever resets fail and whichever bills are rolled back, the usage of a client's config never
  -- grows by more than is due: for each bill that is committed, the bytes since the last one that
  -- was, less those that a reset forgot, and nothing for less than half a MiB. The client is known:
  -- an active config of the listing has its address; the panel's counter is past the anchor of that
  -- config by the bytes that wait.
  pub turns_from-charges_once :
      (turns : List Turn) (counter waiting : ℕ) (db : Db) {cfg : Config}
      → first_row (has_email l email) db.configs ≡ some cfg
      → counter ≡ cfg.last_snapshot_bytes + waiting
      → used_bytes (turns_from share l email counter turns db) cfg.id
        ≤ used_bytes db cfg.id + due waiting turns
  turns_from-charges_once turns counter waiting db {cfg} known ahead =
      turns_from-covered turns counter waiting db known
        (ahead-IsCovered counter cfg.last_snapshot_bytes waiting ahead)
