-- ===== src/Pings/Refreshed.antt =====
-- What a run of the aggregation leaves in the listings.
use abr_out.Prelude.{ℕ, List, Option, ◌||◌, if◌then◌else◌}
use abr_out.Prelude.Int.{ℤ}
use abr_out.Prelude.Rows.{contains, exists_row}
use abr_out.Models.{Listing, PingSample}
use abr_out.Pings.{refresh}
use abr_out.Pings.Values.{answered, probed, mean, stability}

-- The outcome for one listing: it is rated, if it has a sample in one of the windows.
abbrev pub rated : ℕ → ℕ → List PingSample → Listing → Listing
rated hour window ss l =
    if exists_row (answered hour l.id) ss || exists_row (probed window l.id) ss
    then record l { avg_ping_ms = mean hour l.id ss; stability_pct = stability window l.id ss }
    else l

module _ (avgs : List (ℕ × Option ℤ)) (stabs : List (ℕ × Option ℕ)) where
  refreshed : List ℕ → Listing → Listing
  refreshed ids l = if contains l.id ids then refresh avgs stabs l.id l else l
