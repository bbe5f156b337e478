-- ===== src/Prober/Bookkeeping.antt =====
-- What a batch of samples makes of the timestamps of the listings.
use abr_out.Prelude.{
  ℕ, List, [], ◌∷◌, Option, Bool, true, ◌≡◌, ◌==◌, ==→eq, ◌&&◌, All, All-mono, refl, sym, ap, ◌∙◌,
  arith, map, map-map, map_same, map-congr, map-congr-All, ltb, get_or, if◌then◌else◌, Bool-cases,
  inl, inr,
}
use abr_out.Prelude.Rows.{select, update_rows, contains, exists_row}
use abr_out.Prelude.Keyed.{All-exists_row}
use abr_out.Prelude.Loops.{update_rows-map}
use abr_out.Models.{Db, Listing, PingSample}
use abr_out.Prober.{
  PingSampleIn, sample_row, note_latest, collect, greatest, probed_at, ok_at, write_latest,
  known_samples, store_samples, post_samples,
}

-- The greatest of a time and those noted for the key.
unfoldable pub covers : ℕ → List (ℕ × ℕ) → Option ℕ → Option ℕ
covers key [] t = t
covers key ((k, ts) ∷ d) t = covers key d (if key == k then greatest t ts else t)

abbrev probed_since : List (ℕ × ℕ) → Listing → Listing
probed_since d l = record l { last_probed_at = covers l.id d l.last_probed_at }

abbrev ok_since : List (ℕ × ℕ) → Listing → Listing
ok_since d l = record l { last_ok_ping_at = covers l.id d l.last_ok_ping_at }

write_latest-probed :
    (d : List (ℕ × ℕ)) (ls : List Listing) → write_latest probed_at d ls ≡ map (probed_since d) ls
unfolding write_latest covers
write_latest-probed [] ls = sym (map_same ls)
write_latest-probed ((k, ts) ∷ d) ls =
    write_latest-probed d (update_rows (λ l. l.id == k) (probed_at ts) ls)
    ∙ ap (map (probed_since d)) (update_rows-map (λ l. l.id) k (probed_at ts) ls)
    ∙ map-map (probed_since d) (λ l. if l.id == k then probed_at ts l else l) ls
    ∙ map-congr _ _ ls (λ l. ground arith)

write_latest-ok :
    (d : List (ℕ × ℕ)) (ls : List Listing) → write_latest ok_at d ls ≡ map (ok_since d) ls
unfolding write_latest covers
write_latest-ok [] ls = sym (map_same ls)
write_latest-ok ((k, ts) ∷ d) ls =
    write_latest-ok d (update_rows (λ l. l.id == k) (ok_at ts) ls)
    ∙ ap (map (ok_since d)) (update_rows-map (λ l. l.id) k (ok_at ts) ls)
    ∙ map-map (ok_since d) (λ l. if l.id == k then ok_at ts l else l) ls
    ∙ map-congr _ _ ls (λ l. ground arith)

greatest_comm : (t : Option ℕ) (a b : ℕ) → greatest (greatest t a) b ≡ greatest (greatest t b) a
greatest_comm t a b = ground arith

greatest-absorb :
    (t : Option ℕ) (a b : ℕ) → greatest t (if ltb a b then b else a) ≡ greatest (greatest t b) a
greatest-absorb t a b = ground arith

covers-greatest :
    (key : ℕ) (d : List (ℕ × ℕ)) (t : Option ℕ) (ts : ℕ)
    → covers key d (greatest t ts) ≡ greatest (covers key d t) ts
unfolding covers
covers-greatest key [] t ts = refl
covers-greatest key ((k, u) ∷ d) t ts = ground (
  arith,
  greatest_comm t ts u,
  covers-greatest key d t ts,
  covers-greatest key d (greatest t u) ts,
)

-- To note a time for a key in the dictionary is to raise what the key covers to it.
covers-note_latest :
    (key k ts : ℕ) (d : List (ℕ × ℕ)) (t : Option ℕ)
    → covers key (note_latest k ts d) t
      ≡ (if key == k then greatest (covers key d t) ts else covers key d t)
unfolding covers note_latest
covers-note_latest key k ts [] t = refl
covers-note_latest key k ts ((j, prev) ∷ d) t =
    let ih = covers-note_latest key k ts d in
    ground (
      arith,
      greatest-absorb t prev ts,
      greatest_comm t ts prev,
      ih t,
      ih (greatest t prev),
      covers-greatest key d (greatest t prev) ts,
    )

abbrev pub all_samples : PingSampleIn → Bool
all_samples s = true

abbrev pub ok_samples : PingSampleIn → Bool
ok_samples s = s.ok

-- The greatest of a time and those of the listing's samples that pass the test, one by one.
unfoldable pub heard : (PingSampleIn → Bool) → ℕ → ℕ → List PingSampleIn → Option ℕ → Option ℕ
heard test now key [] t = t
heard test now key (s ∷ ss) t =
    heard test now key ss
      (if test s && key == s.listing_id then greatest t (get_or s.sampled_at now) else t)

-- The batch as the listing sees it.
abbrev pub after_samples : ℕ → List PingSampleIn → Listing → Listing
after_samples now samples l = record l {
  last_probed_at = heard all_samples now l.id samples l.last_probed_at;
  last_ok_ping_at = heard ok_samples now l.id samples l.last_ok_ping_at;
}

module _ (now db_now key : ℕ) where
  collect-probed :
      (ss : List PingSampleIn) (rows : List PingSample) (p o : List (ℕ × ℕ)) (t : Option ℕ)
      → covers key (collect now db_now ss (rows, p, o)).1 t
        ≡ heard all_samples now key ss (covers key p t)
  unfolding collect heard
  collect-probed [] rows p o t = refl
  collect-probed (s ∷ ss) rows p o t =
      let ts = get_or s.sampled_at now in
      collect-probed ss (sample_row db_now s ∷ rows) (note_latest s.listing_id ts p)
        (if s.ok then note_latest s.listing_id ts o else o) t
      ∙ ap (heard all_samples now key ss) (covers-note_latest key s.listing_id ts p t)

  collect-ok :
      (ss : List PingSampleIn) (rows : List PingSample) (p o : List (ℕ × ℕ)) (t : Option ℕ)
      → covers key (collect now db_now ss (rows, p, o)).2 t
        ≡ heard ok_samples now key ss (covers key o t)
  unfolding collect heard
  collect-ok [] rows p o t = refl
  collect-ok (s ∷ ss) rows p o t =
      let ts = get_or s.sampled_at now in
      collect-ok ss (sample_row db_now s ∷ rows) (note_latest s.listing_id ts p)
        (if s.ok then note_latest s.listing_id ts o else o) t
      ∙ ap (heard ok_samples now key ss) (elim (Bool-cases s.ok) [
        | inl ok ↦ rw ok (covers-note_latest key s.listing_id ts o t)
        | inr bad ↦ rw bad refl
      ])

  -- The samples that a filter drops do not matter to a listing whose samples pass it.
  heard-select :
      (test p : PingSampleIn → Bool) (ss : List PingSampleIn) (t : Option ℕ)
      → All (λ s. (key == s.listing_id) ≡ true → p s ≡ true) ss
      → heard test now key (select p ss) t ≡ heard test now key ss t
  unfolding heard select
  heard-select test p [] t h = refl
  heard-select test p (s ∷ ss) t h = ground (
    arith,
    h.0,
    heard-select test p ss t h.1,
    heard-select test p ss (greatest t (get_or s.sampled_at now)) h.1,
  )

pub contains-known :
    (k : ℕ) (cs : List ℕ) (ls : List Listing)
    → contains k (map (λ l. l.id) (select (λ l. contains l.id cs) ls))
      ≡ (contains k cs && exists_row (λ l. l.id == k) ls)
unfolding select exists_row contains
contains-known k cs [] = ground arith
contains-known k cs (l ∷ ls) = elim (Bool-cases (contains l.id cs)) [
  | inl hit ↦ rw hit (ground (arith, hit, contains-known k cs ls))
  | inr miss ↦ rw miss (ground (arith, miss, contains-known k cs ls))
]

All-contains :
    (ss : List PingSampleIn)
    → All (λ s. contains s.listing_id (map (λ t. t.listing_id) ss) ≡ true) ss
unfolding contains
All-contains [] = tt
All-contains (s ∷ ss) = (ground arith, All-mono ss (λ t h. ground arith) (All-contains ss))

-- The unknown samples do not matter to a listing of the table.
heard-known :
    (test : PingSampleIn → Bool) (now : ℕ) (ls : List Listing) (samples : List PingSampleIn)
    (key : ℕ) (t : Option ℕ)
    → exists_row (λ l. l.id == key) ls ≡ true
    → heard test now key (known_samples ls samples) t ≡ heard test now key samples t
unfolding known_samples
heard-known test now ls samples key t h =
    let cs = map (λ s. s.listing_id) samples in
    heard-select now now key test _ samples t (
      All-mono samples
        (λ s (c : contains s.listing_id cs ≡ true) e.
          contains-known s.listing_id cs ls ∙ rw (c, sym (==→eq key s.listing_id e)) h)
        (All-contains samples))

store_samples-listings :
    (now db_now : ℕ) (samples : List PingSampleIn) (db : Db)
    → (store_samples now db_now samples db).listings ≡ map (after_samples now samples) db.listings
unfolding store_samples covers heard
store_samples-listings now db_now [] db = sym (map_same db.listings)
store_samples-listings now db_now (s ∷ ss) db =
    let c = collect now db_now (s ∷ ss) (db.ping_samples, [], []) in
    write_latest-ok c.2 (write_latest probed_at c.1 db.listings)
    ∙ ap (map (ok_since c.2)) (write_latest-probed c.1 db.listings)
    ∙ map-map (ok_since c.2) (probed_since c.1) db.listings
    ∙ map-congr _ _ db.listings (λ l.
      rw
        (
          collect-probed now db_now l.id (s ∷ ss) db.ping_samples [] [] l.last_probed_at,
          collect-ok now db_now l.id (s ∷ ss) db.ping_samples [] [] l.last_ok_ping_at,
        )
        refl)

-- A batch of samples raises `last_probed_at` of every listing to the latest of the listing's
-- samples in the batch, and `last_ok_ping_at` to the latest of its ok ones, and changes nothing else
-- of the listings: the dictionaries and the filter of unknown ids come to one look at each sample.
pub post_samples-refines :
    (now db_now : ℕ) (samples : List PingSampleIn) (db : Db)
    → (post_samples now db_now samples db).listings ≡ map (after_samples now samples) db.listings
unfolding post_samples
post_samples-refines now db_now samples db =
    let known = known_samples db.listings samples in
    store_samples-listings now db_now known db
    ∙ map-congr-All (after_samples now known) (after_samples now samples) db.listings (
        All-mono db.listings
          (λ l h.
            rw
              (
                heard-known all_samples now db.listings samples l.id l.last_probed_at h,
                heard-known ok_samples now db.listings samples l.id l.last_ok_ping_at h,
              )
              refl)
          (All-exists_row (λ l. l.id) db.listings))
