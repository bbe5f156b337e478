-- ===== src/Pings/Values.antt =====
-- The mean ping and the stability of one listing, from its samples.
use abr_out.Prelude.{
  ℕ, ◌+◌, ◌*◌, List, [], ◌∷◌, Option, none, some, Bool, false, ◌&&◌, ◌≡◌, ◌==◌, leb, refl, ◌∙◌,
  arith, length, is_some, if◌then◌else◌,
}
use abr_out.Prelude.Int.{ℤ, pos, ◌+ℤ◌}
use abr_out.Prelude.Rows.{select, exists_row}
use abr_out.Prelude.Rounding.{round_half_even}
use abr_out.Models.{PingSample}
use abr_out.Pings.{avg_of, stability_of, in_window, recent_rtts, sum_ints, truncated}

-- How many samples pass, and the sum of their pings.
abbrev pub count_of : (PingSample → Bool) → List PingSample → ℕ
count_of p [] = 0
count_of p (s ∷ ss) = (if p s then 1 else 0) + count_of p ss

abbrev pub rtt_or_zero : Option ℤ → ℤ
rtt_or_zero none = pos 0
rtt_or_zero (some rtt) = rtt

abbrev pub sum_of : (PingSample → Bool) → List PingSample → ℤ
sum_of p [] = pos 0
sum_of p (s ∷ ss) = if p s then rtt_or_zero s.rtt_ms +ℤ sum_of p ss else sum_of p ss

-- The samples of a listing in each window.
abbrev pub answered : ℕ → ℕ → PingSample → Bool
answered since k s = s.listing_id == k && s.ok && leb since s.sampled_at

abbrev pub timed : ℕ → ℕ → PingSample → Bool
timed since k s = answered since k s && is_some s.rtt_ms

abbrev pub probed : ℕ → ℕ → PingSample → Bool
probed since k s = s.listing_id == k && leb since s.sampled_at

-- The mean of the pings that there are, cut to a whole number towards zero.
abbrev pub mean : ℕ → ℕ → List PingSample → Option ℤ
mean since k ss =
    if count_of (timed since k) ss == 0
    then none
    else some (truncated (sum_of (timed since k) ss) (count_of (timed since k) ss))

-- The percentage of the samples that are ok.
abbrev pub stability : ℕ → ℕ → List PingSample → Option ℕ
stability since k ss =
    if count_of (probed since k) ss == 0
    then none
    else some
        (round_half_even (count_of (answered since k) ss * 100) (count_of (probed since k) ss))

length-recent_rtts :
    (since k : ℕ) (ss : List PingSample)
    → length (recent_rtts since k ss) ≡ count_of (timed since k) ss
unfolding recent_rtts
length-recent_rtts since k [] = refl
length-recent_rtts since k (s ∷ ss) = ground (arith, length-recent_rtts since k ss)

sum_ints-recent_rtts :
    (since k : ℕ) (ss : List PingSample)
    → sum_ints (recent_rtts since k ss) ≡ sum_of (timed since k) ss
unfolding recent_rtts sum_ints
sum_ints-recent_rtts since k [] = refl
sum_ints-recent_rtts since k (s ∷ ss) = ground (arith, sum_ints-recent_rtts since k ss)

truncated-list :
    (rs : List ℤ)
    → (elim rs as (λ _. Option ℤ) [
      | [] ↦ none
      | a ∷ more ↦ some (truncated (sum_ints (a ∷ more)) (length (a ∷ more)))
    ])
      ≡ (if length rs == 0 then none else some (truncated (sum_ints rs) (length rs)))
truncated-list [] = refl
truncated-list (a ∷ more) = ground arith

pub avg_of-mean : (since k : ℕ) (ss : List PingSample) → avg_of since k ss ≡ mean since k ss
unfolding avg_of
avg_of-mean since k ss =
    truncated-list (recent_rtts since k ss)
    ∙ rw (length-recent_rtts since k ss, sum_ints-recent_rtts since k ss)

count_of-length :
    (p q : PingSample → Bool) (ss : List PingSample)
    → length (select q (select p ss)) ≡ count_of (λ s. p s && q s) ss
unfolding select
count_of-length p q [] = refl
count_of-length p q (s ∷ ss) = ground (arith, count_of-length p q ss)

length-select :
    (p : PingSample → Bool) (ss : List PingSample) → length (select p ss) ≡ count_of p ss
unfolding select
length-select p [] = refl
length-select p (s ∷ ss) = ground (arith, length-select p ss)

count_of-ok :
    (since k : ℕ) (ss : List PingSample)
    → count_of (λ s. (s.listing_id == k && in_window since s) && s.ok) ss
      ≡ count_of (answered since k) ss
count_of-ok since k [] = refl
count_of-ok since k (s ∷ ss) = ground (arith, count_of-ok since k ss)

pub stability_of-stability :
    (since k : ℕ) (ss : List PingSample) → stability_of since k ss ≡ stability since k ss
unfolding stability_of
stability_of-stability since k ss =
    let p : PingSample → Bool = λ s. s.listing_id == k && in_window since s in
    rw (length-select p ss, count_of-length p (λ s. s.ok) ss, count_of-ok since k ss)

-- Without a sample there is no value.
count_of-none :
    (p q : PingSample → Bool)
    → ((s : PingSample) → p s ≡ false → q s ≡ false)
    → (ss : List PingSample) → exists_row p ss ≡ false
    → count_of q ss ≡ 0
unfolding exists_row
count_of-none p q weaker [] h = refl
count_of-none p q weaker (s ∷ ss) h = ground (arith, weaker s, h, count_of-none p q weaker ss)

pub mean-none :
    (since k : ℕ) (ss : List PingSample)
    → exists_row (answered since k) ss ≡ false
    → mean since k ss ≡ none
mean-none since k ss h =
    rw (count_of-none (answered since k) (timed since k) (λ s e. rw e refl) ss h) refl

pub stability-none :
    (since k : ℕ) (ss : List PingSample)
    → exists_row (probed since k) ss ≡ false
    → stability since k ss ≡ none
stability-none since k ss h =
    rw (count_of-none (probed since k) (probed since k) (λ s e. e) ss h) refl
