-- ===== src/Prober/Advances.antt =====
-- The timestamps of the listings never go back.
use abr_out.Prelude.{
  ℕ, List, [], ◌∷◌, Option, none, some, Bool, ◌≡◌, ◌==◌, ◌≤◌, ◌&&◌, refl, arith, get_or, Bool-cases,
  inl, inr,
}
use abr_out.Prelude.Rows.{first_row}
use abr_out.Prelude.Keyed.{first_row-map}
use abr_out.Models.{Db, Listing}
use abr_out.Prober.{PingSampleIn, greatest, post_samples}
use abr_out.Prober.Bookkeeping.{heard, all_samples, ok_samples, after_samples, post_samples-refines}

-- No time, or one that is not later than the other.
abbrev pub IsNotLater : Option ℕ → Option ℕ → Type 0
IsNotLater none u = Unit
IsNotLater (some a) none = ⊥
IsNotLater (some a) (some b) = a ≤ b

IsNotLater-trans : (a b c : Option ℕ) → IsNotLater a b → IsNotLater b c → IsNotLater a c
IsNotLater-trans a b c h k = ground arith

IsNotLater-refl : (a : Option ℕ) → IsNotLater a a
IsNotLater-refl a = ground arith

IsNotLater-greatest : (a : Option ℕ) (ts : ℕ) → IsNotLater a (greatest a ts)
IsNotLater-greatest a ts = ground arith

IsNotLater-heard :
    (test : PingSampleIn → Bool) (now key : ℕ) (ss : List PingSampleIn) (t : Option ℕ)
    → IsNotLater t (heard test now key ss t)
unfolding heard
IsNotLater-heard test now key [] t = IsNotLater-refl t
IsNotLater-heard test now key (s ∷ ss) t = elim (Bool-cases (test s && key == s.listing_id)) [
  | inl hit ↦
      let ts = get_or s.sampled_at now in
      rw hit (
        IsNotLater-trans t (greatest t ts) _ (IsNotLater-greatest t ts)
          (IsNotLater-heard test now key ss (greatest t ts)))
  | inr miss ↦ rw miss (IsNotLater-heard test now key ss t)
]

-- However late or out of order its samples are, a batch moves neither `last_probed_at` nor
-- `last_ok_ping_at` of a listing back.
pub post_samples-advances :
    (now db_now : ℕ) (samples : List PingSampleIn) (db : Db) (k : ℕ) (x : Listing)
    → first_row (λ l. l.id == k) db.listings ≡ some x
    → (y : Listing) × (first_row (λ l. l.id == k) (post_samples now db_now samples db).listings
        ≡ some y)
      × IsNotLater x.last_probed_at y.last_probed_at
      × IsNotLater x.last_ok_ping_at y.last_ok_ping_at
post_samples-advances now db_now samples db k x h = (
  after_samples now samples x,
  rw (post_samples-refines now db_now samples db)
      (first_row-map (λ l. l.id) (after_samples now samples) k x db.listings (λ l. refl) h).0,
  IsNotLater-heard all_samples now x.id samples x.last_probed_at,
  IsNotLater-heard ok_samples now x.id samples x.last_ok_ping_at,
)
