-- ===== src/Admin/Found.antt =====
-- The search of `list_users` of app/api/routes/admin.py by the text of an id.
use abr_out.Prelude.{
  ℕ, zero, suc, ◌+◌, ◌-◌, ◌*◌, ◌/◌, ◌%◌, ◌<◌, [], ◌∷◌, ◌++◌, some, Bool, true, false, ◌&&◌, ◌||◌,
  ◌==◌, ltb, ◌≡◌, refl, ◌∙◌, ap, inl, inr, arith, Bool-cases,
}
use abr_out.Prelude.Int.{pos}
use abr_out.Prelude.Text.{Text, codes}
use abr_out.Models.{User}
use abr_out.Http.{ok}
use abr_out.Vless.{is_space, is_digit, decimal, digits, lstrip, rstrip, prepend}
use abr_out.Admin.Search.{
  all_digits, lstrip_minus, digits_value, searched_id, name_is_like, has_block, BlockedFilter,
  user_filter, is_searched,
}

-- The value of printed digits is what was printed, with the text behind them read on.
digits_value-digits :
    (fuel n : ℕ) (tail : Text)
    → n < fuel
    → digits_value 0 (digits fuel n tail) ≡ digits_value n tail
unfolding digits digits_value
digits_value-digits zero n tail h = absurd (omega arith)
digits_value-digits (suc fuel) n tail h = elim (Bool-cases (ltb n 10)) [
  | inl short ↦
      let e : 0 + (b'0' + n % 10 - b'0') ≡ n = ground (arith, short) in
      rw short (ap (λ k. digits_value k tail) e)
  | inr long ↦
      let e : n / 10 * 10 + (b'0' + n % 10 - b'0') ≡ n = omega arith in
      rw long (
        digits_value-digits fuel (n / 10) ((b'0' + n % 10) ∷ tail) (ground (arith, long))
        ∙ ap (λ k. digits_value k tail) e)
]

digit-is_digit : (n : ℕ) → is_digit (b'0' + n % 10) ≡ true
digit-is_digit n = ground arith

-- What is printed starts with a digit and consists of digits.
data Printed : Text → Type 0 where
  printed : (c : ℕ) (s : Text) → is_digit c ≡ true → all_digits s ≡ true → Printed (c ∷ s)

digits-Printed :
    (fuel n : ℕ) (tail : Text) → n < fuel → all_digits tail ≡ true → Printed (digits fuel n tail)
unfolding digits all_digits
digits-Printed zero n tail h d = absurd (omega arith)
digits-Printed (suc fuel) n tail h d = elim (Bool-cases (ltb n 10)) [
  | inl short ↦ rw short (printed (b'0' + n % 10) tail (digit-is_digit n) d)
  | inr long ↦ rw long (
      digits-Printed fuel (n / 10) ((b'0' + n % 10) ∷ tail) (ground (arith, long))
        (rw (digit-is_digit n, d) refl))
]

digit_bounds : (c : ℕ) → is_digit c ≡ true → (47 < c) × (c < 58)
digit_bounds c h = ground (arith, h)

digit_no_space : (c : ℕ) → is_digit c ≡ true → is_space c ≡ false
digit_no_space c h = let b = digit_bounds c h in ground (arith, b.0, b.1)

prepend-digit : (c : ℕ) (s : Text) → is_space c ≡ false → prepend c s ≡ c ∷ s
prepend-digit c [] h = rw h refl
prepend-digit c (d ∷ s) h = refl

rstrip-digits : (s : Text) → all_digits s ≡ true → rstrip s ≡ s
unfolding rstrip all_digits
rstrip-digits [] d = refl
rstrip-digits (c ∷ s) d =
    rw (rstrip-digits s (ground (arith, d)))
      (prepend-digit c s (digit_no_space c (ground (arith, d))))

-- Nothing is stripped from a printed number.
stripped-Printed : (s : Text) → Printed s → rstrip (lstrip s) ≡ s
unfolding lstrip all_digits
stripped-Printed s (printed c t first rest) =
    rw (digit_no_space c first) (rstrip-digits (c ∷ t) (rw (first, rest) refl))

-- It reads as the number that was printed.
searched_id-Printed : (s : Text) → Printed s → searched_id s ≡ ok (some (pos (digits_value 0 s)))
unfolding searched_id lstrip_minus
searched_id-Printed s (printed c t first rest) =
    let whole : all_digits (c ∷ t) ≡ true = rw (first, rest) refl in
    let plus : (c == b'-') ≡ false = ground (arith, digit_bounds c first) in rw plus (rw whole refl)

filter-Printed :
    (ilike : Text → Text → Bool) (id : ℕ) (s : Text)
    → Printed s
    → digits_value 0 s ≡ id
    → (p : User → Bool) × (user_filter ilike s BlockedFilter.all ≡ ok p)
      × ((u : User)
          → p u
            ≡ (name_is_like ilike (codes "%" ++ s ++ codes "%") u.username || u.telegram_id == id))
unfolding user_filter
filter-Printed ilike id s (printed c t first rest) value =
    let p = printed c t first rest in
    let read : searched_id (c ∷ t) ≡ ok (some (pos id)) =
      searched_id-Printed (c ∷ t) p ∙ ap (λ k. ok (some (pos k))) value in
    let found : User → Bool =
      λ u. is_searched ilike (c ∷ t) (some (pos id)) u && has_block BlockedFilter.all u in
    (found, rw (stripped-Printed (c ∷ t) p) (rw read refl), λ u. ground arith)

-- A search for the decimal text of an id keeps the users with that id, besides those whose name the
-- text is part of, and nobody else.
pub user_filter-decimal :
    (ilike : Text → Text → Bool) (id : ℕ)
    → (p : User → Bool) × (user_filter ilike (decimal id) BlockedFilter.all ≡ ok p)
      × ((u : User)
          → p u ≡ (
              name_is_like ilike (codes "%" ++ decimal id ++ codes "%") u.username
              || u.telegram_id == id))
unfolding user_filter decimal
user_filter-decimal ilike id =
    filter-Printed ilike id (decimal id) (digits-Printed (suc id) id [] (omega arith) refl)
      (digits_value-digits (suc id) id [] (omega arith))
