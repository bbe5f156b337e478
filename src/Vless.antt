-- ===== src/Vless.antt =====
-- The texts that the routes for configs and listings build and take apart: names, links, addresses.
use abr_out.Prelude.{
  ℕ, zero, suc, ◌<◌, ◌≡◌, refl, arith, inl, inr, Bool-cases, ◌+◌, ◌/◌, ◌%◌, [], ◌∷◌, ◌++◌, Bool,
  true, false, ◌&&◌, ◌||◌, ◌==◌, ltb, leb, if◌then◌else◌, take,
}
use abr_out.Prelude.Text.{Text, codes}

-- `str.isspace`, which `strip` and `\s` go by.
abbrev pub is_space : ℕ → Bool
is_space c =
    (leb 9 c && leb c 13)
    || (leb 28 c && leb c 32)
    || c == 133
    || c == 160
    || c == 5_760
    || (leb 8_192 c && leb c 8_202)
    || c == 8_232
    || c == 8_233
    || c == 8_239
    || c == 8_287
    || c == 12_288

abbrev pub is_digit : ℕ → Bool
is_digit c = leb b'0' c && leb c b'9'

-- `[A-Za-z0-9 ._-]`
abbrev pub is_plain : ℕ → Bool
is_plain c =
    (leb b'A' c && leb c b'Z')
    || (leb b'a' c && leb c b'z')
    || is_digit c
    || c == b' '
    || c == b'.'
    || c == b'_'
    || c == b'-'

unfoldable pub all_plain : Text → Bool
all_plain [] = true
all_plain (c ∷ s) = is_plain c && all_plain s

-- `lstrip` and `rstrip`
unfoldable pub lstrip : Text → Text
lstrip [] = []
lstrip (c ∷ s) = let rest = lstrip s in if is_space c then rest else c ∷ s

abbrev pub prepend : ℕ → Text → Text
prepend c [] = if is_space c then [] else c ∷ []
prepend c (d ∷ s) = c ∷ d ∷ s

unfoldable pub rstrip : Text → Text
rstrip [] = []
rstrip (c ∷ s) = prepend c (rstrip s)

-- `re.sub(r"\s+", …)` with one character: a run of spaces becomes that character. The flag says that
-- a run was just replaced.
unfoldable pub squeeze : ℕ → Bool → Text → Text
squeeze by run [] = []
squeeze by run (c ∷ s) =
    let inside = squeeze by true s in
    let outside = squeeze by false s in
    if is_space c then (if run then inside else by ∷ inside) else c ∷ outside

abbrev pub name_max_len : ℕ
name_max_len = 32

abbrev pub plain_or_empty : Text → Text
plain_or_empty s = if all_plain s then s else []

-- `_sanitize_name`
unfoldable pub sanitize_name : Text → Text
unfolding lstrip rstrip squeeze take all_plain
sanitize_name raw = plain_or_empty (take name_max_len (squeeze b' ' false (rstrip (lstrip raw))))

-- The digits of a number, `fuel` of them at most.
unfoldable pub digits : ℕ → ℕ → Text → Text
digits zero n tail = tail
digits (suc fuel) n tail =
    let last = b'0' + n % 10 in
    let rest = digits fuel (n / 10) (last ∷ tail) in if ltb n 10 then last ∷ tail else rest

-- `str(n)`; a number has fewer digits than its value and one.
unfoldable pub decimal : ℕ → Text
unfolding digits
decimal n = digits (suc n) n []

-- The link of a config, from the text of its uuid.
unfoldable pub vless_link : Text → Text → ℕ → Text → Text
unfolding decimal
vless_link uuid host port email =
    codes "vless://"
    ++ uuid
    ++ codes "@"
    ++ host
    ++ codes ":"
    ++ decimal port
    ++ codes "?type=tcp&security=none&encryption=none#"
    ++ email

-- Any fuel above the number gives the same digits.
pub digits_fuel : (f g n : ℕ) (tail : Text) → n < f → n < g → digits f n tail ≡ digits g n tail
unfolding digits
digits_fuel zero g n tail h k = absurd (omega arith)
digits_fuel (suc f) zero n tail h k = absurd (omega arith)
digits_fuel (suc f) (suc g) n tail h k = elim (Bool-cases (ltb n 10)) [
  | inl short ↦ rw short refl
  | inr long ↦
      rw long (digits_fuel f g (n / 10) ((b'0' + n % 10) ∷ tail) (ground arith) (ground arith))
]
