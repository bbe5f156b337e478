-- ===== src/Listings/Link.antt =====
-- `_rewrite_vless_host`: `re.sub` with the pattern `(vless://[^@]+@)[^:?#]+:\d+` and the template
-- `\1` followed by the host, a colon and the port. In a template Python reads the digits that follow
-- a reference as part of it. The links of the program are written in ASCII digits.
use abr_out.Prelude.{
  ℕ, ◌+◌, ◌*◌, ◌-◌, ◌≡◌, ◌⊎◌, [], ◌∷◌, ◌++◌, Option, none, some, Bool, true, false, not, ◌&&◌, ◌||◌,
  ◌==◌, leb, refl, sym, ap, ◌∙◌, arith, inl, inr, Bool-cases, if◌then◌else◌,
}
use abr_out.Prelude.Text.{Text, codes}
use abr_out.Vless.{is_digit, decimal}

-- The rest of a text after a prefix.
unfoldable pub after_prefix : Text → Text → Option Text
after_prefix [] s = some s
after_prefix (p ∷ ps) [] = none
after_prefix (p ∷ ps) (c ∷ s) = let rest = after_prefix ps s in if p == c then rest else none

-- The longest run of characters that pass the test, and the rest.
unfoldable pub span : (ℕ → Bool) → Text → Text × Text
span p [] = ([], [])
span p (c ∷ s) = let (run, rest) = span p s in if p c then (c ∷ run, rest) else ([], c ∷ s)

abbrev pub scheme : Text
scheme = codes "vless://"

-- A run that is not empty and is followed by the character, and the rest after it.
abbrev pub closed_by : ℕ → Text × Text → Option (Text × Text)
closed_by stop ([], rest) = none
closed_by stop (c ∷ run, []) = none
closed_by stop (c ∷ run, d ∷ rest) = if d == stop then some (c ∷ run, rest) else none

abbrev in_user : ℕ → Bool
in_user c = not (c == b'@')

abbrev in_host : ℕ → Bool
in_host c = not (c == b':' || c == b'?' || c == b'#')

abbrev pub after_port : Text × Text → Option Text
after_port ([], rest) = none
after_port (c ∷ run, rest) = some rest

infixl 5 ◌>>=◌
abbrev pub ◌>>=◌ : {A B : Type 0} → Option A → (A → Option B) → Option B
none >>= f = none
some a >>= f = f a

-- A match at the head of the text: group 1, and what follows the match.
unfoldable pub match_at : Text → Option (Text × Text)
unfolding after_prefix span
match_at s = do
  t ← after_prefix scheme s
  (user, u) ← closed_by b'@' (span in_user t)
  (host, v) ← closed_by b':' (span in_host u)
  rest ← after_port (span is_digit v)
  some (scheme ++ user ++ b'@' ∷ [], rest)

abbrev is_octal : ℕ → Bool
is_octal c = leb b'0' c && leb c b'7'

-- What the head of the template stands for: the group, or a character by its octal code.
pub data Head : Type 0 where
  group : Head
  char : ℕ → Head

abbrev pub one_more : ℕ → Text → Option (Head × Text)
one_more d [] = none
one_more d (e ∷ s) =
    if is_octal d && is_octal e then some (Head.char (64 + 8 * (d - 48) + (e - 48)), s) else none

-- The template `\1` and a text; none is `re.error`, for a group above the first.
unfoldable pub parse_template : Text → Option (Head × Text)
parse_template [] = some (Head.group, [])
parse_template (d ∷ s) = if is_digit d then one_more d s else some (Head.group, d ∷ s)

abbrev pub expand : Text → Head × Text → Text
expand g (Head.group, s) = g ++ s
expand g (Head.char c, s) = c ∷ s

abbrev replaced : Head × Text → ℕ → Text → Option (Text × Text) → Text
replaced t c rest none = c ∷ rest
replaced t c rest (some m) = expand m.0 t ++ m.1

-- The first match, replaced.
unfoldable pub substitute : Head × Text → Text → Text
unfolding match_at
substitute t [] = []
substitute t (c ∷ s) = let rest = substitute t s in replaced t c rest (match_at (c ∷ s))

-- `_rewrite_vless_host`; none is an exception.
unfoldable pub rewrite_vless_host : Text → Text → ℕ → Option Text
unfolding parse_template substitute decimal
rewrite_vless_host link new_host port = do
  t ← parse_template (new_host ++ b':' ∷ decimal port)
  some (substitute t link)

-- Digits and dots, as in an IPv4 address.
unfoldable pub is_dotted : Text → Bool
is_dotted [] = true
is_dotted (c ∷ s) = (is_digit c || c == b'.') && is_dotted s

not_a_link : (c d : ℕ) (s : Text) → (b'l' == d) ≡ false → match_at (c ∷ d ∷ s) ≡ none
unfolding match_at after_prefix
not_a_link c d s h = ground (arith, h)

-- What follows the octal code does not begin with an `l`.
octal_head :
    (c : ℕ) (r port more : Text)
    → is_dotted r ≡ true
    → match_at (c ∷ (r ++ b':' ∷ port) ++ more) ≡ none
unfolding is_dotted
octal_head c [] port more h = not_a_link c b':' (port ++ more) refl
octal_head c (d ∷ r) port more h = not_a_link c d _ (ground arith)

substitute-head :
    (t : Head × Text) (c : ℕ) (s : Text) (m : Text × Text)
    → match_at (c ∷ s) ≡ some m
    → substitute t (c ∷ s) ≡ expand m.0 t ++ m.1
unfolding substitute
substitute-head t c s m h = ap (replaced t c (substitute t s)) h

empty_no_link : match_at [] ≡ none
unfolding match_at after_prefix
empty_no_link = refl

substitute-char :
    (code : ℕ) (r port link : Text) (m : Text × Text)
    → is_dotted r ≡ true
    → match_at link ≡ some m
    → match_at (substitute (Head.char code, r ++ b':' ∷ port) link) ≡ none
substitute-char code r port [] m h k = cc (sym empty_no_link ∙ k)
substitute-char code r port (c ∷ s) m h k =
    rw (substitute-head (Head.char code, r ++ b':' ∷ port) c s m k) (octal_head code r port m.1 h)

elim_and : (b : Bool) → (b && false) ≡ false
elim_and true = refl
elim_and false = refl

-- A new host that begins with a digit, as every IPv4 address does, is never written into a link:
-- `re.sub` raises, or what it leaves in place of a link that had one is no link any more.
pub rewrite_vless_host-breaks :
    (link : Text) (d : ℕ) (host : Text) (port : ℕ) (m : Text × Text)
    → is_digit d ≡ true
    → is_dotted host ≡ true
    → match_at link ≡ some m
    → (rewrite_vless_host link (d ∷ host) port ≡ none)
      ⊎ ((s : Text) × (rewrite_vless_host link (d ∷ host) port ≡ some s) × (match_at s ≡ none))
unfolding rewrite_vless_host parse_template is_dotted
rewrite_vless_host-breaks link d [] port m digit dotted matched =
    inl (rw (digit, elim_and (is_octal d)) refl)
rewrite_vless_host-breaks link d (e ∷ r) port m digit dotted matched =
    elim (Bool-cases (is_octal d && is_octal e)) [
      | inr decimal_digits ↦ inl (rw (digit, decimal_digits) refl)
      | inl octal_digits ↦
          let code = 64 + 8 * (d - 48) + (e - 48) in
          let t : Head × Text = (Head.char code, r ++ b':' ∷ decimal port) in
          inr (
            substitute t link,
            rw (digit, octal_digits) refl,
            substitute-char code r (decimal port) link m (ground arith) matched,
          )
    ]
