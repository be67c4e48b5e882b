-- ===== src/Libc/Scan.antt =====
-- `strtok` with "," and `sscanf` with "%u", from their documentation.
use coding_demo.Base.{
  ℕ, ◌-◌, ◌%◌, ◌^◌, ◌≡◌, refl, ap, sym, ◌∙◌, Option, none, some, List, [], ◌∷◌, ◌++◌, arith, ltb,
  leb, ◌==◌, if◌then◌else◌, Bool, true, false, ◌||◌, ◌&&◌, ◌<◌, All, ◌≢◌, ℤ, pos, negsuc, neg,
}
use mathlib.Core.List.{append_assoc, append-nil}
use coding_demo.Libc.Decimal.{decimal}
use coding_demo.Libc.Number.{
  is_digit, read_digits, read_digits-decimal, read_digits-decimal_rest, decimal-head,
}

abbrev pub with_token : List ℕ → List (List ℕ) → List (List ℕ)
with_token [] ts = ts
with_token (c ∷ cur) ts = (c ∷ cur) ∷ ts

-- What the calls of `strtok` return one after another, where `cur` is the token that has begun:
-- the pieces between commas that are not empty.
unfoldable pub tokens : List ℕ → List ℕ → List (List ℕ)
tokens cur [] = with_token cur []
tokens cur (c ∷ s) =
    let next = tokens [] s in
    let more = tokens (cur ++ c ∷ []) s in if c == b',' then with_token cur next else more

abbrev pub is_blank : ℕ → Bool
is_blank c = c == b' ' || (leb 9 c && leb c 13)

unfoldable pub skip_blanks : List ℕ → List ℕ
skip_blanks [] = []
skip_blanks (c ∷ s) = let rest = skip_blanks s in if is_blank c then rest else c ∷ s

-- The digits of a "%u", which begin with one.
unfoldable pub scan_digits : List ℕ → Option (ℕ × List ℕ)
unfolding read_digits
scan_digits [] = none
scan_digits (c ∷ s) = if is_digit c then some (read_digits 0 (c ∷ s)) else none

-- "%u" up to its conversion: blanks, a sign, digits; the sign tells whether the number is negated.
unfoldable pub scan_sign : List ℕ → Bool × List ℕ
scan_sign [] = (false, [])
scan_sign (c ∷ s) =
    if c == b'-' then (true, s) else if c == b'+' then (false, s) else (false, c ∷ s)

-- What is stored for a number: `over n` is what comes of one that no `unsigned int` holds.
abbrev pub stored : (ℕ → ℕ) → Bool → ℕ → ℕ
stored over negated n =
    let m = if ltb n (2 ^ 32) then n else over n % 2 ^ 32 in
    if negated then (2 ^ 32 - m) % 2 ^ 32 else m

abbrev convert : (ℕ → ℕ) → Bool → Option (ℕ × List ℕ) → Option (ℕ × List ℕ)
convert over negated none = none
convert over negated (some (n, rest)) = some (stored over negated n, rest)

unfoldable pub scan_u : (ℕ → ℕ) → List ℕ → Option (ℕ × List ℕ)
unfolding skip_blanks scan_digits scan_sign
scan_u over s =
    let (negated, rest) = scan_sign (skip_blanks s) in convert over negated (scan_digits rest)

-- The literal '-' of a format, and what follows it.
abbrev pub scan_dash : List ℕ → Option (List ℕ)
scan_dash [] = none
scan_dash (c ∷ s) = if c == b'-' then some s else none

scan_u-digit :
    (over : ℕ → ℕ) (c : ℕ) (s : List ℕ)
    → is_digit c ≡ true
    → scan_u over (c ∷ s)
      ≡ some (stored over false (read_digits 0 (c ∷ s)).0, (read_digits 0 (c ∷ s)).1)
unfolding scan_u
scan_u-digit over c s h =
    let no_blank : is_blank c ≡ false = ground arith in
    let no_minus : (c == b'-') ≡ false = ground arith in
    let no_plus : (c == b'+') ≡ false = ground arith in rw (no_blank, no_minus, no_plus, h) refl

small_stored : (over : ℕ → ℕ) (n : ℕ) → n < 2 ^ 32 → stored over false n ≡ n
small_stored over n h = ground arith

-- A number that an `unsigned int` holds is read as it was written.
pub scan_u-decimal : (over : ℕ → ℕ) (n : ℕ) → n < 2 ^ 32 → scan_u over (decimal n) ≡ some (n, [])
scan_u-decimal over n h =
    let (c, s, e, d) = decimal-head n in
    let read = ap (read_digits 0) (sym e) ∙ read_digits-decimal n (omega arith) in
    ap (scan_u over) e
    ∙ scan_u-digit over c s d
    ∙ ap (λ (r : ℕ × List ℕ). some (stored over false r.0, r.1)) read
    ∙ ap (λ k. some (k, [])) (small_stored over n h)

pub scan_u-decimal_rest :
    (over : ℕ → ℕ) (n c : ℕ) (rest : List ℕ)
    → n < 2 ^ 32
    → is_digit c ≡ false
    → scan_u over (decimal n ++ c ∷ rest) ≡ some (n, c ∷ rest)
scan_u-decimal_rest over n c rest h stop =
    let (b, s, e, d) = decimal-head n in
    let read =
      ap (λ ys. read_digits 0 (ys ++ c ∷ rest)) (sym e)
      ∙ read_digits-decimal_rest n c rest (omega arith) stop in
    ap (λ ys. scan_u over (ys ++ c ∷ rest)) e
    ∙ scan_u-digit over b (s ++ c ∷ rest) d
    ∙ ap (λ (r : ℕ × List ℕ). some (stored over false r.0, r.1)) read
    ∙ ap (λ k. some (k, c ∷ rest)) (small_stored over n h)

-- A text without commas belongs to the token that has begun.
pub tokens-append :
    (cur text rest : List ℕ)
    → All (λ c. c ≢ b',') text
    → tokens cur (text ++ rest) ≡ tokens (cur ++ text) rest
unfolding tokens
tokens-append cur [] rest h = ap (λ ys. tokens ys rest) (sym (append-nil cur))
tokens-append cur (c ∷ text) rest h =
    let other : (c == b',') ≡ false = ground arith in
    rw other (
      tokens-append (cur ++ c ∷ []) text rest h.1
      ∙ ap (λ ys. tokens ys rest) (append_assoc cur (c ∷ []) text))

-- A comma ends the token that has begun.
pub tokens-comma : (cur rest : List ℕ) → tokens cur (b',' ∷ rest) ≡ with_token cur (tokens [] rest)
unfolding tokens
tokens-comma cur rest = refl

pub tokens-nil : (cur : List ℕ) → tokens cur [] ≡ with_token cur []
unfolding tokens
tokens-nil cur = refl

abbrev long_of : Bool → ℕ → ℤ
long_of false n = if ltb n (2 ^ 63) then pos n else pos (2 ^ 63 - 1)
long_of true n = if leb n (2 ^ 63) then neg n else negsuc (2 ^ 63 - 1)

abbrev digits_or_zero : Option (ℕ × List ℕ) → ℕ
digits_or_zero none = 0
digits_or_zero (some (n, rest)) = n

-- `strtol(s, NULL, 10)`: 0 where there is no number, and the nearest `long` for one that is too
-- large.
unfoldable pub long_value : List ℕ → ℤ
unfolding skip_blanks scan_sign scan_digits
long_value s =
    let (negated, rest) = scan_sign (skip_blanks s) in
    long_of negated (digits_or_zero (scan_digits rest))

long_value-digit :
    (c : ℕ) (s : List ℕ)
    → is_digit c ≡ true
    → long_value (c ∷ s) ≡ long_of false (read_digits 0 (c ∷ s)).0
unfolding long_value
long_value-digit c s h =
    let no_blank : is_blank c ≡ false = ground arith in
    let no_minus : (c == b'-') ≡ false = ground arith in
    let no_plus : (c == b'+') ≡ false = ground arith in rw (no_blank, no_minus, no_plus, h) refl

pub long_value-decimal : (n : ℕ) → n < 2 ^ 63 → long_value (decimal n) ≡ pos n
long_value-decimal n h =
    let (c, s, e, d) = decimal-head n in
    let read = ap (read_digits 0) (sym e) ∙ read_digits-decimal n (omega arith) in
    let small : ltb n (2 ^ 63) ≡ true = ground arith in
    ap long_value e
    ∙ long_value-digit c s d
    ∙ ap (λ (r : ℕ × List ℕ). long_of false r.0) read
    ∙ rw small refl

-- `strtol(s, &end, 10)`: the number, and the text from `end` on, which is all of it where there is
-- no number.
abbrev long_and_end : List ℕ → Bool → Option (ℕ × List ℕ) → ℤ × List ℕ
long_and_end s negated none = (pos 0, s)
long_and_end s negated (some (n, rest)) = (long_of negated n, rest)

unfoldable pub strtol_end : List ℕ → ℤ × List ℕ
unfolding skip_blanks scan_sign scan_digits
strtol_end s =
    let (negated, rest) = scan_sign (skip_blanks s) in long_and_end s negated (scan_digits rest)

-- `(int)` of a `long`.
abbrev pub to_int : ℤ → ℤ
to_int n = signed (bits n)
  where
    bits : ℤ → ℕ
    bits (pos n) = n % 2 ^ 32
    bits (negsuc n) = 2 ^ 32 - 1 - n % 2 ^ 32

    signed : ℕ → ℤ
    signed w = if ltb w (2 ^ 31) then pos w else negsuc (2 ^ 32 - w - 1)

pub to_int-small : (n : ℕ) → n < 2 ^ 31 → to_int (pos n) ≡ pos n
to_int-small n h =
    let same : n % 2 ^ 32 ≡ n = omega arith in
    let small : ltb n (2 ^ 31) ≡ true = ground arith in rw (same, small) refl
