-- ===== src/Libc/Number.antt =====
-- `%d` and `strtol`, within the range of a long.
use coding_demo.Base.{
  ℕ, zero, suc, ◌+◌, ◌-◌, ◌*◌, ◌/◌, ◌%◌, ◌^◌, ◌≡◌, refl, ap, sym, ◌∙◌, List, [], ◌∷◌, ◌++◌, arith,
  ltb, leb, ◌==◌, if◌then◌else◌, length, Bool-cases, Bool, ◌≤◌, false, ◌&&◌, inl, inr, ◌<◌, ℤ, pos,
  negsuc, neg, true, All, All-append,
}
use mathlib.Core.Path.{subst}
use mathlib.Core.List.{append_assoc, append-nil}
use coding_demo.Libc.Decimal.{digits, width, decimal}

-- `%d`
unfoldable pub int_text : ℤ → List ℕ
int_text (pos n) = decimal n
int_text (negsuc n) = b'-' ∷ decimal (suc n)

abbrev pub is_digit : ℕ → Bool
is_digit c = leb b'0' c && leb c b'9'

-- The digits at the start of a text, read onto `acc`, and what follows them.
unfoldable pub read_digits : ℕ → List ℕ → ℕ × List ℕ
read_digits acc [] = (acc, [])
read_digits acc (c ∷ s) = if is_digit c then read_digits (acc * 10 + (c - b'0')) s else (acc, c ∷ s)

-- `strtol` in base 10, without leading blanks and without a `+`: the number and the rest. Where
-- there is no digit the rest is the whole text.
unfoldable pub strtol : List ℕ → ℤ × List ℕ
unfolding read_digits
strtol [] = (pos 0, [])
strtol (c ∷ s) =
    let (n, rest) = read_digits 0 (c ∷ s) in
    let (m, after) = read_digits 0 s in
    if c == b'-'
    then (if length after == length s then (pos 0, c ∷ s) else (neg m, after))
    else (pos n, rest)

read_digits-digit :
    (acc d : ℕ) (rest : List ℕ)
    → d < 10
    → read_digits acc ((b'0' + d) ∷ rest) ≡ read_digits (acc * 10 + d) rest
unfolding read_digits
read_digits-digit acc d rest h = ground arith

regroup : (acc p n : ℕ) → (acc * p + n / 10) * 10 + n % 10 ≡ acc * (10 * p) + n
regroup acc p n = grind arith

pow : (acc w n : ℕ) → acc * (10 * 10 ^ w) + n ≡ acc * 10 ^ suc w + n
pow acc w n = grind arith

ten : (w m n : ℕ) → m ≡ n / 10 → m < 10 ^ w → n < 10 ^ suc w
ten w m n e h = omega arith

nothing_left : (w n : ℕ) → 0 * 10 ^ w + n ≡ n
nothing_left w n = grind arith

read_digits-nil : (acc : ℕ) → read_digits acc [] ≡ (acc, [])
unfolding read_digits
read_digits-nil acc = refl

read_digits-digits :
    (w n acc : ℕ) (rest : List ℕ)
    → n < 10 ^ w
    → read_digits acc (digits w n ++ rest) ≡ read_digits (acc * 10 ^ w + n) rest
unfolding digits
read_digits-digits zero n acc rest h = ap (λ k. read_digits k rest) (omega arith)
read_digits-digits (suc w) n acc rest h =
    ap (read_digits acc) (append_assoc (digits w (n / 10)) ((b'0' + n % 10) ∷ []) rest)
    ∙ read_digits-digits w (n / 10) acc ((b'0' + n % 10) ∷ rest) (omega arith)
    ∙ read_digits-digit (acc * 10 ^ w + n / 10) (n % 10) rest (omega arith)
    ∙ ap (λ k. read_digits k rest) (regroup acc (10 ^ w) n ∙ pow acc w n)

width-bound : (fuel n : ℕ) → n < 10 ^ suc fuel → n < 10 ^ width fuel n
unfolding width
width-bound zero n h = h
width-bound (suc fuel) n h = elim (Bool-cases (ltb n 10)) [
  | inl small ↦ rw small (ground arith)
  | inr large ↦
      rw large (ten (width fuel (n / 10)) (n / 10) n refl (width-bound fuel (n / 10) (omega arith)))
]

width-pos : (fuel n : ℕ) → 0 < width fuel n
unfolding width
width-pos zero n = omega arith
width-pos (suc fuel) n = ground arith

digits-head : (w n : ℕ) → 0 < w → (c : ℕ) × (s : List ℕ) × (digits w n ≡ c ∷ s) × (b'0' ≤ c)
unfolding digits
digits-head zero n h = absurd (omega arith)
digits-head (suc zero) n h = (b'0' + n % 10, [], refl, omega arith)
digits-head (suc (suc w)) n h =
    let (c, s, e, le) = digits-head (suc w) (n / 10) (omega arith) in
    (c, s ++ (b'0' + n % 10) ∷ [], ap (λ r. r ++ (b'0' + n % 10) ∷ []) e, le)

strtol-digit :
    (c : ℕ) (s : List ℕ) (n : ℕ)
    → b'0' ≤ c
    → read_digits 0 (c ∷ s) ≡ (n, [])
    → strtol (c ∷ s) ≡ (pos n, [])
unfolding strtol
strtol-digit c s n h e = let no_sign : (c == b'-') ≡ false = ground arith in rw (no_sign, e)

-- A number with at most 20 digits is read back as it was written.
pub strtol-decimal : (n : ℕ) → n < 10 ^ 20 → strtol (decimal n) ≡ (pos n, [])
unfolding decimal
strtol-decimal n h =
    let w = width 20 n in
    let (c, s, e, le) = digits-head w n (width-pos 20 n) in
    let read : read_digits 0 (digits w n) ≡ (n, []) =
      ap (read_digits 0) (sym (append-nil (digits w n)))
      ∙ read_digits-digits w n 0 [] (width-bound 20 n (omega arith))
      ∙ ap (λ k. read_digits k []) (nothing_left w n)
      ∙ read_digits-nil n in
    ap strtol e ∙ strtol-digit c s n le (ap (read_digits 0) (sym e) ∙ read)

read_digits-stop :
    (acc c : ℕ) (rest : List ℕ) → is_digit c ≡ false → read_digits acc (c ∷ rest) ≡ (acc, c ∷ rest)
unfolding read_digits
read_digits-stop acc c rest h = rw h refl

strtol-digit_rest :
    (c : ℕ) (s : List ℕ) (n : ℕ) (rest : List ℕ)
    → b'0' ≤ c
    → read_digits 0 (c ∷ s) ≡ (n, rest)
    → strtol (c ∷ s) ≡ (pos n, rest)
unfolding strtol
strtol-digit_rest c s n rest h e =
    let no_sign : (c == b'-') ≡ false = ground arith in rw (no_sign, e)

-- What `decimal` makes are digits, at least one.
abbrev pub IsDigits : List ℕ → Type 0
IsDigits = All (λ c. is_digit c ≡ true)

digits-IsDigits : (w n : ℕ) → IsDigits (digits w n)
unfolding digits
digits-IsDigits zero n = tt
digits-IsDigits (suc w) n =
    All-append (λ c. is_digit c ≡ true) (digits w (n / 10)) ((b'0' + n % 10) ∷ [])
      (digits-IsDigits w (n / 10)) (last, tt)
  where
    last : is_digit (b'0' + n % 10) ≡ true
    last = ground arith

pub decimal-IsDigits : (n : ℕ) → IsDigits (decimal n)
unfolding decimal
decimal-IsDigits n = digits-IsDigits (width 20 n) n

pub decimal-head : (n : ℕ) → (c : ℕ) × (s : List ℕ) × (decimal n ≡ c ∷ s) × (is_digit c ≡ true)
unfolding decimal
decimal-head n =
    let (c, s, e, le) = digits-head (width 20 n) n (width-pos 20 n) in
    (c, s, e, (subst IsDigits e (digits-IsDigits (width 20 n) n)).0)

pub read_digits-decimal : (n : ℕ) → n < 10 ^ 20 → read_digits 0 (decimal n) ≡ (n, [])
unfolding decimal
read_digits-decimal n h =
    let w = width 20 n in
    ap (read_digits 0) (sym (append-nil (digits w n)))
    ∙ read_digits-digits w n 0 [] (width-bound 20 n (omega arith))
    ∙ ap (λ k. read_digits k []) (nothing_left w n)
    ∙ read_digits-nil n

pub read_digits-decimal_rest :
    (n c : ℕ) (rest : List ℕ)
    → n < 10 ^ 20
    → is_digit c ≡ false
    → read_digits 0 (decimal n ++ c ∷ rest) ≡ (n, c ∷ rest)
unfolding decimal
read_digits-decimal_rest n c rest h stop =
    let w = width 20 n in
    read_digits-digits w n 0 (c ∷ rest) (width-bound 20 n (omega arith))
    ∙ ap (λ k. read_digits k (c ∷ rest)) (nothing_left w n)
    ∙ read_digits-stop n c rest stop

-- A number with at most 20 digits is read back up to the first byte that is no digit.
pub strtol-decimal_rest :
    (n c : ℕ) (rest : List ℕ)
    → n < 10 ^ 20
    → is_digit c ≡ false
    → strtol (decimal n ++ c ∷ rest) ≡ (pos n, c ∷ rest)
unfolding decimal
strtol-decimal_rest n c rest h stop =
    let (d, s, e, le) = digits-head (width 20 n) n (width-pos 20 n) in
    ap (λ ys. strtol (ys ++ c ∷ rest)) e
    ∙ strtol-digit_rest d (s ++ c ∷ rest) n (c ∷ rest) le (
        ap (λ ys. read_digits 0 (ys ++ c ∷ rest)) (sym e)
        ∙ read_digits-decimal_rest n c rest h stop)
