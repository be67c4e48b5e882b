-- ===== src/Libc/Decimal.antt =====
-- Decimal text: `%d` and `%0Nd` of a number that is not negative.
use coding_demo.Libc.Buffer.{IsText}
use coding_demo.Base.{
  ℕ, zero, suc, ◌+◌, ◌/◌, ◌%◌, ◌^◌, ◌≡◌, refl, List, [], ◌∷◌, ◌++◌, arith, ltb, if◌then◌else◌,
  length, length-append, All-append, Bool-cases, inl, inr, ◌<◌, ◌≤◌,
}

-- The last `w` digits.
unfoldable pub digits : ℕ → ℕ → List ℕ
digits zero n = []
digits (suc w) n = digits w (n / 10) ++ (b'0' + n % 10) ∷ []

-- The number of digits of `n`, on fuel; a 64-bit number has at most 20.
unfoldable pub width : ℕ → ℕ → ℕ
width zero n = 1
width (suc fuel) n = let more = suc (width fuel (n / 10)) in if ltb n 10 then 1 else more

-- `%d`
unfoldable pub decimal : ℕ → List ℕ
decimal n = digits (width 20 n) n

-- `%0Nd`: at least `w` digits, filled up with zeros.
unfoldable pub padded : ℕ → ℕ → List ℕ
padded w n = if ltb n (10 ^ w) then digits w n else decimal n

pub length-digits : (w n : ℕ) → length (digits w n) ≡ w
unfolding digits
length-digits zero n = refl
length-digits (suc w) n =
    omega
      (arith, length-append (digits w (n / 10)) ((b'0' + n % 10) ∷ []), length-digits w (n / 10))

pub digits-IsText : (w n : ℕ) → IsText (digits w n)
unfolding digits
digits-IsText zero n = tt
digits-IsText (suc w) n =
    All-append (λ c. 0 < c) (digits w (n / 10)) ((b'0' + n % 10) ∷ []) (digits-IsText w (n / 10))
      (omega arith)

pub decimal-IsText : (n : ℕ) → IsText (decimal n)
unfolding decimal
decimal-IsText n = digits-IsText (width 20 n) n

pub padded-IsText : (w n : ℕ) → IsText (padded w n)
unfolding padded
padded-IsText w n = elim (Bool-cases (ltb n (10 ^ w))) [
  | inl small ↦ rw small (digits-IsText w n)
  | inr large ↦ rw large (decimal-IsText n)
]

pub length-padded : (w n : ℕ) → n < 10 ^ w → length (padded w n) ≡ w
unfolding padded
length-padded w n h = elim (Bool-cases (ltb n (10 ^ w))) [
  | inl small ↦ rw small (length-digits w n)
  | inr large ↦ absurd (ground arith)
]

width-le : (fuel w n : ℕ) → 0 < w → n < 10 ^ w → width fuel n ≤ w
unfolding width
width-le zero w n h lt = h
width-le (suc fuel) zero n h lt = absurd (omega arith)
width-le (suc fuel) (suc zero) n h lt = ground arith
width-le (suc fuel) (suc (suc w)) n h lt = elim (Bool-cases (ltb n 10)) [
  | inl small ↦ rw small (omega arith)
  | inr large ↦
      let shorter = width-le fuel (suc w) (n / 10) (omega arith) (omega arith) in
      rw large (omega arith)
]

-- A number below 10 ^ w has at most w digits.
pub length-decimal : (w n : ℕ) → 0 < w → n < 10 ^ w → length (decimal n) ≤ w
unfolding decimal
length-decimal w n h lt = omega (arith, length-digits (width 20 n) n, width-le 20 w n h lt)
