-- ===== src/Libc/Hex.antt =====
-- `%X` of a number that is not negative.
use coding_demo.Base.{
  ℕ, zero, suc, ◌+◌, ◌-◌, ◌*◌, ◌/◌, ◌%◌, ◌^◌, ◌≡◌, ap, sym, ◌∙◌, List, [], ◌∷◌, ◌++◌, arith, ltb,
  leb, if◌then◌else◌, Bool-cases, inl, inr, ◌<◌, map,
}
use mathlib.Core.List.{append_assoc, append-nil, map-append}

abbrev pub hex_char : ℕ → ℕ
hex_char d = if ltb d 10 then b'0' + d else 55 + d

-- The last `w` digits, and the text of them.
unfoldable pub high_digits : ℕ → ℕ → List ℕ
high_digits zero n = []
high_digits (suc w) n = high_digits w (n / 16) ++ (n % 16) ∷ []

-- The number of digits of `n`, on fuel; a 64-bit number has at most 16.
unfoldable pub hex_width : ℕ → ℕ → ℕ
hex_width zero n = 1
hex_width (suc fuel) n = let more = suc (hex_width fuel (n / 16)) in if ltb n 16 then 1 else more

unfoldable pub hex_text : ℕ → List ℕ
unfolding high_digits hex_width
hex_text n = map hex_char (high_digits (hex_width 15 n) n)

-- The number that a text of upper-case digits stands for, read onto `acc`.
abbrev pub hex_value : ℕ → List ℕ → ℕ
hex_value acc [] = acc
hex_value acc (c ∷ s) = hex_value (acc * 16 + (if leb c b'9' then c - b'0' else c - 55)) s

hex_value-digit :
    (acc d : ℕ) (rest : List ℕ)
    → d < 16
    → hex_value acc (hex_char d ∷ rest) ≡ hex_value (acc * 16 + d) rest
hex_value-digit acc d rest h =
    let value : (if leb (hex_char d) b'9' then hex_char d - b'0' else hex_char d - 55) ≡ d =
      ground arith in
    ap (λ v. hex_value (acc * 16 + v) rest) value

pub hex_width-bound : (fuel n : ℕ) → n < 16 ^ suc fuel → n < 16 ^ hex_width fuel n
unfolding hex_width
hex_width-bound zero n h = h
hex_width-bound (suc fuel) n h = elim (Bool-cases (ltb n 16)) [
  | inl small ↦ rw small (ground arith)
  | inr large ↦
      rw large (next (hex_width fuel (n / 16)) (hex_width-bound fuel (n / 16) (omega arith)))
]
  where
    next : (w : ℕ) → n / 16 < 16 ^ w → n < 16 ^ suc w
    next w h = omega arith

regroup : (acc p n : ℕ) → (acc * p + n / 16) * 16 + n % 16 ≡ acc * (16 * p) + n
regroup acc p n = grind arith

pow : (acc w n : ℕ) → acc * (16 * 16 ^ w) + n ≡ acc * 16 ^ suc w + n
pow acc w n = grind arith

nothing_left : (w n : ℕ) → 0 * 16 ^ w + n ≡ n
nothing_left w n = grind arith

hex_value-high_digits :
    (w n acc : ℕ) (rest : List ℕ)
    → n < 16 ^ w
    → hex_value acc (map hex_char (high_digits w n) ++ rest) ≡ hex_value (acc * 16 ^ w + n) rest
unfolding high_digits
hex_value-high_digits zero n acc rest h = ap (λ k. hex_value k rest) (omega arith)
hex_value-high_digits (suc w) n acc rest h =
    ap (λ ys. hex_value acc (ys ++ rest))
      (map-append hex_char (high_digits w (n / 16)) (n % 16 ∷ []))
    ∙ ap (hex_value acc)
        (append_assoc (map hex_char (high_digits w (n / 16))) (hex_char (n % 16) ∷ []) rest)
    ∙ hex_value-high_digits w (n / 16) acc (hex_char (n % 16) ∷ rest) (omega arith)
    ∙ hex_value-digit (acc * 16 ^ w + n / 16) (n % 16) rest (omega arith)
    ∙ ap (λ k. hex_value k rest) (regroup acc (16 ^ w) n ∙ pow acc w n)

-- A number of at most 16 digits is the value of its text.
pub hex_value-hex_text : (n : ℕ) → n < 16 ^ 16 → hex_value 0 (hex_text n) ≡ n
unfolding hex_text
hex_value-hex_text n h =
    let w = hex_width 15 n in
    ap (hex_value 0) (sym (append-nil (map hex_char (high_digits w n))))
    ∙ hex_value-high_digits w n 0 [] (hex_width-bound 15 n h)
    ∙ nothing_left w n
