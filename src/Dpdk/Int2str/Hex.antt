-- ===== src/Dpdk/Int2str/Hex.antt =====
-- Int2Hex against `sprintf` with "%X", which Int2Hex2 uses.
use coding_demo.Base.{
  ℕ, zero, suc, ◌+◌, ◌/◌, ◌%◌, ◌^◌, ◌≡◌, refl, ap, ◌∙◌, Option, none, some, List, [], ◌∷◌, ◌++◌,
  arith, ltb, ◌==◌, length, length-append, Bool-cases, inl, inr, ◌<◌, ◌≤◌, map, ◌>>=◌, get_elem?,
  set, length-set, All, All-append, pos, Bool, true, false, ◌&&◌,
}
use native.Mathlib.Numerals.{add-one}
use mathlib.Core.List.{reverse, reverse-cons}
use coding_demo.Libc.Buffer.{write_at, write_at-nil}
use coding_demo.Libc.Hex.{hex_char, high_digits, hex_width, hex_text, hex_value, hex_value-hex_text}
use coding_demo.Dpdk.Int2str.{hex_array, split_digits, put_digits, int2hex, int2hex2}

-- The last `w` digits from the last one on.
abbrev low_digits : ℕ → ℕ → List ℕ
low_digits zero n = []
low_digits (suc w) n = n % 16 ∷ low_digits w (n / 16)

reverse-low_digits : (w n : ℕ) → reverse (low_digits w n) ≡ high_digits w n
unfolding high_digits
reverse-low_digits zero n = refl
reverse-low_digits (suc w) n =
    reverse-cons (n % 16) (low_digits w (n / 16))
    ∙ ap (λ ys. ys ++ n % 16 ∷ []) (reverse-low_digits w (n / 16))

split_digits-zero : (room : ℕ) → split_digits room 0 ≡ some []
unfolding split_digits
split_digits-zero zero = refl
split_digits-zero (suc room) = refl

split_digits_lem :
    (fuel n : ℕ)
    → 0 < n
    → n < 16 ^ suc fuel
    → split_digits (suc fuel) n ≡ some (low_digits (hex_width fuel n) n)
unfolding split_digits hex_width
split_digits_lem zero n lo hi =
    let one_digit : n / 16 ≡ 0 = omega arith in
    let more : (n == 0) ≡ false = ground arith in rw (one_digit, more) refl
split_digits_lem (suc fuel) n lo hi = elim (Bool-cases (ltb n 16)) [
  | inl small ↦
      let last : n / 16 ≡ 0 = ground arith in
      let more : (n == 0) ≡ false = ground arith in rw (small, more, last) refl
  | inr large ↦
      let more : (n == 0) ≡ false = ground arith in
      rw (large, more, split_digits_lem fuel (n / 16) (ground arith) (omega arith)) refl
]

write_at-set :
    (dst : List ℕ) (i c : ℕ) (cs : List ℕ)
    → write_at (set dst i c) (suc i) cs ≡ write_at dst i (c ∷ cs)
unfolding write_at
write_at-set [] i c cs = refl
write_at-set (d ∷ dst) zero c cs = refl
write_at-set (d ∷ dst) (suc i) c cs = ap (λ ys. d ∷ ys) (write_at-set dst i c cs)

-- What stands at an index below 16 of the table.
is_hex_char : ℕ → Option ℕ → Bool
is_hex_char m none = false
is_hex_char m (some c) = c == hex_char m

table_right : ℕ → Bool
unfolding is_hex_char
table_right zero = true
table_right (suc n) = is_hex_char n (get_elem? hex_array n) && table_right n

table_right-at :
    (n m : ℕ) → table_right n ≡ true → m < n → is_hex_char m (get_elem? hex_array m) ≡ true
unfolding table_right
table_right-at zero m h lt = absurd (omega arith)
table_right-at (suc n) m h lt = ground (arith, table_right-at n m)

is_hex_char-eq : (m : ℕ) (o : Option ℕ) → is_hex_char m o ≡ true → o ≡ some (hex_char m)
unfolding is_hex_char
is_hex_char-eq m none h = cc
is_hex_char-eq m (some c) h = ap some (ground arith)

hex_array-at : (m : ℕ) → m < 16 → get_elem? hex_array m ≡ some (hex_char m)
unfolding table_right
hex_array-at m lt = is_hex_char-eq m (get_elem? hex_array m) (table_right-at 16 m refl lt)

put_digits_lem :
    (ds dest : List ℕ) (lp : ℕ)
    → All (λ d. d < 16) ds
    → lp + length ds ≤ length dest
    → put_digits hex_array ds dest lp ≡ some (write_at dest lp (map hex_char ds), lp + length ds)
unfolding put_digits
put_digits_lem [] dest lp h room =
    let same : lp + 0 ≡ lp = omega arith in rw (write_at-nil dest lp, same) refl
put_digits_lem (d ∷ ds) dest lp h room =
    let free : ltb lp (length dest) ≡ true = ground arith in
    let c = hex_char d in
    rw (hex_array-at d h.0, free)
      (put_digits_lem ds (set dest lp c) (lp + 1) h.1 (omega (arith, length-set dest lp c))
        ∙ rw (add-one) (
            ap (λ k. some (write_at (set dest lp c) (suc lp) (map hex_char ds), k)) count
            ∙ ap (λ ys. some (ys, lp + suc (length ds)))
                (write_at-set dest lp c (map hex_char ds))))
  where
    count : suc lp + length ds ≡ lp + suc (length ds)
    count = omega arith

high_digits-small : (w n : ℕ) → All (λ d. d < 16) (high_digits w n)
unfolding high_digits
high_digits-small zero n = tt
high_digits-small (suc w) n =
    All-append (λ d. d < 16) (high_digits w (n / 16)) (n % 16 ∷ []) (high_digits-small w (n / 16))
      (omega arith)

length-map : (xs : List ℕ) → length (map hex_char xs) ≡ length xs
length-map [] = refl
length-map (x ∷ xs) = ap suc (length-map xs)

int2hex_lem :
    (num : ℕ) (dest : List ℕ)
    → 0 < num
    → num < 2 ^ 31
    → length (hex_text num) ≤ length dest
    → int2hex hex_array (pos num) dest
      ≡ some (write_at dest 0 (hex_text num), length (hex_text num))
unfolding int2hex hex_text
int2hex_lem num dest lo hi room =
    let w = hex_width 15 num in
    let digits = split_digits_lem 15 num lo (omega arith) in
    let size = length-map (high_digits w num) in
    let put =
      put_digits_lem (high_digits w num) dest 0 (high_digits-small w num) (omega (arith, size)) in
    ap (λ o. o >>= λ digits. put_digits hex_array (reverse digits) dest 0) digits
    ∙ ap (λ ds. put_digits hex_array ds dest 0) (reverse-low_digits w num)
    ∙ put
    ∙ ap (λ k. some (write_at dest 0 (map hex_char (high_digits w num)), k)) (omega (arith, size))

-- For a positive number below 2 ^ 31, into an array with room for its text and a NUL, Int2Hex
-- writes the text that Int2Hex2 prints, without the NUL, and returns the same length; the text read
-- as a hexadecimal number is the number.
pub int2hex-int2hex2 :
    (num : ℕ) (dest : List ℕ)
    → 0 < num
    → num < 2 ^ 31
    → length (hex_text num) < length dest
    → (int2hex hex_array (pos num) dest
        ≡ some (write_at dest 0 (hex_text num), length (hex_text num)))
      × (int2hex2 (pos num) dest
          ≡ some (write_at dest 0 (hex_text num ++ 0 ∷ []), length (hex_text num)))
      × (hex_value 0 (hex_text num) ≡ num)
unfolding int2hex2
int2hex-int2hex2 num dest lo hi room =
    let text = hex_text num in
    let fits : ltb (length dest) (0 + length (text ++ 0 ∷ [])) ≡ false =
      ground (arith, length-append text (0 ∷ [])) in
    (int2hex_lem num dest lo hi (omega arith), rw fits refl, hex_value-hex_text num (omega arith))
