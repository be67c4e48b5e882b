-- ===== src/Libc/Buffer.antt =====
-- Character arrays, C strings and `snprintf`. An array is the list of its bytes.
use Prim.Native.Char.{code}
use Prim.Native.String.{String}
use coding_demo.Base.{
  Bool, ℕ, zero, suc, ◌+◌, ◌-◌, ◌<◌, ◌≤◌, ◌≡◌, refl, ap, sym, ◌∙◌, Option, none, some, List, [],
  ◌∷◌, ◌++◌, arith, ltb, ◌==◌, if◌then◌else◌, length, drop, length-append, length-drop, All,
  Returns, ◌>>=◌,
}
use mathlib.Core.List.{append_assoc}
use native.Mathlib.Numerals.{add-one}

-- The bytes of an ASCII literal.
abbrev pub codes : String → List ℕ
codes String.[] = []
codes (String.◌∷◌ c s) = code c ∷ codes s

abbrev pub take {ℓ} : {A : Type ℓ} → ℕ → List A → List A
take zero xs = []
take (suc n) [] = []
take (suc n) (x ∷ xs) = x ∷ take n xs

-- The bytes of `text` over those of `buf` from `pos` on; what lies past the end is dropped.
unfoldable pub write_at : List ℕ → ℕ → List ℕ → List ℕ
write_at [] pos text = []
write_at (b ∷ buf) (suc pos) text = b ∷ write_at buf pos text
write_at (b ∷ buf) zero [] = b ∷ buf
write_at (b ∷ buf) zero (c ∷ text) = c ∷ write_at buf zero text

-- The C string that an array holds: its bytes up to the first NUL.
unfoldable pub c_string : List ℕ → List ℕ
c_string [] = []
c_string (b ∷ buf) = if b == 0 then [] else b ∷ c_string buf

-- Whether the array has a NUL, so that `strlen` and `printf` stay inside.
unfoldable pub has_end : List ℕ → Bool
has_end buf = ltb (length (c_string buf)) (length buf)

-- `pos += snprintf(buf + pos, sizeof(buf) - pos, "%s", text)`: at most what fits is written, with a
-- NUL behind it, and `pos` grows by the length of the whole text. Where `pos` has passed the end
-- the unsigned size wraps to a huge one, and the write is out of bounds: a fault.
unfoldable pub print_at : List ℕ → List ℕ → ℕ → Option (List ℕ × ℕ)
unfolding write_at
print_at text buf pos =
    let cap = length buf in
    if ltb cap pos
    then none
    else some (
      if pos == cap then buf else write_at buf pos (take (cap - pos - 1) text ++ 0 ∷ []),
      pos + length text,
    )

pub write_at-nil : (buf : List ℕ) (pos : ℕ) → write_at buf pos [] ≡ buf
unfolding write_at
write_at-nil [] pos = refl
write_at-nil (b ∷ buf) zero = refl
write_at-nil (b ∷ buf) (suc pos) = ap (λ r. b ∷ r) (write_at-nil buf pos)

pub length-write_at :
    (buf : List ℕ) (pos : ℕ) (text : List ℕ) → length (write_at buf pos text) ≡ length buf
unfolding write_at
length-write_at [] pos text = refl
length-write_at (b ∷ buf) (suc pos) text = ap suc (length-write_at buf pos text)
length-write_at (b ∷ buf) zero [] = refl
length-write_at (b ∷ buf) zero (c ∷ text) = ap suc (length-write_at buf zero text)

pub write_at-append :
    (pre suf text : List ℕ) → write_at (pre ++ suf) (length pre) text ≡ pre ++ write_at suf 0 text
unfolding write_at
write_at-append [] suf text = refl
write_at-append (b ∷ pre) suf text = ap (λ r. b ∷ r) (write_at-append pre suf text)

-- A write leaves what stands before it.
pub take-write_at :
    (buf : List ℕ) (n : ℕ) (text : List ℕ) → take n (write_at buf n text) ≡ take n buf
unfolding write_at
take-write_at buf zero text = refl
take-write_at [] (suc n) text = refl
take-write_at (b ∷ buf) (suc n) text = ap (λ r. b ∷ r) (take-write_at buf n text)

pub take-append : (xs ys : List ℕ) (n : ℕ) → n ≡ length xs → take n (xs ++ ys) ≡ xs
take-append [] ys zero h = refl
take-append [] ys (suc n) h = absurd (omega arith)
take-append (x ∷ xs) ys zero h = absurd (omega arith)
take-append (x ∷ xs) ys (suc n) h = ap (λ r. x ∷ r) (take-append xs ys n (omega arith))

pub write_at-zero :
    (suf text : List ℕ)
    → length text ≤ length suf
    → write_at suf 0 text ≡ text ++ drop (length text) suf
unfolding write_at
write_at-zero [] [] h = refl
write_at-zero [] (c ∷ text) h = absurd (omega arith)
write_at-zero (b ∷ suf) [] h = refl
write_at-zero (b ∷ suf) (c ∷ text) h = ap (λ r. c ∷ r) (write_at-zero suf text (omega arith))

pub take-all {ℓ} : {A : Type ℓ} (n : ℕ) (xs : List A) → length xs ≤ n → take n xs ≡ xs
take-all zero [] h = refl
take-all zero (x ∷ xs) h = absurd (omega arith)
take-all (suc n) [] h = refl
take-all (suc n) (x ∷ xs) h = ap (λ r. x ∷ r) (take-all n xs (omega arith))

pub take-drop {ℓ} : {A : Type ℓ} (n : ℕ) (xs : List A) → take n xs ++ drop n xs ≡ xs
take-drop zero xs = refl
take-drop (suc n) [] = refl
take-drop (suc n) (x ∷ xs) = ap (λ r. x ∷ r) (take-drop n xs)

pub length-take {ℓ} : {A : Type ℓ} (n : ℕ) (xs : List A) → n ≤ length xs → length (take n xs) ≡ n
length-take zero xs h = refl
length-take (suc n) [] h = absurd (omega arith)
length-take (suc n) (x ∷ xs) h = ap suc (length-take n xs (omega arith))

pub take-add {ℓ} :
    {A : Type ℓ} (xs ys : List A) (n : ℕ) → take (length xs + n) (xs ++ ys) ≡ xs ++ take n ys
take-add [] ys n = let step : 0 + n ≡ n = omega arith in ap (λ k. take k ys) step
take-add (x ∷ xs) ys n =
    let step : suc (length xs) + n ≡ suc (length xs + n) = omega arith in
    ap (λ k. take k (x ∷ (xs ++ ys))) step ∙ ap (λ r. x ∷ r) (take-add xs ys n)

pub take-drop_add {ℓ} :
    {A : Type ℓ} (m n : ℕ) (xs : List A) → take m xs ++ take n (drop m xs) ≡ take (m + n) xs
take-drop_add zero n xs = let start : n ≡ 0 + n = omega arith in ap (λ k. take k xs) start
take-drop_add (suc m) zero [] =
    let step : suc (m + 0) ≡ suc m + 0 = omega arith in ap (λ k. take k []) step
take-drop_add (suc m) (suc n) [] =
    let step : suc (m + suc n) ≡ suc m + suc n = omega arith in ap (λ k. take k []) step
take-drop_add (suc m) n (x ∷ xs) =
    let step : suc (m + n) ≡ suc m + n = omega arith in
    ap (λ r. x ∷ r) (take-drop_add m n xs) ∙ ap (λ k. take k (x ∷ xs)) step

pub All-take {ℓ κ} :
    {A : Type ℓ} (P : A → Type κ) (n : ℕ) (xs : List A) → All P xs → All P (take n xs)
All-take P zero xs h = tt
All-take P (suc n) [] h = tt
All-take P (suc n) (x ∷ xs) h = (h.0, All-take P n xs h.1)

abbrev pub IsText : List ℕ → Type 0
IsText = All (λ c. 0 < c)

pub c_string-append : (pre rest : List ℕ) → IsText pre → c_string (pre ++ 0 ∷ rest) ≡ pre
unfolding c_string
c_string-append [] rest h = refl
c_string-append (c ∷ pre) rest h = ground (arith, c_string-append pre rest h.1)

-- The array holds exactly the string `text`, and `pos` stands at its end.
pub record Holds (cap : ℕ) (text : List ℕ) (buf : List ℕ) (pos : ℕ) : Type 0 where
  pub size : length buf ≡ cap
  pub rest : List ℕ
  pub shape : buf ≡ text ++ 0 ∷ rest
  pub at_end : pos ≡ length text

pub written :
    (text more rest : List ℕ) (size : ℕ)
    → length more ≤ length rest
    → length more ≤ size
    → write_at (text ++ 0 ∷ rest) (length text) (take size more ++ 0 ∷ [])
      ≡ text ++ (more ++ 0 ∷ drop (length more) rest)
written text more rest size room fits = rw (
  take-all size more fits,
  write_at-append text (0 ∷ rest) (more ++ 0 ∷ []),
  write_at-zero (0 ∷ rest) (more ++ 0 ∷ []) (rw (length-append more (0 ∷ [])) (omega arith)),
  length-append more (0 ∷ []),
  add-one,
  append_assoc,
)

-- Printing a text that fits extends the string.
pub print_at-Holds :
    (cap : ℕ) (text more buf : List ℕ) (pos : ℕ)
    → Holds cap text buf pos
    → length text + length more < cap
    → Returns (print_at more buf pos) λ r. Holds cap (text ++ more) r.0 r.1
unfolding print_at
print_at-Holds cap text more buf pos h fits =
    let room : length buf ≡ length text + suc (length h.rest) =
      ap length h.shape ∙ length-append text (0 ∷ h.rest) in
    let new = text ++ (more ++ 0 ∷ drop (length more) h.rest) in
    let step = written text more h.rest (cap - length text - 1) (omega arith) (omega arith) in
    (
      (new, pos + length more),
      ground (arith, room, step),
      record {
        size = omega (
          arith,
          room,
          length-append text (more ++ 0 ∷ drop (length more) h.rest),
          length-append more (0 ∷ drop (length more) h.rest),
          length-drop (length more) h.rest,
        );
        rest = drop (length more) h.rest;
        shape = sym (append_assoc text more _);
        at_end = omega (arith, length-append text more);
      },
    )

-- Whether it fits or not, a print keeps the array's size and advances by the whole text.
pub print_at-size :
    (cap : ℕ) (text more buf : List ℕ) (pos : ℕ)
    → Holds cap text buf pos
    → length text < cap
    → Returns (print_at more buf pos) λ r. (length r.0 ≡ cap) × (r.1 ≡ length text + length more)
unfolding print_at
print_at-size cap text more buf pos h inside = (
  (write_at buf pos (take (length buf - pos - 1) more ++ 0 ∷ []), pos + length more),
  ground (arith, h.size, h.at_end),
  (
    length-write_at buf pos (take (length buf - pos - 1) more ++ 0 ∷ []) ∙ h.size,
    ap (λ n. n + length more) h.at_end,
  ),
)

-- A print at the start replaces whatever the array held.
pub print_at-start :
    (cap : ℕ) (text buf : List ℕ)
    → length buf ≡ cap
    → length text < cap
    → Returns (print_at text buf 0) λ r. Holds cap text r.0 r.1
unfolding print_at
print_at-start cap text buf h fits =
    let n = length-append text (0 ∷ []) in
    let shape : write_at buf 0 (text ++ 0 ∷ []) ≡ text ++ 0 ∷ drop (suc (length text)) buf =
      write_at-zero buf (text ++ 0 ∷ []) (omega arith) ∙ rw (n, append_assoc, add-one) in
    (
      (write_at buf 0 (text ++ 0 ∷ []), 0 + length text),
      ground (arith, take-all (length buf - 0 - 1) text),
      record {
        size = length-write_at buf 0 (text ++ 0 ∷ []) ∙ h;
        rest = drop (suc (length text)) buf;
        shape = shape;
        at_end = omega arith;
      },
    )

-- Read back as a C string, the array gives the text.
pub c_string-Holds :
    (cap : ℕ) (text buf : List ℕ) (pos : ℕ)
    → Holds cap text buf pos
    → IsText text
    → c_string buf ≡ text
c_string-Holds cap text buf pos h t = rw h.shape (c_string-append text h.rest t)

-- A text that passes the end leaves `pos` past the array, and the next print is out of bounds.
pub print_at-fault :
    (text more buf : List ℕ) (pos : ℕ)
    → length buf < pos + length text
    → pos ≤ length buf
    → print_at text buf pos >>= (λ r. print_at more r.0 r.1) ≡ none
unfolding print_at
print_at-fault text more buf pos over inside =
    ground (arith, length-write_at buf pos (take (length buf - pos - 1) text ++ 0 ∷ []))
