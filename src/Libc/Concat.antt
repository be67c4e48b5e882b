-- ===== src/Libc/Concat.antt =====
-- `strncat`, and `snprintf` with a size of its own.
use coding_demo.Base.{
  ℕ, suc, ◌+◌, ◌-◌, ◌≤◌, ◌<◌, ◌≡◌, ap, sym, ◌∙◌, Option, none, some, List, [], ◌∷◌, ◌++◌, arith,
  ltb, ◌==◌, if◌then◌else◌, length, drop, length-append, length-drop, Returns,
}
use mathlib.Core.List.{append_assoc}
use coding_demo.Libc.Buffer.{
  take, take-all, c_string, write_at, written, Holds, IsText, c_string-Holds,
}

-- `strncat(buf, text, n)`; what passes the end of the array is a fault.
unfoldable pub strncat : List ℕ → List ℕ → ℕ → Option (List ℕ)
strncat buf text n =
    let at_end = length (c_string buf) in
    let more = take n text ++ 0 ∷ [] in
    if ltb (length buf) (at_end + length more) then none else some (write_at buf at_end more)

-- `snprintf(buf + pos, size, "%s", text)`, for a `pos` within the array: what passes its end is a
-- fault.
unfoldable pub snprintf_at : List ℕ → ℕ → ℕ → List ℕ → Option (List ℕ)
snprintf_at buf at_pos size text =
    let out = take (size - 1) text ++ 0 ∷ [] in
    if size == 0
    then some buf
    else if ltb (length buf) (at_pos + length out)
    then none
    else some (write_at buf at_pos out)

-- The array after `more` has been written behind the text.
extended :
    (cap : ℕ) (text more buf : List ℕ) (pos : ℕ)
    → (h : Holds cap text buf pos) → length text + length more < cap
    → Holds cap (text ++ more) (text ++ (more ++ 0 ∷ drop (length more) h.rest)) (pos + length more)
extended cap text more buf pos h fits =
    let room : length buf ≡ length text + suc (length h.rest) =
      ap length h.shape ∙ length-append text (0 ∷ h.rest) in
    record {
      size = omega (
        arith,
        room,
        h.size,
        length-append text (more ++ 0 ∷ drop (length more) h.rest),
        length-append more (0 ∷ drop (length more) h.rest),
        length-drop (length more) h.rest,
      );
      rest = drop (length more) h.rest;
      shape = sym (append_assoc text more _);
      at_end = omega (arith, length-append text more, h.at_end);
    }

length-take-all :
    (n : ℕ) (more : List ℕ) → length more ≤ n → length (take n more ++ 0 ∷ []) ≡ length more + 1
length-take-all n more h = rw (take-all n more h) (length-append more (0 ∷ []))

-- Printing a text that fits in the array and in the size extends the string.
pub snprintf_at-Holds :
    (cap : ℕ) (text more buf : List ℕ) (pos size : ℕ)
    → Holds cap text buf pos
    → length text + length more < cap
    → length more < size
    → Returns (snprintf_at buf pos size more) λ b. Holds cap (text ++ more) b (pos + length more)
unfolding snprintf_at
snprintf_at-Holds cap text more buf pos size h fits small =
    let room : length buf ≡ length text + suc (length h.rest) =
      ap length h.shape ∙ length-append text (0 ∷ h.rest) in
    let step = written text more h.rest (size - 1) (omega (arith, room, h.size)) (omega arith) in
    let n = length-take-all (size - 1) more (omega arith) in
    (
      text ++ (more ++ 0 ∷ drop (length more) h.rest),
      ground (arith, room, h.size, h.at_end, h.shape, step, n),
      extended cap text more buf pos h fits,
    )

-- A text that fits is put behind the string.
pub strncat-Holds :
    (cap : ℕ) (text more buf : List ℕ) (pos n : ℕ)
    → Holds cap text buf pos
    → IsText text
    → length text + length more < cap
    → length more ≤ n
    → Returns (strncat buf more n) λ b. Holds cap (text ++ more) b (pos + length more)
unfolding strncat
strncat-Holds cap text more buf pos n h ok fits small =
    let room : length buf ≡ length text + suc (length h.rest) =
      ap length h.shape ∙ length-append text (0 ∷ h.rest) in
    let step = written text more h.rest n (omega (arith, room, h.size)) small in
    let m = length-take-all n more small in
    let c = c_string-Holds cap text buf pos h ok in
    (
      text ++ (more ++ 0 ∷ drop (length more) h.rest),
      ground (arith, room, h.size, h.at_end, h.shape, step, m, c),
      extended cap text more buf pos h fits,
    )
