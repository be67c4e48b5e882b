-- ===== src/Net/Raw/Fold.antt =====
-- The sums behind the checksums of raw packets.
use coding_demo.Base.{
  ℕ, ◌+◌, ◌-◌, ◌*◌, ◌/◌, ◌%◌, ◌^◌, ◌≤◌, ◌<◌, ◌≡◌, ap, sym, ◌∙◌, some, List, [], ◌∷◌, ◌++◌, arith,
  length, All, drop,
}
use mathlib.Core.List.{append-nil}
use coding_demo.Libc.Buffer.{take, take-drop, length-take}
use coding_demo.Net.Raw.{add_words, checksum, csum, check_sum}

-- A sum of words folded to 16 bits.
abbrev pub fold : ℕ → ℕ
fold s = let t = s % 65536 + s / 65536 in t % 65536 + t / 65536

-- The checksum makes the sum fold to ones.
pub fold-add : (s : ℕ) → s + 65536 < 2 ^ 32 → fold (s + (65535 - fold s)) ≡ 65535
fold-add s h = omega arith

pub fold-le : (s : ℕ) → s < 2 ^ 32 → fold s ≤ 65535
fold-le s h = omega arith

pub fold_truncated :
    (s : ℕ)
    → s < 2 ^ 32
    → (s / 65536 + s % 65536 + (s / 65536 + s % 65536) / 65536) % 65536 ≡ fold s
fold_truncated s h = omega arith

-- The sum of the words of a packet, a last single byte being the low half of a word.
abbrev pub word_sum : List ℕ → ℕ
word_sum [] = 0
word_sum (a ∷ []) = a
word_sum (a ∷ b ∷ xs) = a + 256 * b + word_sum xs

abbrev pub IsBytes : List ℕ → Type 0
IsBytes = All (λ b. b < 256)

pub word_sum-bound : (xs : List ℕ) → IsBytes xs → 2 * word_sum xs ≤ 65535 * (length xs + 1)
word_sum-bound [] h = omega arith
word_sum-bound (a ∷ []) h = omega arith
word_sum-bound (a ∷ b ∷ xs) h = omega (arith, word_sum-bound xs h.1.1)

pub add_words_lem :
    (m : ℕ) (xs rest : List ℕ) (sum : ℕ)
    → sum + word_sum xs < m
    → add_words m (xs ++ rest) (length xs) sum ≡ some (sum + word_sum xs)
unfolding add_words
add_words_lem m [] [] sum h = ap some (omega arith)
add_words_lem m [] (r ∷ rest) sum h = ap some (omega arith)
add_words_lem m (a ∷ []) rest sum h =
    let small : (sum + a) % m ≡ sum + a = grind arith in ap some small
add_words_lem m (a ∷ b ∷ xs) rest sum h =
    let small : (sum + (a + 256 * b)) % m ≡ sum + (a + 256 * b) = grind arith in
    rw small (add_words_lem m xs rest (sum + (a + 256 * b)) (omega arith) ∙ ap some (omega arith))

pub checksum_lem :
    (xs rest : List ℕ)
    → word_sum xs < 2 ^ 32
    → checksum (xs ++ rest) (length xs) ≡ some (65535 - fold (word_sum xs))
unfolding checksum
checksum_lem xs rest h =
    let run = add_words_lem (2 ^ 64) xs rest 0 (omega arith) in rw run (ap some (omega arith))

pub csum_lem :
    (xs rest : List ℕ) (nwords : ℕ)
    → length xs ≡ 2 * nwords
    → word_sum xs < 2 ^ 32
    → csum (xs ++ rest) nwords ≡ some (65535 - fold (word_sum xs))
unfolding csum
csum_lem xs rest nwords e h =
    let run = add_words_lem (2 ^ 64) xs rest 0 (omega arith) in
    rw (← e, run) (ap some (omega arith))

-- The words that lie within an array: the rest does not count.
pub csum_prefix :
    (xs : List ℕ) (nwords : ℕ)
    → 2 * nwords ≤ length xs
    → word_sum (take (2 * nwords) xs) < 2 ^ 32
    → csum xs nwords ≡ some (65535 - fold (word_sum (take (2 * nwords) xs)))
csum_prefix xs nwords inside h =
    ap (λ ys. csum ys nwords) (sym (take-drop (2 * nwords) xs))
    ∙ csum_lem (take (2 * nwords) xs) (drop (2 * nwords) xs) nwords
        (length-take (2 * nwords) xs inside) h

pub check_sum_lem :
    (xs rest : List ℕ) (sum : ℕ)
    → sum + word_sum xs < 2 ^ 32
    → check_sum (xs ++ rest) (length xs) sum ≡ some (65535 - fold (sum + word_sum xs))
unfolding check_sum
check_sum_lem xs rest sum h =
    let run = add_words_lem (2 ^ 32) xs rest sum (omega arith) in rw run (ap some (omega arith))

-- The three checksums of the same words agree, where the sum fits in 32 bits: each is the
-- complement of the sum of the words folded to 16 bits.
checksums_agree :
    (buf : List ℕ) (nwords : ℕ)
    → length buf ≡ 2 * nwords
    → word_sum buf < 2 ^ 32
    → (checksum buf (2 * nwords) ≡ some (65535 - fold (word_sum buf)))
      × (csum buf nwords ≡ some (65535 - fold (word_sum buf)))
      × (check_sum buf (2 * nwords) 0 ≡ some (65535 - fold (word_sum buf)))
checksums_agree buf nwords e h =
    let whole = append-nil buf in
    let start : 0 + word_sum buf ≡ word_sum buf = omega arith in
    let a = checksum_lem buf [] h in
    let b = csum_lem buf [] nwords e h in
    let c = check_sum_lem buf [] 0 (omega arith) in
    (rw (whole, e) at a, rw whole at b, rw (whole, e, start) at c)
