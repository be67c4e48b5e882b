-- ===== src/Dpdk/Int2str/Copy.antt =====
-- _APPFMT_ShortStrToBufNoDelim against `memcpy`.
use coding_demo.Base.{
  ℕ, ◌+◌, ◌*◌, ◌/◌, ◌%◌, ◌≡◌, refl, ap, sym, ◌∙◌, some, List, ◌++◌, arith, ltb, ◌==◌, length,
  length-append, length-drop, drop, drop-drop, Bool-cases, inl, inr, ==_iff, ◌≤◌, ◌>>=◌, false,
}
use mathlib.Core.List.{append_assoc}
use coding_demo.Libc.Buffer.{
  take, write_at, write_at-zero, write_at-append, length-take, take-drop_add,
}
use coding_demo.Dpdk.Int2str.{store, copy_bit, short_str_copy}

-- An array whose first `o` bytes have been copied, and this offset.
abbrev copied : List ℕ → List ℕ → ℕ → List ℕ × ℕ
copied src dst o = (take o src ++ drop o dst, o)

length-copied :
    (src dst : List ℕ) (o : ℕ)
    → o ≤ length src
    → o ≤ length dst
    → length (copied src dst o).0 ≡ length dst
length-copied src dst o h k =
    omega (arith, length-append (take o src) (drop o dst), length-take o src h, length-drop o dst)

copy_more :
    (src dst : List ℕ) (o k : ℕ)
    → o + k ≤ length src
    → o + k ≤ length dst
    → write_at (take o src ++ drop o dst) o (take k (drop o src))
      ≡ take (o + k) src ++ drop (o + k) dst
copy_more src dst o k h j =
    let chunk = take k (drop o src) in
    let size = length-take o src (omega arith) in
    let size_k = length-take k (drop o src) (omega (arith, length-drop o src)) in
    ap (λ i. write_at (take o src ++ drop o dst) i chunk) (sym size)
    ∙ write_at-append (take o src) (drop o dst) chunk
    ∙ ap (λ ys. take o src ++ ys)
        (write_at-zero (drop o dst) chunk (omega (arith, size_k, length-drop o dst)))
    ∙ sym (append_assoc (take o src) chunk (drop (length chunk) (drop o dst)))
    ∙ ap (λ ys. ys ++ drop (length chunk) (drop o dst)) (take-drop_add o k src)
    ∙ ap (λ ys. take (o + k) src ++ ys) (ap (λ i. drop i (drop o dst)) size_k ∙ drop-drop k o dst)

one_times : (k : ℕ) → 1 * k ≡ k
one_times k = omega arith

nothing_more : (o k : ℕ) → o + 0 * k ≡ o
nothing_more o k = omega arith

copy_bit_lem :
    (n k : ℕ) (src dst : List ℕ) (o o' : ℕ)
    → o' ≡ o + n / k % 2 * k
    → o' ≤ length src
    → o' ≤ length dst
    → copy_bit n k src (copied src dst o) ≡ some (copied src dst o')
unfolding copy_bit store
copy_bit_lem n k src dst o o' e h j = elim (Bool-cases (n / k % 2 == 1)) [
  | inl bit_set ↦
      let bit = (==_iff (n / k % 2) 1).0 bit_set in
      let next : o' ≡ o + k = e ∙ ap (λ b. o + b * k) bit ∙ ap (λ m. o + m) (one_times k) in
      let size_k = length-take k (drop o src) (omega (arith, length-drop o src)) in
      let loads : ltb (length src) (o + k) ≡ false = ground arith in
      let stores : ltb (length (copied src dst o).0) (o + length (take k (drop o src))) ≡ false =
        ground (arith, size_k, length-copied src dst o) in
      rw (bit_set, loads, stores, next)
        (ap (λ ys. some (ys, o + k)) (copy_more src dst o k (omega arith) (omega arith)))
  | inr clear ↦
      let bit : n / k % 2 ≡ 0 = ground arith in
      let same : o' ≡ o = e ∙ ap (λ b. o + b * k) bit ∙ nothing_more o k in rw (clear, same) refl
]

-- Where both arrays have n % 16 bytes, exactly so many bytes are copied, and the rest of the
-- destination stays: what `memcpy` does with n bytes where n is below 16.
pub short_str_copy_lem :
    (src dst : List ℕ) (n : ℕ)
    → n % 16 ≤ length src
    → n % 16 ≤ length dst
    → short_str_copy src n dst ≡ some (take (n % 16) src ++ drop (n % 16) dst)
unfolding short_str_copy
short_str_copy_lem src dst n h j =
    let o1 = n % 2 in
    let o2 = n % 4 in
    let o3 = n % 8 in
    let first = copy_bit_lem n 1 src dst 0 o1 (omega arith) (omega arith) (omega arith) in
    let second = copy_bit_lem n 2 src dst o1 o2 (omega arith) (omega arith) (omega arith) in
    let third = copy_bit_lem n 4 src dst o2 o3 (omega arith) (omega arith) (omega arith) in
    let fourth = copy_bit_lem n 8 src dst o3 (n % 16) (omega arith) h j in
    ap
      (λ m. m >>= λ r. copy_bit n 2 src r >>= λ r.
        copy_bit n 4 src r >>= λ r. copy_bit n 8 src r >>= λ r. some r.0)
      first
    ∙ ap (λ m. m >>= λ r. copy_bit n 4 src r >>= λ r. copy_bit n 8 src r >>= λ r. some r.0) second
    ∙ ap (λ m. m >>= λ r. copy_bit n 8 src r >>= λ r. some r.0) third
    ∙ ap (λ m. m >>= λ r. some r.0) fourth
