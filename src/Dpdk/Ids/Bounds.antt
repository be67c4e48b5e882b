-- ===== src/Dpdk/Ids/Bounds.antt =====
-- The array that get_ids fills, and its bounds.
use coding_demo.Base.{
  All, ◌-◌, ◌^◌, ℕ, zero, suc, ◌+◌, ◌≤◌, ◌<◌, ◌≡◌, refl, ◌∙◌, true, false, Option, none, some, List,
  [], ◌∷◌, ltb, ◌==◌, length, length-set, set, drop, ℤ, pos, negsuc, arith, Returns, Bool-cases,
  inl, inr, ◌⊎◌,
}
use coding_demo.Libc.Scan.{tokens, scan_u}
use coding_demo.Dpdk.Ids.{
  signed32, le_int, next_int, Ids, fail, put_id, put_range, dashes, scan_range, put_single,
  put_scanned, put_token, put_tokens, get_ids,
}

-- What holds of the array while it is filled: its size, what stands behind its first `arr_len`
-- elements, and that the index is among them or right behind.
pub record InBounds (arr : List ℤ) (arr_len : ℕ) (s : Ids) : Type 0 where
  pub size : length s.arr ≡ length arr
  pub beyond : drop arr_len s.arr ≡ drop arr_len arr
  pub at_most : s.index ≤ arr_len

drop-set : (n i : ℕ) (xs : List ℤ) (v : ℤ) → i < n → drop n (set xs i v) ≡ drop n xs
drop-set zero i xs v h = absurd (omega arith)
drop-set (suc n) i [] v h = refl
drop-set (suc n) zero (x ∷ xs) v h = refl
drop-set (suc n) (suc i) (x ∷ xs) v h = drop-set n i xs v (omega arith)

-- A number below the greatest `int`.
abbrev pub IsBelow : ℤ → Type 0
IsBelow max = le_int max (pos (2 ^ 31 - 2)) ≡ true

next_int-below : (i max : ℤ) → le_int i max ≡ true → IsBelow max → (j : ℤ) × (next_int i ≡ some j)
next_int-below (negsuc zero) max le low = (pos 0, refl)
next_int-below (negsuc (suc n)) max le low = (negsuc n, refl)
next_int-below (pos n) (negsuc m) le low = absurd (ground arith)
next_int-below (pos n) (pos m) le low =
    let small : ltb n (2 ^ 31 - 1) ≡ true = ground arith in (pos (n + 1), rw small refl)

-- A range, where the token is one, does not end in the greatest `int`, which the loop cannot pass.
abbrev pub EndsBelow : Option (ℕ × ℕ) → Type 0
EndsBelow none = Unit
EndsBelow (some (min, max)) = IsBelow (signed32 max)

module _ (arr : List ℤ) (arr_len : ℕ) (fits : arr_len ≤ length arr) where
  pub put_id-InBounds :
      (i : ℤ) (s : Ids)
      → InBounds arr arr_len s
      → s.index < arr_len
      → Returns (put_id i s) λ s'. InBounds arr arr_len s' × (s'.index ≡ s.index + 1)
  unfolding put_id
  put_id-InBounds i s v lt =
      let inside : ltb s.index (length s.arr) ≡ true = ground (arith, v.size) in
      (
        record s { arr = set s.arr s.index i; index = s.index + 1 },
        rw inside refl,
        (
          record {
            size = length-set s.arr s.index i ∙ v.size;
            beyond = drop-set arr_len s.index s.arr i lt ∙ v.beyond;
            at_most = omega arith;
          },
          refl,
        ),
      )

  fail-InBounds : (s : Ids) → InBounds arr arr_len s → InBounds arr arr_len (fail s)
  fail-InBounds s v = record { size = v.size; beyond = v.beyond; at_most = v.at_most }

  put_range-InBounds :
      (fuel : ℕ) (i max : ℤ) (s : Ids)
      → IsBelow max
      → InBounds arr arr_len s
      → arr_len < s.index + fuel
      → Returns (put_range fuel arr_len i max s) (InBounds arr arr_len)
  unfolding put_range
  put_range-InBounds zero i max s low v enough = absurd (omega (arith, v.at_most))
  put_range-InBounds (suc fuel) i max s low v enough = elim (Bool-cases (le_int i max)) [
    | inl more ↦ elim (Bool-cases (ltb arr_len (s.index + 1))) [
      | inl full ↦ (fail s, rw (more, full) refl, fail-InBounds s v)
      | inr room ↦
          let (s1, put, w) = put_id-InBounds i s v (ground arith) in
          let (j, next) = next_int-below i max more low in
          let (s2, run, u) = put_range-InBounds fuel j max s1 low w.0 (omega (arith, w.1)) in
          (s2, rw (more, room, put, next) run, u)
    ]
    | inr done ↦ (s, rw done refl, v)
  ]

  put_single-InBounds :
      (o : Option (ℕ × List ℕ)) (s : Ids)
      → InBounds arr arr_len s
      → Returns (put_single arr_len o s) (InBounds arr arr_len)
  put_single-InBounds o s v = elim (Bool-cases (ltb arr_len (s.index + 1))) [
    | inl full ↦ (fail s, rw full refl, fail-InBounds s v)
    | inr room ↦ by_scan o (ground arith) room
  ]
    where
      by_scan :
          (o : Option (ℕ × List ℕ))
          → s.index < arr_len
          → ltb arr_len (s.index + 1) ≡ false
          → Returns (put_single arr_len o s) (InBounds arr arr_len)
      by_scan none lt room = (
        fail (record s { index = s.index + 1 }),
        rw room refl,
        record { size = v.size; beyond = v.beyond; at_most = omega arith },
      )
      by_scan (some (n, rest)) lt room =
          let (s1, put, w) = put_id-InBounds (signed32 n) s v lt in (s1, rw room put, w.0)

  put_scanned-InBounds :
      (o : Option (ℕ × ℕ)) (s : Ids)
      → EndsBelow o
      → InBounds arr arr_len s
      → Returns (put_scanned arr_len o s) (InBounds arr arr_len)
  put_scanned-InBounds none s low v = (fail s, refl, fail-InBounds s v)
  put_scanned-InBounds (some (min, max)) s low v =
      elim (Bool-cases (le_int (signed32 max) (signed32 min))) [
        | inl empty ↦ (fail s, rw empty refl, fail-InBounds s v)
        | inr range ↦
            let (s1, put, w) =
              put_range-InBounds (suc arr_len) (signed32 min) (signed32 max) s low v
                (omega arith) in
            (s1, rw range put, w)
      ]

  put_token-InBounds :
      (over : ℕ → ℕ) (c : List ℕ) (s : Ids)
      → EndsBelow (scan_range over c)
      → InBounds arr arr_len s
      → Returns (put_token over arr_len c s) (InBounds arr arr_len)
  unfolding put_token
  put_token-InBounds over c s low v = elim (Bool-cases (dashes c == 0)) [
    | inl single ↦
        let (s1, put, w) = put_single-InBounds (scan_u over c) s v in (s1, rw single put, w)
    | inr dashed ↦ elim (Bool-cases (ltb 1 (dashes c))) [
      | inl many ↦ (fail s, rw (dashed, many) refl, fail-InBounds s v)
      | inr range ↦
          let (s1, put, w) = put_scanned-InBounds (scan_range over c) s low v in
          (s1, rw (dashed, range) put, w)
    ]
  ]

  put_tokens-InBounds :
      (over : ℕ → ℕ) (cs : List (List ℕ)) (s : Ids)
      → All (λ c. EndsBelow (scan_range over c)) cs
      → InBounds arr arr_len s
      → Returns (put_tokens over arr_len cs s) (InBounds arr arr_len)
  unfolding put_tokens
  put_tokens-InBounds over [] s low v = (s, refl, v)
  put_tokens-InBounds over (c ∷ cs) s low v =
      let (s1, put, w) = put_token-InBounds over c s low.0 v in
      elim (Bool-cases s1.failed) [
        | inl stop ↦ (s1, rw (put, stop) refl, w)
        | inr go ↦
            let (s2, run, u) = put_tokens-InBounds over cs s1 low.1 w in (s2, rw (put, go) run, u)
      ]

  -- For an array that holds `arr_len` elements, and any text in which no range ends in 2 ^ 31 - 1,
  -- get_ids returns, the array keeps its size and what stands behind the first `arr_len` elements,
  -- and the number of ids is at most `arr_len`, and 0 if it fails.
  pub get_ids-InBounds :
      (over : ℕ → ℕ) (text : List ℕ)
      → All (λ c. EndsBelow (scan_range over c)) (tokens [] text)
      → Returns (get_ids over text arr arr_len) λ out.
        (length out.2 ≡ length arr)
        × (drop arr_len out.2 ≡ drop arr_len arr)
        × (out.1 ≤ arr_len)
        × ((out.0 ≡ pos 0) ⊎ ((out.0 ≡ negsuc 0) × (out.1 ≡ 0)))
  unfolding get_ids
  get_ids-InBounds over text low =
      let (s, run, v) =
        put_tokens-InBounds over (tokens [] text) (record { arr = arr; index = 0; failed = false })
          low (record { size = refl; beyond = refl; at_most = omega arith }) in
      elim (Bool-cases s.failed) [
        | inl bad ↦ (
          (negsuc 0, 0, s.arr),
          rw (run, bad) refl,
          (v.size, v.beyond, omega arith, inr (refl, refl)),
        )
        | inr good ↦
            ((pos 0, s.index, s.arr), rw (run, good) refl, (v.size, v.beyond, v.at_most, inl refl))
      ]
