-- ===== src/Dpdk/Ids/RoundTrip.antt =====
-- get_ids reads back a list of numbers and ranges.
use coding_demo.Base.{
  ℕ, zero, suc, ◌+◌, ◌-◌, ◌^◌, ◌≤◌, ◌<◌, ◌≡◌, ◌≢◌, refl, ap, sym, ◌∙◌, true, false, some, List, [],
  ◌∷◌, ◌++◌, map, ltb, leb, ◌==◌, length, length-append, set, drop, length-drop, ℤ, pos, arith, All,
  All-append,
}
use mathlib.Core.List.{append_assoc, append-nil}
use coding_demo.Libc.Decimal.{decimal}
use coding_demo.Libc.Number.{IsDigits, decimal-IsDigits, decimal-head}
use coding_demo.Libc.Scan.{
  tokens, with_token, tokens-append, tokens-comma, tokens-nil, scan_u-decimal, scan_u-decimal_rest,
}
use coding_demo.Dpdk.Ids.{
  signed32, Ids, put_id, put_range, dashes, scan_range, put_token, put_tokens, get_ids,
}

-- A number, or a range with its first and its last number.
pub data Item : Type 0 where
  one : ℕ → Item
  range : ℕ → ℕ → Item

abbrev pub item_text : Item → List ℕ
item_text (one n) = decimal n
item_text (range a b) = decimal a ++ b'-' ∷ decimal b

abbrev pub text : List Item → List ℕ
text [] = []
text (x ∷ []) = item_text x
text (x ∷ y ∷ xs) = item_text x ++ b',' ∷ text (y ∷ xs)

abbrev pub upto : ℕ → ℕ → List ℤ
upto zero a = []
upto (suc count) a = pos a ∷ upto count (a + 1)

abbrev pub item_ids : Item → List ℤ
item_ids (one n) = pos n ∷ []
item_ids (range a b) = upto (b - a + 1) a

abbrev pub ids : List Item → List ℤ
ids [] = []
ids (x ∷ xs) = item_ids x ++ ids xs

-- Numbers that an `int` holds, ranges with at least two, which end below the greatest `int`: the
-- loop over a range goes one further.
abbrev pub IsItem : Item → Type 0
IsItem (one n) = n < 2 ^ 31
IsItem (range a b) = (a < b) × (b < 2 ^ 31 - 1)

-- The array with the ids so far.
abbrev filled : List ℤ → List ℤ → Ids
filled arr done = record {
  arr = done ++ drop (length done) arr;
  index = length done;
  failed = false;
}

set-drop :
    (done arr : List ℤ) (k : ℕ) (v : ℤ)
    → length done ≡ k
    → k < length arr
    → set (done ++ drop k arr) k v ≡ (done ++ v ∷ []) ++ drop (suc k) arr
set-drop [] [] k v e h = absurd (omega arith)
set-drop [] (x ∷ arr) zero v e h = refl
set-drop [] (x ∷ arr) (suc k) v e h = absurd (omega arith)
set-drop (d ∷ done) arr zero v e h = absurd (omega arith)
set-drop (d ∷ done) [] (suc k) v e h = absurd (omega arith)
set-drop (d ∷ done) (x ∷ arr) (suc k) v e h =
    ap (λ ys. d ∷ ys) (set-drop done arr k v (omega arith) (omega arith))

upto-length : (count a : ℕ) → length (upto count a) ≡ count
upto-length zero a = refl
upto-length (suc count) a = ap suc (upto-length count (a + 1))

module _ (arr : List ℤ) (arr_len : ℕ) (fits : arr_len ≤ length arr) where
  put_id-filled :
      (i : ℤ) (done : List ℤ)
      → length done < arr_len
      → put_id i (filled arr done) ≡ some (filled arr (done ++ i ∷ []))
  unfolding put_id
  put_id-filled i done h =
      let size = length-append done (drop (length done) arr) in
      let more : length (done ++ i ∷ []) ≡ suc (length done) =
        omega (arith, length-append done (i ∷ [])) in
      let next : length done + 1 ≡ suc (length done) = omega arith in
      let inside : ltb (length done) (length (done ++ drop (length done) arr)) ≡ true =
        ground (arith, size, length-drop (length done) arr) in
      rw (inside, more, next, set-drop done arr (length done) i refl (omega arith)) refl

  put_range-filled :
      (fuel count a b : ℕ) (done : List ℤ)
      → count < fuel
      → a + count ≡ b + 1
      → b < 2 ^ 31 - 1
      → length done + count ≤ arr_len
      → put_range fuel arr_len (pos a) (pos b) (filled arr done)
        ≡ some (filled arr (done ++ upto count a))
  unfolding put_range
  put_range-filled zero count a b done lt e small room = absurd (omega arith)
  put_range-filled (suc fuel) zero a b done lt e small room =
      let end : leb a b ≡ false = ground arith in
      rw end (ap (λ d. some (filled arr d)) (sym (append-nil done)))
  put_range-filled (suc fuel) (suc count) a b done lt e small room =
      let more : leb a b ≡ true = ground arith in
      let free : ltb arr_len (length done + 1) ≡ false = ground arith in
      let next : ltb a (2 ^ 31 - 1) ≡ true = ground arith in
      rw (more, free, put_id-filled (pos a) done (omega arith), next)
        (put_range-filled fuel count (a + 1) b (done ++ pos a ∷ []) (omega arith) (omega arith)
            small (omega (arith, length-append done (pos a ∷ [])))
          ∙ ap (λ d. some (filled arr d)) (append_assoc done (pos a ∷ []) (upto count (a + 1))))

dashes-append : (xs ys : List ℕ) → dashes (xs ++ ys) ≡ dashes xs + dashes ys
unfolding dashes
dashes-append [] ys = omega arith
dashes-append (x ∷ xs) ys = omega (arith, dashes-append xs ys)

dashes-IsDigits : (xs : List ℕ) → IsDigits xs → dashes xs ≡ 0
unfolding dashes
dashes-IsDigits [] h = refl
dashes-IsDigits (c ∷ xs) h = ground (arith, h.0, dashes-IsDigits xs h.1)

no_comma : (xs : List ℕ) → IsDigits xs → All (λ c. c ≢ b',') xs
no_comma [] h = tt
no_comma (c ∷ xs) h = (ground (arith, h.0), no_comma xs h.1)

dashes-range : (a b : ℕ) → dashes (item_text (range a b)) ≡ 1
unfolding dashes
dashes-range a b =
    dashes-append (decimal a) (b'-' ∷ decimal b)
    ∙ omega (
      arith,
      dashes-IsDigits (decimal a) (decimal-IsDigits a),
      dashes-IsDigits (decimal b) (decimal-IsDigits b),
    )

scan_range-range :
    (over : ℕ → ℕ) (a b : ℕ)
    → a < 2 ^ 31
    → b < 2 ^ 31
    → scan_range over (item_text (range a b)) ≡ some (a, b)
unfolding scan_range
scan_range-range over a b ha hb =
    rw
      (
        scan_u-decimal_rest over a b'-' (decimal b) (omega arith) refl,
        scan_u-decimal over b (omega arith),
      )
      refl

signed32-small : (n : ℕ) → n < 2 ^ 31 → signed32 n ≡ pos n
signed32-small n h = ground arith

item_text-no_comma : (x : Item) → All (λ c. c ≢ b',') (item_text x)
item_text-no_comma (one n) = no_comma (decimal n) (decimal-IsDigits n)
item_text-no_comma (range a b) =
    All-append (λ c. c ≢ b',') (decimal a) (b'-' ∷ decimal b)
      (no_comma (decimal a) (decimal-IsDigits a))
      (omega arith, no_comma (decimal b) (decimal-IsDigits b))

with_token-item : (x : Item) (ts : List (List ℕ)) → with_token (item_text x) ts ≡ item_text x ∷ ts
with_token-item (one n) ts = let (c, s, e, d) = decimal-head n in rw e refl
with_token-item (range a b) ts = let (c, s, e, d) = decimal-head a in rw e refl

-- `strtok` takes the list apart.
tokens-text : (items : List Item) → tokens [] (text items) ≡ map item_text items
tokens-text [] = tokens-nil []
tokens-text (x ∷ []) =
    ap (tokens []) (sym (append-nil (item_text x)))
    ∙ tokens-append [] (item_text x) [] (item_text-no_comma x)
    ∙ tokens-nil (item_text x)
    ∙ with_token-item x []
tokens-text (x ∷ y ∷ xs) =
    tokens-append [] (item_text x) (b',' ∷ text (y ∷ xs)) (item_text-no_comma x)
    ∙ tokens-comma (item_text x) (text (y ∷ xs))
    ∙ with_token-item x (tokens [] (text (y ∷ xs)))
    ∙ ap (λ ts. item_text x ∷ ts) (tokens-text (y ∷ xs))

module _ (arr : List ℤ) (arr_len : ℕ) (fits : arr_len ≤ length arr) (over : ℕ → ℕ) where
  put_token-item :
      (x : Item) (done : List ℤ)
      → IsItem x
      → length done + length (item_ids x) ≤ arr_len
      → put_token over arr_len (item_text x) (filled arr done)
        ≡ some (filled arr (done ++ item_ids x))
  unfolding put_token
  put_token-item (one n) done h room =
      let single : (dashes (decimal n) == 0) ≡ true =
        ground (arith, dashes-IsDigits (decimal n) (decimal-IsDigits n)) in
      let free : ltb arr_len (length done + 1) ≡ false = ground arith in
      rw (single, scan_u-decimal over n (omega arith), free, signed32-small n h)
        (put_id-filled arr arr_len fits (pos n) done (omega arith))
  put_token-item (range a b) done h room =
      let one_dash = dashes-range a b in
      let count : length done + (b - a + 1) ≤ arr_len = omega (arith, upto-length (b - a + 1) a) in
      let ascending : leb b a ≡ false = ground (arith, h.0) in
      rw
        (
          one_dash,
          scan_range-range over a b (omega (arith, h.0, h.1)) (omega (arith, h.1)),
          signed32-small a (omega (arith, h.0, h.1)),
          signed32-small b (omega (arith, h.1)),
          ascending,
        )
        (put_range-filled arr arr_len fits (suc arr_len) (b - a + 1) a b done (omega arith)
          (omega (arith, h.0)) h.1 count)

  put_tokens-items :
      (items : List Item) (done : List ℤ)
      → All IsItem items
      → length done + length (ids items) ≤ arr_len
      → put_tokens over arr_len (map item_text items) (filled arr done)
        ≡ some (filled arr (done ++ ids items))
  unfolding put_tokens
  put_tokens-items [] done h room = ap (λ d. some (filled arr d)) (sym (append-nil done))
  put_tokens-items (x ∷ xs) done h room =
      let size = length-append (item_ids x) (ids xs) in
      rw (put_token-item x done h.0 (omega arith)) (
        put_tokens-items xs (done ++ item_ids x) h.1
          (omega (arith, length-append done (item_ids x)))
        ∙ ap (λ d. some (filled arr d)) (append_assoc done (item_ids x) (ids xs)))

  -- A list of numbers below 2 ^ 31 and of ascending ranges that end below 2 ^ 31 - 1, written in
  -- decimal with commas between them, is read back: get_ids returns 0 and the number of ids, and
  -- the array holds exactly the ids in order, and behind them what it held, where all of them fit
  -- in.
  pub get_ids-text :
      (items : List Item)
      → All IsItem items
      → length (ids items) ≤ arr_len
      → get_ids over (text items) arr arr_len
        ≡ some (pos 0, length (ids items), ids items ++ drop (length (ids items)) arr)
  unfolding get_ids
  get_ids-text items h room = rw (tokens-text items, put_tokens-items items [] h (omega arith)) refl
