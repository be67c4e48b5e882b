-- ===== src/Dpdk/Int2str/Fields.antt =====
-- The table of InitU16StrMap, and a field that APPFMT_U16ToBuf writes from it.
use coding_demo.Base.{
  ℕ, zero, suc, ◌+◌, ◌≡◌, refl, ap, sym, ◌∙◌, some, List, [], ◌∷◌, ◌++◌, arith, ltb, length,
  length-append, length-drop, drop, drop-drop, get_elem?, set, ◌<◌, ◌≤◌, true, false, Returns, pos,
}
use mathlib.Core.Path.{subst}
use mathlib.Core.List.{append_assoc}
use coding_demo.Libc.Buffer.{
  take, take-all, take-drop, length-take, write_at, write_at-zero, write_at-append, length-write_at,
}
use coding_demo.Libc.Decimal.{decimal, length-decimal}
use coding_demo.Libc.Number.{strtol, strtol-decimal_rest}
use coding_demo.Dpdk.Int2str.{
  delimiter, put_byte, store, U16Map, init_from, init_u16_str_map, u16_to_buf,
}

-- The entry for a number: its text and a NUL stand at the start of the eight bytes.
pub record IsEntry (n : ℕ) (e : U16Map) : Type 0 where
  pub counted : e.str_len ≡ length (decimal n)
  pub rest : List ℕ
  pub shape : e.text ≡ decimal n ++ 0 ∷ rest
  pub size : length e.text ≡ 8

-- `snprintf(buf, 8, "%u", i)`, and the entry that is taken from `buf`.
abbrev printed : ℕ → List ℕ → List ℕ
printed i buf = write_at buf 0 (take 7 (decimal i) ++ 0 ∷ [])

printed-IsEntry :
    (i : ℕ) (buf : List ℕ)
    → i < 65536
    → length buf ≡ 8
    → IsEntry i (record { str_len = length (decimal i); text = printed i buf })
printed-IsEntry i buf lt size =
    let few = length-decimal 5 i (omega arith) (omega arith) in
    let text = decimal i ++ 0 ∷ [] in
    let len = length-append (decimal i) (0 ∷ []) in
    let whole : take 7 (decimal i) ++ 0 ∷ [] ≡ text =
      ap (λ ys. ys ++ 0 ∷ []) (take-all 7 (decimal i) (omega arith)) in
    record {
      counted = refl;
      rest = drop (length text) buf;
      shape =
          ap (write_at buf 0) whole
          ∙ write_at-zero buf text (omega arith)
          ∙ append_assoc (decimal i) (0 ∷ []) (drop (length text) buf);
      size = length-write_at buf 0 (take 7 (decimal i) ++ 0 ∷ []) ∙ size;
    }

init_from-IsEntry :
    (count i j : ℕ) (buf : List ℕ)
    → j < count
    → i + count ≤ 65536
    → length buf ≡ 8
    → Returns (get_elem? (init_from count i buf) j) (IsEntry (i + j))
unfolding init_from
init_from-IsEntry zero i j buf lt le size = absurd (omega arith)
init_from-IsEntry (suc count) i zero buf lt le size =
    let start : i ≡ i + 0 = omega arith in
    let e : U16Map = record { str_len = length (decimal i); text = printed i buf } in
    (e, refl, subst (λ n. IsEntry n e) start (printed-IsEntry i buf (omega arith) size))
init_from-IsEntry (suc count) i (suc j) buf lt le size =
    let step : i + 1 + j ≡ i + suc j = omega arith in
    let (e, found, right) =
      init_from-IsEntry count (i + 1) j (printed i buf) (omega arith) (omega arith)
        (length-write_at buf 0 (take 7 (decimal i) ++ 0 ∷ []) ∙ size) in
    (e, found, subst (λ n. IsEntry n e) step right)

-- InitU16StrMap gives each number below 65536 its text.
init_u16_str_map-IsEntry :
    (n : ℕ) (buf : List ℕ)
    → n < 65536
    → length buf ≡ 8
    → Returns (get_elem? (init_u16_str_map buf) n) (IsEntry n)
unfolding init_u16_str_map
init_u16_str_map-IsEntry n buf lt size =
    let start : 0 + n ≡ n = omega arith in
    let (e, found, right) = init_from-IsEntry 65536 0 n buf lt (omega arith) size in
    (e, found, subst (λ k. IsEntry k e) start right)

set-append : (xs ys : List ℕ) (y v n : ℕ) → n ≡ length xs → set (xs ++ y ∷ ys) n v ≡ xs ++ v ∷ ys
set-append [] ys y v zero h = refl
set-append [] ys y v (suc n) h = absurd (omega arith)
set-append (x ∷ xs) ys y v zero h = absurd (omega arith)
set-append (x ∷ xs) ys y v (suc n) h = ap (λ zs. x ∷ zs) (set-append xs ys y v n (omega arith))

drop-append : (xs ys : List ℕ) (n : ℕ) → n ≡ length xs → drop n (xs ++ ys) ≡ ys
drop-append [] ys zero h = refl
drop-append [] ys (suc n) h = absurd (omega arith)
drop-append (x ∷ xs) ys zero h = absurd (omega arith)
drop-append (x ∷ xs) ys (suc n) h = drop-append xs ys n (omega arith)

-- The eight bytes of an entry over those of an array.
entry-written :
    (n at_pos : ℕ) (e : U16Map) (dst : List ℕ)
    → (v : IsEntry n e) → at_pos + 8 ≤ length dst
    → write_at dst at_pos e.text
      ≡ take at_pos dst ++ (decimal n ++ 0 ∷ (v.rest ++ drop (at_pos + 8) dst))
entry-written n at_pos e dst v room =
    let len = length-take at_pos dst (omega arith) in
    let end = drop at_pos dst in
    ap (λ d. write_at d at_pos e.text) (sym (take-drop at_pos dst))
    ∙ ap (λ k. write_at (take at_pos dst ++ end) k e.text) (sym len)
    ∙ write_at-append (take at_pos dst) end e.text
    ∙ ap (λ ys. take at_pos dst ++ ys)
        (write_at-zero end e.text (omega (arith, v.size, length-drop at_pos dst))
          ∙ ap (λ k. e.text ++ drop k end) v.size
          ∙ ap (λ ys. e.text ++ ys) (drop-drop 8 at_pos dst)
          ∙ ap (λ ys. ys ++ drop (at_pos + 8) dst) v.shape
          ∙ append_assoc (decimal n) (0 ∷ v.rest) (drop (at_pos + 8) dst))

-- With the table of InitU16StrMap, and eight bytes left in the array, a field is the decimal text
-- of the number and the delimiter; the place moves behind it, nothing before it and nothing behind
-- its eight bytes changes, and the text is read back as the number.
pub u16_to_buf_lem :
    (n at_pos : ℕ) (buf dst : List ℕ)
    → n < 65536
    → length buf ≡ 8
    → at_pos + 8 ≤ length dst
    → Returns (u16_to_buf (init_u16_str_map buf) n dst at_pos) λ r.
      ((rest : List ℕ) × (length (decimal n) + 1 + length rest ≡ 8)
        × (r.0 ≡ take at_pos dst ++ (decimal n ++ delimiter ∷ (rest ++ drop (at_pos + 8) dst))))
      × (r.1 ≡ at_pos + length (decimal n) + 1)
      × ((strtol (drop at_pos r.0)).0 ≡ pos n)
unfolding u16_to_buf store put_byte
u16_to_buf_lem n at_pos buf dst lt size room =
    let (e, found, v) = init_u16_str_map-IsEntry n buf lt size in
    let len = length-take at_pos dst (omega arith) in
    let few = length-decimal 5 n (omega arith) (omega arith) in
    let pre = take at_pos dst ++ decimal n in
    let pre_len : at_pos + e.str_len ≡ length pre =
      omega (arith, v.counted, len, length-append (take at_pos dst) (decimal n)) in
    let end = v.rest ++ drop (at_pos + 8) dst in
    let out = take at_pos dst ++ (decimal n ++ delimiter ∷ end) in
    let stores : ltb (length dst) (at_pos + length e.text) ≡ false = ground (arith, v.size) in
    let inside : ltb (at_pos + e.str_len) (length (write_at dst at_pos e.text)) ≡ true =
      ground (arith, v.counted, length-write_at dst at_pos e.text) in
    let final : set (write_at dst at_pos e.text) (at_pos + e.str_len) delimiter ≡ out =
      ap (λ d. set d (at_pos + e.str_len) delimiter)
        (entry-written n at_pos e dst v room
          ∙ sym (append_assoc (take at_pos dst) (decimal n) (0 ∷ end)))
      ∙ set-append pre end 0 delimiter (at_pos + e.str_len) pre_len
      ∙ append_assoc (take at_pos dst) (decimal n) (delimiter ∷ end) in
    (
      (out, at_pos + e.str_len + 1),
      rw (found, stores, inside) (ap (λ d. some (d, at_pos + e.str_len + 1)) final),
      (
        (
          v.rest,
          omega (arith, v.size, ap length v.shape, length-append (decimal n) (0 ∷ v.rest)),
          refl,
        ),
        ap (λ k. at_pos + k + 1) v.counted,
        ap (λ ys. (strtol ys).0)
              (drop-append (take at_pos dst) (decimal n ++ delimiter ∷ end) at_pos (sym len))
            ∙ ap (λ r. r.0) (strtol-decimal_rest n delimiter end (omega arith) refl),
      ),
    )
