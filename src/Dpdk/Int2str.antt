-- ===== src/Dpdk/Int2str.antt =====
-- C/dpdk/int2str: numbers and short strings written into a record whose fields end with '|'. An
-- array is the list of its bytes, a place in it an offset; an access past its end is a fault.
pub mod Copy
pub mod Hex
pub mod Fields
mod Tests
use coding_demo.Base.{
  ℕ, zero, suc, ◌+◌, ◌-◌, ◌/◌, ◌%◌, ◌^◌, Option, none, some, List, [], ◌∷◌, ◌++◌, ltb, ◌==◌,
  if◌then◌else◌, length, get_elem?, set, drop, ◌>>=◌, ℤ, pos, negsuc,
}
use mathlib.Core.List.{reverse}
use coding_demo.Libc.Buffer.{codes, take, write_at}
use coding_demo.Libc.Decimal.{decimal}
use coding_demo.Libc.Hex.{hex_text}

abbrev pub delimiter : ℕ
delimiter = b'|'

-- `*dst++ = c`
unfoldable pub put_byte : ℕ → List ℕ → ℕ → Option (List ℕ × ℕ)
put_byte c dst at_pos =
    if ltb at_pos (length dst) then some (set dst at_pos c, at_pos + 1) else none

-- APPFMT_CharToBuf
unfoldable pub char_to_buf : ℕ → List ℕ → ℕ → Option (List ℕ × ℕ)
unfolding put_byte
char_to_buf src dst at_pos = put_byte src dst at_pos >>= λ r. put_byte delimiter r.0 r.1

-- Bytes copied or stored at once.
unfoldable pub store : List ℕ → List ℕ → ℕ → Option (List ℕ)
store bytes dst at_pos =
    if ltb (length dst) (at_pos + length bytes) then none else some (write_at dst at_pos bytes)

-- A load of `k` bytes at `src + o` and its store at `dst + o`, if `k` is a bit of `n`.
unfoldable pub copy_bit : ℕ → ℕ → List ℕ → List ℕ × ℕ → Option (List ℕ × ℕ)
unfolding store
copy_bit n k src r =
    if n / k % 2 == 1
    then (if ltb (length src) (r.1 + k)
        then none
        else (store (take k (drop r.1 src)) r.0 r.1 >>= λ dst. some (dst, r.1 + k)))
    else some r

-- _APPFMT_ShortStrToBufNoDelim, from the offset 0 of both arrays on.
unfoldable pub short_str_copy : List ℕ → ℕ → List ℕ → Option (List ℕ)
unfolding copy_bit
short_str_copy src n dst = do
  r ← copy_bit n 1 src (dst, 0)
  r ← copy_bit n 2 src r
  r ← copy_bit n 4 src r
  r ← copy_bit n 8 src r
  some r.0

-- APPFMT_ShortStrToBuf at the start of an array.
unfoldable pub short_str_to_buf : List ℕ → ℕ → List ℕ → Option (List ℕ × ℕ)
unfolding short_str_copy put_byte
short_str_to_buf src n dst = short_str_copy src n dst >>= λ dst. put_byte delimiter dst n

-- APPFMT_U16MAP; `text` is the eight bytes of `Str`.
pub record U16Map : Type 0 where
  pub str_len : ℕ
  pub text : List ℕ

abbrev pub u16map_max : ℕ
u16map_max = 65536

-- The loop of InitU16StrMap, `count` entries from `i` on; `buf` has eight bytes.
unfoldable pub init_from : ℕ → ℕ → List ℕ → List U16Map
init_from zero i buf = []
init_from (suc count) i buf =
    let buf = write_at buf 0 (take 7 (decimal i) ++ 0 ∷ []) in
    record { str_len = length (decimal i); text = buf } ∷ init_from count (i + 1) buf

unfoldable pub init_u16_str_map : List ℕ → List U16Map
unfolding init_from
init_u16_str_map buf = init_from u16map_max 0 buf

-- APPFMT_U16ToBuf, and APPFMT_U8ToBuf.
unfoldable pub u16_to_buf : List U16Map → ℕ → List ℕ → ℕ → Option (List ℕ × ℕ)
unfolding store put_byte
u16_to_buf u16map u16 dst at_pos = do
  entry ← get_elem? u16map u16
  dst ← store entry.text dst at_pos
  put_byte delimiter dst (at_pos + entry.str_len)

-- The bit pattern of an `int`.
abbrev pub unsigned32 : ℤ → ℕ
unsigned32 (pos n) = n
unsigned32 (negsuc n) = 2 ^ 32 - suc n

abbrev pub hex_array : List ℕ
hex_array = codes "0123456789ABCDEF"

-- The first loop of Int2Hex, with `room` elements of `a` left: the digits in the order of `a`.
unfoldable pub split_digits : ℕ → ℕ → Option (List ℕ)
split_digits zero num = if num == 0 then some [] else none
split_digits (suc room) num =
    let rest = split_digits room (num / 16) in
    if num == 0 then some [] else (rest >>= λ digits. some (num % 16 ∷ digits))

-- The second loop, over the digits from the last one on.
unfoldable pub put_digits : List ℕ → List ℕ → List ℕ → ℕ → Option (List ℕ × ℕ)
unfolding put_byte
put_digits hex [] dest lp = some (dest, lp)
put_digits hex (m ∷ digits) dest lp = do
  c ← get_elem? hex m
  r ← put_byte c dest lp
  put_digits hex digits r.0 r.1

unfoldable pub int2hex : List ℕ → ℤ → List ℕ → Option (List ℕ × ℕ)
unfolding split_digits put_digits
int2hex hex (pos num) dest =
    split_digits 16 num >>= λ digits. put_digits hex (reverse digits) dest 0
int2hex hex (negsuc num) dest = some (dest, 0)

-- Int2Hex2: `sprintf` with "%X", which takes the number for an unsigned one.
unfoldable pub int2hex2 : ℤ → List ℕ → Option (List ℕ × ℕ)
unfolding store
int2hex2 num dst =
    let text = hex_text (unsigned32 num) in
    store (text ++ 0 ∷ []) dst 0 >>= λ dst. some (dst, length text)
