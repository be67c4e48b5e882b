-- ===== src/Dpdk/Ids.antt =====
-- C/dpdk/get_ids.c: a list of numbers and ranges, "2,3-8", read into an array. What "%u" stores for
-- a number beyond `unsigned int` is an argument; `strdup` succeeds.
pub mod Bounds
pub mod RoundTrip
mod Tests
use coding_demo.Base.{
  ℕ, zero, suc, ◌+◌, ◌-◌, ◌^◌, Bool, true, false, Option, none, some, List, [], ◌∷◌, ltb, leb, ◌==◌,
  if◌then◌else◌, length, set, ◌>>=◌, ℤ, pos, negsuc,
}
use coding_demo.Libc.Scan.{tokens, scan_u, scan_dash}

-- A bit pattern as an `int`.
abbrev pub signed32 : ℕ → ℤ
signed32 w = if ltb w (2 ^ 31) then pos w else negsuc (2 ^ 32 - w - 1)

abbrev pub le_int : ℤ → ℤ → Bool
le_int (pos a) (pos b) = leb a b
le_int (pos a) (negsuc b) = false
le_int (negsuc a) (pos b) = true
le_int (negsuc a) (negsuc b) = leb b a

-- `i++` on an `int`: the greatest one has no next, which is undefined behaviour.
abbrev pub next_int : ℤ → Option ℤ
next_int (pos n) = if ltb n (2 ^ 31 - 1) then some (pos (n + 1)) else none
next_int (negsuc zero) = some (pos 0)
next_int (negsuc (suc n)) = some (negsuc n)

-- `arr` and `index`, and whether the code has gone to `fail`.
pub record Ids : Type 0 where
  pub arr : List ℤ
  pub index : ℕ
  pub failed : Bool

abbrev pub fail : Ids → Ids
fail s = record s { failed = true }

-- `arr[index++] = i`; a write past the array is a fault.
unfoldable pub put_id : ℤ → Ids → Option Ids
put_id i s =
    if ltb s.index (length s.arr)
    then some (record s { arr = set s.arr s.index i; index = s.index + 1 })
    else none

-- `for (i = min; i <= max; i++)`, on fuel: a round fails or takes an element.
unfoldable pub put_range : ℕ → ℕ → ℤ → ℤ → Ids → Option Ids
unfolding put_id
put_range zero arr_len i max s = none
put_range (suc fuel) arr_len i max s =
    let rest = put_id i s >>= λ s. next_int i >>= λ i. put_range fuel arr_len i max s in
    if le_int i max then (if ltb arr_len (s.index + 1) then some (fail s) else rest) else some s

-- `strchr` and `strrchr`: how many dashes the token has.
unfoldable pub dashes : List ℕ → ℕ
dashes [] = 0
dashes (c ∷ s) = (if c == b'-' then 1 else 0) + dashes s

-- `sscanf(c, "%u-%u", &min, &max)`, where it returns 2.
unfoldable pub scan_range : (ℕ → ℕ) → List ℕ → Option (ℕ × ℕ)
unfolding scan_u
scan_range over c = scan_u over c >>= λ first.
    scan_dash first.1 >>= λ rest. scan_u over rest >>= λ second. some (first.0, second.0)

abbrev pub put_scanned : ℕ → Option (ℕ × ℕ) → Ids → Option Ids
put_scanned arr_len none s = some (fail s)
put_scanned arr_len (some (min, max)) s =
    if le_int (signed32 max) (signed32 min)
    then some (fail s)
    else put_range (suc arr_len) arr_len (signed32 min) (signed32 max) s

abbrev pub put_single : ℕ → Option (ℕ × List ℕ) → Ids → Option Ids
put_single arr_len scanned s = if ltb arr_len (s.index + 1) then some (fail s) else elim scanned [
  | none ↦ some (fail (record s { index = s.index + 1 }))
  | some (n, rest) ↦ put_id (signed32 n) s
]

-- The body of the loop, for a token.
unfoldable pub put_token : (ℕ → ℕ) → ℕ → List ℕ → Ids → Option Ids
unfolding dashes scan_range put_range put_id scan_u
put_token over arr_len c s =
    if dashes c == 0
    then put_single arr_len (scan_u over c) s
    else if ltb 1 (dashes c)
    then some (fail s)
    else put_scanned arr_len (scan_range over c) s

unfoldable pub put_tokens : (ℕ → ℕ) → ℕ → List (List ℕ) → Ids → Option Ids
unfolding put_token
put_tokens over arr_len [] s = some s
put_tokens over arr_len (c ∷ cs) s = put_token over arr_len c s >>= λ s'.
    if s'.failed then some s' else put_tokens over arr_len cs s'

-- The value that is returned, `*len`, and the array.
unfoldable pub get_ids : (ℕ → ℕ) → List ℕ → List ℤ → ℕ → Option (ℤ × ℕ × List ℤ)
unfolding put_tokens tokens
get_ids over s arr arr_len =
    put_tokens over arr_len (tokens [] s) (record { arr = arr; index = 0; failed = false })
    >>= λ s'. some (if s'.failed then (negsuc 0, 0, s'.arr) else (pos 0, s'.index, s'.arr))
