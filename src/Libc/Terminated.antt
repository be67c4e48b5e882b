-- ===== src/Libc/Terminated.antt =====
-- An array of 1024 bytes whose last one is a NUL, and texts that are written into it.
use coding_demo.Base.{
  ℕ, zero, suc, ◌≤◌, ◌≡◌, refl, true, some, List, [], ◌∷◌, length, get_elem?, arith,
}
use coding_demo.Libc.Buffer.{has_end, c_string, write_at}

pub get_elem?-write_at :
    (buf text : List ℕ) (i : ℕ)
    → length text ≤ i
    → get_elem? (write_at buf 0 text) i ≡ get_elem? buf i
unfolding write_at
get_elem?-write_at [] text i h = refl
get_elem?-write_at (b ∷ buf) [] i h = refl
get_elem?-write_at (b ∷ buf) (c ∷ text) zero h = absurd (omega arith)
get_elem?-write_at (b ∷ buf) (c ∷ text) (suc i) h = get_elem?-write_at buf text i (omega arith)

length-c_string : (buf : List ℕ) (i : ℕ) → get_elem? buf i ≡ some 0 → length (c_string buf) ≤ i
unfolding c_string
length-c_string [] i h = omega arith
length-c_string (b ∷ buf) zero h = ground arith
length-c_string (b ∷ buf) (suc i) h = ground (arith, length-c_string buf i h)

pub ends : (buf : List ℕ) → length buf ≡ 1024 → get_elem? buf 1023 ≡ some 0 → has_end buf ≡ true
unfolding has_end
ends buf size last = let le = length-c_string buf 1023 last in ground arith
