-- ===== src/Logging/Async/Content.antt =====
-- What the array of a buffer holds: `append` copies to the start of the array each time.
use coding_demo.Base.{
  ltb, true, false, some, length-replicate, ℕ, zero, suc, ◌+◌, ◌-◌, ◌≤◌, ◌<◌, ◌≡◌, refl, ap, ◌∙◌,
  List, [], ◌∷◌, ◌++◌, arith, length, replicate, Returns, ◌>>=◌,
}
use coding_demo.Libc.Buffer.{take, write_at, length-write_at, take-all}
use coding_demo.Logging.Async.{Buffer, append, buf_alloc}

-- A text over a text that is no longer leaves nothing of it.
write_at-write_at :
    (buf xs ys : List ℕ)
    → length xs ≤ length ys
    → write_at (write_at buf 0 xs) 0 ys ≡ write_at buf 0 ys
unfolding write_at
write_at-write_at [] xs ys h = refl
write_at-write_at (b ∷ buf) [] ys h = refl
write_at-write_at (b ∷ buf) (x ∷ xs) [] h = absurd (omega arith)
write_at-write_at (b ∷ buf) (x ∷ xs) (y ∷ ys) h =
    ap (λ r. y ∷ r) (write_at-write_at buf xs ys (omega arith))

-- A buffer that has taken a text.
abbrev grown : Buffer → List ℕ → Buffer
grown b text = record b {
  buf = write_at b.buf 0 text;
  len = b.len + length text;
  avail = b.avail - length text;
}

append-grown :
    (b : Buffer) (text : List ℕ)
    → length text < b.avail
    → length text ≤ length b.buf
    → append b text (length text) ≡ some (grown b text)
unfolding append
append-grown b text fits inside =
    let room : ltb (length text) b.avail ≡ true = ground arith in
    let read : ltb (length text) (length text) ≡ false = ground arith in
    let write : ltb (length b.buf) (length text) ≡ false = ground arith in
    let whole = take-all (length text) text (omega arith) in rw (room, read, write, whole) refl

append-append-grown :
    (b : Buffer) (first second : List ℕ)
    → length first + length second < b.avail
    → b.avail ≤ length b.buf
    → (append b first (length first) >>= (λ b'. append b' second (length second)))
      ≡ some (grown (grown b first) second)
append-append-grown b first second fits inside =
    let one = append-grown b first (omega arith) (omega arith) in
    let two =
      append-grown (grown b first) second (omega arith)
        (omega (arith, length-write_at b.buf 0 first)) in
    rw (one, two) refl

-- Two messages that both fit, the first no longer than the second: the buffer counts both and
-- holds only the second, as if the first had never been logged.
append-append :
    (b : Buffer) (first second : List ℕ)
    → length first ≤ length second
    → length first + length second < b.avail
    → b.avail ≤ length b.buf
    → Returns (append b first (length first) >>= (λ b'. append b' second (length second))) λ b2.
      Returns
        (append b second (length second))
        λ b1. (b2.buf ≡ b1.buf) × (b2.len ≡ b1.len + length first)
append-append b first second h fits inside = (
  grown (grown b first) second,
  append-append-grown b first second fits inside,
  (
    grown b second,
    append-grown b second (omega arith) (omega arith),
    (write_at-write_at b.buf first second h, omega arith),
  ),
)

take-replicate : (n size : ℕ) → n ≤ size → take {A = ℕ} n (replicate size 0) ≡ replicate n 0
take-replicate zero size h = refl
take-replicate (suc n) zero h = absurd (omega arith)
take-replicate (suc n) (suc size) h = ap (λ r. 0 ∷ r) (take-replicate n size (omega arith))

take-write_at-replicate :
    (text : List ℕ) (n m size : ℕ)
    → n ≡ m + length text
    → n ≤ size
    → take n (write_at (replicate size 0) 0 text) ≡ text ++ replicate m 0
unfolding write_at
take-write_at-replicate [] n m zero e h = rw (← e0) (rw (← e1))
  where
    e0 : 0 ≡ m
    e0 = omega arith

    e1 : 0 ≡ n
    e1 = omega arith
take-write_at-replicate [] n m (suc size) e h =
    take-replicate n (suc size) h ∙ ap (λ k. replicate k 0) (omega arith)
take-write_at-replicate (y ∷ text) zero m size e h = absurd (omega arith)
take-write_at-replicate (y ∷ text) (suc n) m zero e h = absurd (omega arith)
take-write_at-replicate (y ∷ text) (suc n) m (suc size) e h =
    ap (λ r. y ∷ r) (take-write_at-replicate text n m size (omega arith) (omega arith))

-- What the back end then takes from a fresh buffer: the second message, and a NUL byte for each
-- byte of the first.
pub fresh-append-append :
    (size : ℕ) (first second : List ℕ)
    → length first ≤ length second
    → length first + length second < size
    → Returns
        (append (buf_alloc size) first (length first) >>= (λ b'. append b' second (length second)))
        λ b. take b.len b.buf ≡ second ++ replicate (length first) 0
unfolding buf_alloc
fresh-append-append size first second h fits = (
  grown (grown (buf_alloc size) first) second,
  append-append-grown (buf_alloc size) first second fits
      (omega (arith, length-replicate {A = ℕ} size 0)),
  rw (write_at-write_at (replicate size 0) first second h)
      (take-write_at-replicate second _ (length first) size (omega arith) (omega arith)),
)
