-- ===== src/Logging/File/Append.antt =====
-- `file_append` and `log_file_append`: the bytes that reach the file, and when it rolls.
use coding_demo.Base.{
  ℕ, zero, suc, ◌+◌, ◌/◌, ◌^◌, ◌<◌, ◌≤◌, ◌≡◌, refl, ap, sym, ◌∙◌, inl, inr, Bool-cases, ◌⊎◌, Bool,
  true, ◌||◌, not, some, List, [], ◌∷◌, ◌++◌, ltb, ◌==◌, arith, if◌then◌else◌, length, drop,
  Returns,
}
use mathlib.Core.List.{append-nil, append_assoc}
use native.Mathlib.Nat.{suc-add}
use coding_demo.Libc.Buffer.{take, c_string}
use coding_demo.Logging.File.{
  LogFile, RollEnv, wrote, flushed, opened, closed, seconds_per_day, Results, append_loop,
  file_bytes, file_append, get_log_file_name, log_file_roll, after_append, log_file_append,
  log_file_flush,
}

take-nil {ℓ} : {A : Type ℓ} (n : ℕ) → take {A = A} n [] ≡ []
take-nil zero = refl
take-nil (suc n) = refl

take-append-take {ℓ} :
    {A : Type ℓ} (n m : ℕ) (xs : List A) → take n xs ++ take m (drop n xs) ≡ take (n + m) xs
take-append-take zero m xs = ap (λ k. take k xs) (omega arith)
take-append-take (suc n) m [] = take-nil m ∙ sym (take-nil (suc n + m))
take-append-take (suc n) m (x ∷ xs) = rw suc-add (ap (λ r. x ∷ r) (take-append-take n m xs))

-- A first `fwrite` that takes everything leaves nothing for the loop.
pub file_bytes_complete :
    (mem : List ℕ) (len : ℕ) (later : Results)
    → len ≤ length mem
    → len < 2 ^ 64
    → file_bytes (len ∷ later) mem len ≡ some (take len mem)
unfolding file_bytes append_loop
file_bytes_complete mem len [] fits small = ground (arith, append-nil (take len mem))
file_bytes_complete mem len (x ∷ xs) fits small = ground (arith, append-nil (take len mem))

-- After a short `fwrite` of `n` bytes the loop asks for `len` bytes again. Where they are all taken
-- the file gets `n` bytes from behind the message, and the loop goes on.
pub file_bytes-short :
    (mem : List ℕ) (len n : ℕ)
    → 0 < n
    → n < len
    → len < 2 ^ 63
    → n + len + len ≤ length mem
    → file_bytes (n ∷ len ∷ []) mem len ≡ some (take (n + len) mem)
unfolding file_bytes append_loop
file_bytes-short mem len n pos lt small room =
    ground (arith, take-append-take n len mem, append-nil (take len (drop n mem)))

-- What `log_file_append` has done with a message: the file is at or below its size, it is the
-- file of the day, and it was flushed within the interval; `t` is the time that was read last.
pub record IsCurrent (t : ℕ) (s : LogFile) : Type 0 where
  pub day : s.start_day ≡ t / seconds_per_day
  pub fresh : t ≤ s.last_flush_time + s.flush_interval
  pub bounded : s.written_bytes ≤ s.roll_size
  pub is_open : s.is_open ≡ true

-- What `var_file_params` sets stays as it is.
pub record SameSettings (s s' : LogFile) : Type 0 where
  pub basename : s'.basename ≡ s.basename
  pub roll_size : s'.roll_size ≡ s.roll_size
  pub flush_interval : s'.flush_interval ≡ s.flush_interval

-- The size or the day of the file calls for a new one.
abbrev pub must_roll : ℕ → ℕ → LogFile → Bool
must_roll now len s =
    ltb s.roll_size (s.written_bytes + len) || not (now / seconds_per_day == s.start_day)

-- The flush interval has passed.
abbrev pub is_due : ℕ → LogFile → Bool
is_due now s = ltb (s.last_flush_time + s.flush_interval) now

-- The state with the message written and counted, and the one with a new file opened.
abbrev appended : LogFile → List ℕ → ℕ → LogFile
appended s mem len = record s {
  written_bytes = s.written_bytes + len;
  events = s.events ++ wrote (take len mem) ∷ [];
}

abbrev rolled : LogFile → RollEnv → List ℕ → LogFile
rolled s env name = record s {
  is_open = true;
  start_day = env.now / seconds_per_day;
  last_flush_time = env.now;
  written_bytes = 0;
  filename = name;
  events = s.events ++ closed ∷ opened (c_string name) ∷ [];
}

file_append_complete :
    (s : LogFile) (mem : List ℕ) (len : ℕ) (later : Results)
    → s.is_open ≡ true
    → len ≤ length mem
    → s.written_bytes + len < 2 ^ 64
    → file_append (len ∷ later) mem len s ≡ some (appended s mem len)
unfolding file_append
file_append_complete s mem len later op fits small =
    ground (arith, file_bytes_complete mem len later)

log_file_roll_opens :
    (s : LogFile) (env : RollEnv) (name : List ℕ)
    → s.is_open ≡ true
    → env.opens ≡ true
    → get_log_file_name s.basename env ≡ some name
    → log_file_roll env s ≡ some (rolled s env name)
unfolding log_file_roll
log_file_roll_opens s env name op opens named = ground arith

-- On an open file that takes the whole message, with a file name that can be built and opened,
-- `log_file_append` writes exactly the message, behind all earlier ones; then it closes the file
-- and opens a new one if the size or the day calls for it, or flushes if the interval has passed,
-- or does nothing more. The settings stay. In the end the file is within its size, of the day, and
-- recently flushed, at one of the two times that were read.
pub log_file_append_lem :
    (s : LogFile) (mem : List ℕ) (len : ℕ) (later : Results) (now : ℕ) (env : RollEnv)
    (name : List ℕ)
    → s.is_open ≡ true
    → len ≤ length mem
    → s.written_bytes + len < 2 ^ 64
    → env.opens ≡ true
    → get_log_file_name s.basename env ≡ some name
    → Returns (log_file_append (len ∷ later) now env mem len s) λ s'.
      (s'.events
        ≡ s.events
          ++ wrote (take len mem)
            ∷ (if must_roll now len s
                then closed ∷ opened (c_string name) ∷ []
                else if is_due now s
                then flushed ∷ []
                else []))
      × (IsCurrent now s' ⊎ IsCurrent env.now s')
      × SameSettings s s'
unfolding log_file_append after_append log_file_flush
log_file_append_lem s mem len later now env name op fits small opens named =
    let s1 = appended s mem len in
    let run = file_append_complete s mem len later op fits small in
    let roll = log_file_roll_opens s1 env name op opens named in
    let regroup = append_assoc s.events (wrote (take len mem) ∷ []) in
    elim (Bool-cases (ltb s.roll_size (s.written_bytes + len))) [
      | inl big ↦ (
        rolled s1 env name,
        rw run (ground (arith, roll)),
        (
          rw big (regroup _),
          inr (record { day = refl; fresh = ground arith; bounded = ground arith; is_open = refl }),
          ground arith,
        ),
      )
      | inr within ↦ elim (Bool-cases (now / seconds_per_day == s.start_day)) [
        | inr other_day ↦ (
          rolled s1 env name,
          rw run (ground (arith, roll)),
          (
            rw (within, other_day) (regroup _),
            inr (record {
              day = refl;
              fresh = ground arith;
              bounded = ground arith;
              is_open = refl;
            }),
            ground arith,
          ),
        )
        | inl same_day ↦ elim (Bool-cases (is_due now s)) [
          | inl due ↦ (
            log_file_flush (record s1 { last_flush_time = now }),
            rw run (ground arith),
            (rw (within, same_day, due) (regroup _), inl (ground arith), ground arith),
          )
          | inr not_due ↦ (
            s1,
            rw run (ground arith),
            (rw (within, same_day, not_due), inl (ground arith), ground arith),
          )
        ]
      ]
    ]
