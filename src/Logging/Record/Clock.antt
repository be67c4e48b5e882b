-- ===== src/Logging/Record/Clock.antt =====
-- The cached time of a thread.
use coding_demo.Base.{
  ℕ, zero, suc, ◌+◌, ◌<◌, ◌≤◌, ◌≡◌, refl, ap, sym, ◌∙◌, ◌≢◌, inl, inr, Bool-cases, List, [], ◌∷◌,
  ◌++◌, ◌==◌, arith, length, drop, length-append, All-append, Returns,
}
use mathlib.Core.List.{append_assoc}
use coding_demo.Libc.Buffer.{
  take, print_at, write_at, c_string, IsText, length-write_at, write_at-append, write_at-zero,
  take-all, c_string-append,
}
use coding_demo.Libc.Decimal.{padded, padded-IsText, length-padded}
use coding_demo.Libc.Time.{line_stamp, line_stamp-IsText}
use coding_demo.Logging.Record.{ThreadState, print_tail, refresh, record_log_time}

-- The first 17 bytes are the stamp of the cached second, unless nothing has been cached yet.
pub record IsCached (t : ThreadState) : Type 0 where
  pub size : length t.t_time ≡ 32
  pub stamp : t.t_seconds ≢ 0 → take 17 t.t_time ≡ line_stamp t.t_seconds

take-append-drop : (n : ℕ) (xs : List ℕ) → take n xs ++ drop n xs ≡ xs
take-append-drop zero xs = refl
take-append-drop (suc n) [] = refl
take-append-drop (suc n) (x ∷ xs) = ap (λ r. x ∷ r) (take-append-drop n xs)

take-append : (xs ys : List ℕ) → take (length xs) (xs ++ ys) ≡ xs
take-append [] ys = refl
take-append (x ∷ xs) ys = ap (λ r. x ∷ r) (take-append xs ys)

abbrev pub tail_text : ℕ → List ℕ
tail_text microseconds = b'.' ∷ padded 6 microseconds ++ b'Z' ∷ []

length-tail_text : (us : ℕ) → us < 1_000_000 → length (tail_text us) ≡ 8
length-tail_text us h =
    omega (arith, length-append (padded 6 us) (b'Z' ∷ []), length-padded 6 us (omega arith))

-- Text over the bytes behind a prefix of 17.
write_tail :
    (pre suf text : List ℕ)
    → length pre ≡ 17
    → length text ≤ length suf
    → write_at (pre ++ suf) 17 text ≡ pre ++ (text ++ drop (length text) suf)
write_tail pre suf text h fits =
    rw (← h) (write_at-append pre suf text ∙ ap (λ r. pre ++ r) (write_at-zero suf text fits))

write_front :
    (buf text : List ℕ) → length text ≤ length buf → take (length text) (write_at buf 0 text) ≡ text
write_front buf text h = rw (write_at-zero buf text h) (take-append text _)

abbrev Stamped : ℕ → ThreadState → ThreadState → Type 0
Stamped seconds t t' =
    (length t'.t_time ≡ 32)
    × (take 17 t'.t_time ≡ line_stamp seconds)
    × (t'.t_seconds ≡ seconds)
    × (t'.t_cachetid ≡ t.t_cachetid)
    × (t'.t_saved_errno ≡ t.t_saved_errno)

refresh-Stamped :
    (seconds : ℕ) (t : ThreadState)
    → IsCached t
    → seconds ≢ 0
    → length (line_stamp seconds) ≡ 17
    → Returns (refresh seconds t) (Stamped seconds t)
unfolding refresh print_at
refresh-Stamped seconds t v pos width =
    let s = line_stamp seconds in
    let size = v.size in
    elim (Bool-cases (t.t_seconds == seconds)) [
      | inl same ↦ (t, rw same, ground (arith, v.stamp))
      | inr other ↦ (
        record t { t_time = write_at t.t_time 0 (s ++ 0 ∷ []); t_seconds = seconds },
        ground (arith, take-all 31 s),
        ground (arith, length-write_at t.t_time 0 (s ++ 0 ∷ []), front t.t_time s size width),
      )
    ]
  where
    front :
        (buf s : List ℕ)
        → length buf ≡ 32
        → length s ≡ 17
        → take 17 (write_at buf 0 (s ++ 0 ∷ [])) ≡ s
    front buf s hb hs =
        let n = length-append s (0 ∷ []) in
        rw (write_at-zero buf (s ++ 0 ∷ []) (omega arith), append_assoc, ← hs) (take-append s _)

tail_shape :
    (stamp rest text : List ℕ)
    → length stamp ≡ 17
    → length rest ≡ 15
    → length text ≡ 8
    → write_at (stamp ++ rest) 17 (text ++ 0 ∷ []) ≡ (stamp ++ text) ++ 0 ∷ drop 9 rest
tail_shape stamp rest text hs hr ht =
    let n : length (text ++ 0 ∷ []) ≡ 9 = omega (arith, length-append text (0 ∷ [])) in
    write_tail stamp rest (text ++ 0 ∷ []) hs (omega arith) ∙ rw (n, append_assoc, append_assoc)

front_shape :
    (stamp text : List ℕ) (r : List ℕ) → length stamp ≡ 17 → take 17 ((stamp ++ text) ++ r) ≡ stamp
front_shape stamp text r h = rw (append_assoc, ← h) (take-append stamp (text ++ r))

print_tail_lem :
    (stamp buf text : List ℕ)
    → length buf ≡ 32
    → take 17 buf ≡ stamp
    → length stamp ≡ 17
    → length text ≡ 8
    → IsText (stamp ++ text)
    → Returns
        (print_tail text buf)
        λ b. (length b ≡ 32) × (take 17 b ≡ stamp) × (c_string b ≡ stamp ++ text)
unfolding print_tail
print_tail_lem stamp buf text hb hs width ht ok =
    let rest = drop 17 buf in
    let split : buf ≡ stamp ++ rest = sym (take-append-drop 17 buf) ∙ ap (λ r. r ++ rest) hs in
    let room : length buf ≡ length stamp + length rest =
      ap length split ∙ length-append stamp rest in
    let n = length-append text (0 ∷ []) in
    let done : write_at buf 17 (text ++ 0 ∷ []) ≡ (stamp ++ text) ++ 0 ∷ drop 9 rest =
      ap (λ b. write_at b 17 (text ++ 0 ∷ [])) split
      ∙ tail_shape stamp rest text width (omega arith) ht in
    (
      write_at buf 17 (text ++ 0 ∷ []),
      ground (arith, n, hb, ht),
      (
        length-write_at buf 17 (text ++ 0 ∷ []) ∙ hb,
        rw done (front_shape stamp text _ width),
        rw done (c_string-append (stamp ++ text) (drop 9 rest) ok),
      ),
    )

-- On a thread with a right cache, at a second other than 0 with a stamp of 17 bytes and below a
-- million microseconds, record_log_time leaves the stamp of the second, a point, six digits and a Z
-- in the buffer; the cache is right for that second, and the cached thread id and the saved errno
-- stay.
pub record_log_time_lem :
    (seconds us : ℕ) (t : ThreadState)
    → IsCached t
    → seconds ≢ 0
    → length (line_stamp seconds) ≡ 17
    → us < 1_000_000
    → Returns (record_log_time seconds us t) λ t'.
      (c_string t'.t_time ≡ line_stamp seconds ++ tail_text us)
      × IsCached t'
      × (t'.t_seconds ≡ seconds)
      × (t'.t_cachetid ≡ t.t_cachetid)
      × (t'.t_saved_errno ≡ t.t_saved_errno)
unfolding record_log_time
record_log_time_lem seconds us t v pos width small =
    let (t1, run1, p) = refresh-Stamped seconds t v pos width in
    let text_ok =
      All-append (λ c. 0 < c) (line_stamp seconds) (tail_text us) (line_stamp-IsText seconds)
        (
          omega arith,
          All-append (λ c. 0 < c) (padded 6 us) (b'Z' ∷ []) (padded-IsText 6 us) (omega arith),
        ) in
    let (b, run2, q) =
      print_tail_lem (line_stamp seconds) t1.t_time (tail_text us) p.0 p.1 width
        (length-tail_text us small) text_ok in
    (
      record t1 { t_time = b },
      rw (run1, run2),
      (q.2, record { size = q.0; stamp = λ _. q.1 ∙ ap line_stamp (sym p.2) }, p.2, p.3, p.4),
    )
