-- ===== src/Net/Epoll/Echo.antt =====
-- What a client gets back.
use coding_demo.Base.{
  ℕ, zero, suc, ◌<◌, ◌≤◌, ◌≡◌, ◌≢◌, refl, ap, ◌∙◌, true, false, none, some, List, [], ◌∷◌, ◌++◌,
  ◌==◌, length, replicate, length-replicate, arith, Returns,
}
use coding_demo.Libc.Buffer.{
  has_end, take, c_string, write_at, length-write_at, take-all, IsText, c_string-append,
}
use coding_demo.Net.Epoll.{
  Server, Ready, sent, epollin, epollout, max_size, modify_event, do_read, do_write, handle_event,
  handle_events,
}

-- A descriptor is ready for reading, with the bytes that `read` gives.
abbrev pub can_read : ℕ → List ℕ → Ready
can_read fd bytes = record {
  fd = fd;
  is_in = true;
  is_out = false;
  accepted = none;
  received = some bytes;
  written = none;
}

-- A descriptor is ready for writing, and `write` takes `n` bytes.
abbrev pub can_write : ℕ → ℕ → Ready
can_write fd n = record {
  fd = fd;
  is_in = false;
  is_out = true;
  accepted = none;
  received = none;
  written = some n;
}

-- A text in a clean buffer.
pub filled :
    (m : ℕ) (msg : List ℕ)
    → length msg < m
    → (rest : List ℕ) × (write_at (replicate m 0) 0 msg ≡ msg ++ 0 ∷ rest)
unfolding write_at
filled zero msg h = absurd (omega arith)
filled (suc m) [] h = (replicate m 0, refl)
filled (suc m) (c ∷ msg) h = let (rest, e) = filled m msg (omega arith) in (rest, ap (λ r. c ∷ r) e)

holds_msg :
    (msg : List ℕ)
    → length msg < 1024
    → IsText msg
    → (c_string (write_at (replicate 1024 0) 0 msg) ≡ msg)
      × (length (write_at (replicate 1024 0) 0 msg) ≡ 1024)
holds_msg msg short text =
    let (rest, e) = filled 1024 msg short in
    (
      ap c_string e ∙ c_string-append msg rest text,
      length-write_at (replicate 1024 0) 0 msg ∙ length-replicate {A = ℕ} 1024 0,
    )

read-text :
    (listenfd fd c : ℕ) (bytes buf : List ℕ) (s : Server)
    → fd ≢ listenfd
    → length (c ∷ bytes) < 1024
    → write_at s.buf 0 (c ∷ bytes) ≡ buf
    → has_end buf ≡ true
    → handle_event listenfd (can_read fd (c ∷ bytes)) s
      ≡ some (modify_event fd epollout (record s { buf = buf }))
unfolding handle_event do_read modify_event
read-text listenfd fd c bytes buf s ne short e ends =
    let other : (fd == listenfd) ≡ false = ground arith in
    let all : c ∷ take 1023 bytes ≡ c ∷ bytes = take-all 1024 (c ∷ bytes) (omega arith) in
    rw (other, all, e, ends) refl

write-text :
    (listenfd fd n : ℕ) (text : List ℕ) (s : Server)
    → fd ≢ listenfd
    → has_end s.buf ≡ true
    → c_string s.buf ≡ text
    → handle_event listenfd (can_write fd n) s
      ≡ some (record (modify_event fd epollin s) {
        buf = replicate max_size 0;
        actions = s.actions ++ sent fd (take n text) ∷ [];
      })
unfolding handle_event do_write modify_event
write-text listenfd fd n text s ne ends e =
    let other : (fd == listenfd) ≡ false = ground arith in rw (other, ends, e) refl

ends_lem :
    (buf text : List ℕ)
    → c_string buf ≡ text
    → length buf ≡ 1024
    → length text < 1024
    → has_end buf ≡ true
unfolding has_end
ends_lem buf text e size short = ground (arith, ap length e)

-- The state after a text has been read into `buf` and `n` bytes of it have been sent.
abbrev written : Server → List ℕ → ℕ → List ℕ → ℕ → Server
written s buf fd text n =
    record (modify_event fd epollin (modify_event fd epollout (record s { buf = buf }))) {
      buf = replicate max_size 0;
      actions = s.actions ++ sent fd (take n text) ∷ [];
    }

-- When the buffer is clean, a client that is not the listening socket is watched for reading and
-- sends a text of at least one byte, without NUL and shorter than the buffer, and the very next
-- event is that the same client can be written to and takes the text whole, with no event of
-- another descriptor in between, then it gets exactly this text back; after the two events it is
-- watched for reading again, the buffer is clean, and no other client's state has changed.
pub handle_events-echo :
    (listenfd fd c : ℕ) (bytes : List ℕ) (s : Server)
    → fd ≢ listenfd
    → length (c ∷ bytes) < 1024
    → IsText (c ∷ bytes)
    → s.watched fd ≡ some epollin
    → s.buf ≡ replicate 1024 0
    → Returns
        (handle_events listenfd
          (can_read fd (c ∷ bytes) ∷ can_write fd (length (c ∷ bytes)) ∷ [])
          s)
        λ s'.
          (s'.actions ≡ s.actions ++ sent fd (c ∷ bytes) ∷ [])
          × (s'.watched fd ≡ some epollin)
          × (s'.buf ≡ replicate 1024 0)
          × ((k : ℕ) → k ≢ fd → s'.watched k ≡ s.watched k)
unfolding handle_events modify_event
handle_events-echo listenfd fd c bytes s ne short text reading clean =
    let msg = c ∷ bytes in
    let buf = write_at (replicate 1024 0) 0 msg in
    let (holds, size) = holds_msg msg short text in
    let stop = ends_lem buf msg holds size short in
    let run1 =
      read-text listenfd fd c bytes buf s ne short (ap (λ b. write_at b 0 msg) clean) stop in
    let run2 =
      write-text listenfd fd (length msg) msg (modify_event fd epollout (record s { buf = buf })) ne
        stop holds in
    (
      written s buf fd msg (length msg),
      rw (run1, run2) refl,
      (
        ap (λ t. s.actions ++ sent fd t ∷ []) (take-all (length msg) msg (omega arith)),
        ground (arith, reading),
        refl,
        (λ k other. ground arith),
      ),
    )

write_at-again :
    (buf xs ys : List ℕ)
    → length xs ≤ length ys
    → write_at (write_at buf 0 xs) 0 ys ≡ write_at buf 0 ys
unfolding write_at
write_at-again [] xs ys h = refl
write_at-again (b ∷ buf) [] ys h = refl
write_at-again (b ∷ buf) (x ∷ xs) [] h = absurd (omega arith)
write_at-again (b ∷ buf) (x ∷ xs) (y ∷ ys) h =
    ap (λ r. y ∷ r) (write_at-again buf xs ys (omega arith))

c_string-clean : c_string (replicate 1024 0) ≡ []
unfolding c_string
c_string-clean = refl

clean-ends : has_end (replicate 1024 0) ≡ true
clean-ends =
    ends_lem (replicate 1024 0) [] c_string-clean (length-replicate {A = ℕ} 1024 0) (omega arith)

-- Two clients whose texts, without NUL and shorter than the buffer, are read before either is
-- answered, the first text no longer than the second: the first client gets the second one's text,
-- and the second gets nothing.
pub handle_events-mixed :
    (listenfd a b c d : ℕ) (first second : List ℕ) (s : Server)
    → a ≢ listenfd
    → b ≢ listenfd
    → length (c ∷ first) ≤ length (d ∷ second)
    → length (d ∷ second) < 1024
    → IsText (c ∷ first)
    → IsText (d ∷ second)
    → s.buf ≡ replicate 1024 0
    → Returns
        (handle_events listenfd
          (can_read a (c ∷ first)
            ∷ can_read b (d ∷ second)
            ∷ can_write a (length (d ∷ second))
            ∷ can_write b 0
            ∷ [])
          s)
        λ s'. s'.actions ≡ (s.actions ++ sent a (d ∷ second) ∷ []) ++ sent b [] ∷ []
unfolding handle_events modify_event
handle_events-mixed listenfd a b c d first second s a_ne b_ne le short text1 text2 clean =
    let buf1 = write_at (replicate 1024 0) 0 (c ∷ first) in
    let buf2 = write_at (replicate 1024 0) 0 (d ∷ second) in
    let (holds1, size1) = holds_msg (c ∷ first) (omega arith) text1 in
    let (holds2, size2) = holds_msg (d ∷ second) short text2 in
    let stop1 = ends_lem buf1 (c ∷ first) holds1 size1 (omega arith) in
    let stop2 = ends_lem buf2 (d ∷ second) holds2 size2 short in
    let s1 = modify_event a epollout (record s { buf = buf1 }) in
    let s2 = modify_event b epollout (record s1 { buf = buf2 }) in
    let s3 : Server = record (modify_event a epollin s2) {
      buf = replicate max_size 0;
      actions = s.actions ++ sent a (take (length (d ∷ second)) (d ∷ second)) ∷ [];
    } in
    let s4 : Server = record (modify_event b epollin s3) {
      buf = replicate max_size 0;
      actions = s3.actions ++ sent b (take 0 []) ∷ [];
    } in
    let run1 =
      read-text listenfd a c first buf1 s a_ne (omega arith)
        (ap (λ x. write_at x 0 (c ∷ first)) clean) stop1 in
    let run2 =
      read-text listenfd b d second buf2 s1 b_ne short
        (write_at-again (replicate 1024 0) (c ∷ first) (d ∷ second) le) stop2 in
    let run3 = write-text listenfd a (length (d ∷ second)) (d ∷ second) s2 a_ne stop2 holds2 in
    let run4 = write-text listenfd b 0 [] s3 b_ne clean-ends c_string-clean in
    (
      s4,
      rw (run1, run2, run3, run4) refl,
      ap (λ t. (s.actions ++ sent a t ∷ []) ++ sent b [] ∷ [])
          (take-all (length (d ∷ second)) (d ∷ second) (omega arith)),
    )
