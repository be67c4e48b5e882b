-- ===== src/Logging/Async/Drain.antt =====
-- A round of the back end outside the lock: the buffers reach the file in order.
use coding_demo.Base.{
  ℕ, ◌+◌, ◌^◌, ◌≤◌, ◌<◌, ◌≡◌, refl, ap, ◌∙◌, sym, inl, inr, Bool, true, false, some, List, [], ◌∷◌,
  ◌++◌, arith, length, Returns, if◌then◌else◌, All,
}
use mathlib.Core.Path.{subst}
use mathlib.Core.List.{append_assoc, append-nil}
use coding_demo.Libc.Buffer.{take, c_string}
use coding_demo.Logging.File.{
  LogFile, Event, wrote, flushed, opened, closed, Results, get_log_file_name, log_file_flush,
}
use coding_demo.Logging.File.Append.{SameSettings, must_roll, is_due, log_file_append_lem}
use coding_demo.Logging.Async.{Buffer, Backend, WriteEnv, write_buffers, write_out, buf_alloc}

-- The bytes that went to the files, over all of them.
abbrev pub payload : List Event → List ℕ
payload [] = []
payload (wrote text ∷ es) = text ++ payload es
payload (flushed ∷ es) = payload es
payload (closed ∷ es) = payload es
payload (opened name ∷ es) = payload es

payload-append : (xs ys : List Event) → payload (xs ++ ys) ≡ payload xs ++ payload ys
payload-append [] ys = refl
payload-append (wrote text ∷ xs) ys = rw (payload-append xs ys, append_assoc)
payload-append (flushed ∷ xs) ys = payload-append xs ys
payload-append (closed ∷ xs) ys = payload-append xs ys
payload-append (opened name ∷ xs) ys = payload-append xs ys

payload-tail :
    (roll due : Bool) (text name : List ℕ)
    → payload (
        wrote text ∷ (if roll then closed ∷ opened name ∷ [] else if due then flushed ∷ [] else []))
      ≡ text
payload-tail true due text name = append-nil text
payload-tail false true text name = append-nil text
payload-tail false false text name = append-nil text

-- What the buffers count, in order.
abbrev pub content : List Buffer → List ℕ
content [] = []
content (b ∷ bs) = take b.len b.buf ++ content bs

-- The file system takes each buffer whole and opens each file; a name can be built.
abbrev pub AllTaken : List ℕ → List WriteEnv → List Buffer → Type 0
AllTaken base envs [] = Unit
AllTaken base [] (b ∷ bs) = ⊥
AllTaken base (e ∷ envs) (b ∷ bs) =
    ((later : Results) × (e.results ≡ b.len ∷ later))
    × (e.roll.opens ≡ true)
    × ((name : List ℕ) × (get_log_file_name base e.roll ≡ some name))
    × (b.len ≤ length b.buf)
    × AllTaken base envs bs

-- An open file that is within its size.
pub record IsOpen (f : LogFile) : Type 0 where
  pub is_open : f.is_open ≡ true
  pub bounded : f.written_bytes ≤ f.roll_size

module _ (size : ℕ) where
  -- `write_buffers` writes the bytes that the buffers count, each once and in the order of the
  -- list, whatever rolls and flushes come between; the file stays open and within its size.
  pub write_buffers-payload :
      (envs : List WriteEnv) (bs : List Buffer) (f : LogFile)
      → IsOpen f
      → AllTaken f.basename envs bs
      → All (λ b. f.roll_size + b.len < 2 ^ 64) bs
      → Returns
          (write_buffers size envs bs f)
          λ f'. IsOpen f' × (payload f'.events ≡ payload f.events ++ content bs) × SameSettings f f'
  unfolding write_buffers
  write_buffers-payload envs [] f op t small = (f, refl, (op, rw append-nil, ground arith))
  write_buffers-payload [] (b ∷ bs) f op t small = absurd t
  write_buffers-payload (e ∷ envs) (b ∷ bs) f op t small =
      let (later, taken) = t.0 in
      let (name, named) = t.2 in
      let (f1, run1, p) =
        log_file_append_lem f b.buf b.len later e.now e.roll name op.is_open t.3
          (omega (arith, op.bounded, small.0)) t.1 named in
      let open1 : IsOpen f1 = elim p.1 [
        | inl c ↦ record { is_open = c.is_open; bounded = c.bounded }
        | inr c ↦ record { is_open = c.is_open; bounded = c.bounded }
      ] in
      let wrote1 : payload f1.events ≡ payload f.events ++ take b.len b.buf =
        ap payload p.0
        ∙ payload-append f.events _
        ∙ ap (λ r. payload f.events ++ r)
            (payload-tail (must_roll e.now b.len f) (is_due e.now f) (take b.len b.buf)
              (c_string name)) in
      let (f2, run2, q) =
        write_buffers-payload envs bs f1 open1
          (subst (λ base. AllTaken base envs bs) (sym p.2.basename) t.4)
          (subst (λ n. All (λ b. n + b.len < 2 ^ 64) bs) (sym p.2.roll_size) small.1) in
      let same = p.2 in
      let same' = q.2 in
      (
        f2,
        rw (taken, run1) run2,
        (
          q.0,
          q.1
              ∙ ap (λ r. r ++ content bs) wrote1
              ∙ append_assoc (payload f.events) (take b.len b.buf) (content bs),
          record {
            basename = same'.basename ∙ same.basename;
            roll_size = same'.roll_size ∙ same.roll_size;
            flush_interval = same'.flush_interval ∙ same.flush_interval;
          },
        ),
      )

  -- For an open file within its size and a file system that takes each buffer whole and opens each
  -- file, where names can be built and the count does not overflow, a round outside the lock writes
  -- exactly the bytes that the buffers count, in order, and ends with a flush; it leaves the file
  -- open and within its size, no buffer to write, and two fresh buffers for the next round.
  pub write_out-payload :
      (envs : List WriteEnv) (k : Backend) (f : LogFile)
      → IsOpen f
      → AllTaken f.basename envs k.buffers_to_write
      → All (λ b. f.roll_size + b.len < 2 ^ 64) k.buffers_to_write
      → Returns (write_out size envs k f) λ r.
        (payload r.1.events ≡ payload f.events ++ content k.buffers_to_write)
        × IsOpen r.1
        × (r.0.buffers_to_write ≡ [])
        × (r.0.new_buffer1 ≡ some (buf_alloc size))
        × (r.0.new_buffer2 ≡ some (buf_alloc size))
        × ((es : List Event) × (r.1.events ≡ es ++ flushed ∷ []))
  unfolding write_out log_file_flush
  write_out-payload envs k f op t small =
      let (f1, run1, p) = write_buffers-payload envs k.buffers_to_write f op t small in
      let opened1 = p.0 in
      (
        (
          record {
            new_buffer1 = some (buf_alloc size);
            new_buffer2 = some (buf_alloc size);
            buffers_to_write = [];
          },
          log_file_flush f1,
        ),
        rw run1,
        (
          payload-append f1.events (flushed ∷ []) ∙ append-nil (payload f1.events) ∙ p.1,
          record { is_open = opened1.is_open; bounded = opened1.bounded },
          refl,
          refl,
          refl,
          (f1.events, refl),
        ),
      )
