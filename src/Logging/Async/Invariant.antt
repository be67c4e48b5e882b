-- ===== src/Logging/Async/Invariant.antt =====
-- The front end never follows NULL, and its buffers account for every byte.
use coding_demo.Base.{
  false, length-replicate, ℕ, ◌+◌, ◌-◌, ◌≤◌, ◌≡◌, refl, sym, ◌∙◌, inl, inr, Bool-cases, Option,
  none, some, List, [], ◌∷◌, ◌++◌, ltb, arith, if◌then◌else◌, length, length-append, All,
  All-append, Returns, ◌>>=◌, bind_inv, eq_of_some,
}
use mathlib.Core.Path.{subst}
use coding_demo.Libc.Buffer.{take, write_at, length-write_at}
use coding_demo.Logging.File.{LogFile, log_file_close, log_file_flush}
use coding_demo.Logging.Async.{
  Buffer, Async, Backend, append, buf_alloc, next_and_append, log_async_get_log, async_init,
  backend_init, collect, write_out, WriteEnv, System, Phase, collecting, writing, stopped, Action,
  log, turn, exit, phase_turn, backend_turn, act, write_buffers, run, start,
}

abbrev IsLive : Option Buffer → Type 0
IsLive none = ⊥
IsLive (some b) = Unit

-- The bytes that a buffer counts.
abbrev pub pending : List Buffer → ℕ
pending [] = 0
pending (b ∷ bs) = b.len + pending bs

pending-append : (xs ys : List Buffer) → pending (xs ++ ys) ≡ pending xs + pending ys
pending-append [] ys = omega arith
pending-append (x ∷ xs) ys = omega (arith, pending-append xs ys)

module _ (size : ℕ) where
  -- A buffer accounts for its whole size, which is that of its array.
  abbrev pub IsFull : Buffer → Type 0
  IsFull b = (b.len + b.avail ≡ size) × (length b.buf ≡ size)

  buf_alloc-IsFull : IsFull (buf_alloc size)
  unfolding buf_alloc
  buf_alloc-IsFull = (omega arith, length-replicate {A = ℕ} size 0)

  pub record IsSound (s : Async) : Type 0 where
    pub current : (b : Buffer) × (s.current_buffer ≡ some b) × IsFull b
    pub next : (b : Buffer) × (s.next_buffer ≡ some b)
    pub queued : All IsFull s.buffers
    pub counted : s.buffers_len ≡ length s.buffers

  -- The bytes counted in the front end.
  abbrev pub in_front : Async → ℕ
  in_front s = pending s.buffers + pending (elim s.current_buffer [ none ↦ [] | some b ↦ b ∷ [] ])

  append-IsFull :
      (b : Buffer) (msg : List ℕ) (len : ℕ)
      → len ≤ length msg
      → IsFull b
      → Returns
          (append b msg len)
          λ b'. IsFull b' × (b'.len ≡ b.len + (if ltb len b.avail then len else 0))
  unfolding append
  append-IsFull b msg len fits full = elim (Bool-cases (ltb len b.avail)) [
    | inl room ↦
        let whole : ltb (length msg) len ≡ false = ground arith in
        let inside : ltb (length b.buf) len ≡ false = ground (arith, full.0, full.1) in
        (
          record b {
            buf = write_at b.buf 0 (take len msg);
            len = b.len + len;
            avail = b.avail - len;
          },
          rw (room, whole, inside) refl,
          ((ground (arith, full.0), length-write_at b.buf 0 (take len msg) ∙ full.1), rw room refl),
        )
    | inr no_room ↦ (b, rw no_room, (full, rw no_room (omega arith)))
  ]

  -- `log_async_get_log` never follows a NULL pointer and keeps the buffers sound; it counts the
  -- message's bytes unless the message is as long as a whole buffer, and then none of them.
  pub log_async_get_log-IsSound :
      (s : Async) (msg : List ℕ) (len : ℕ)
      → IsSound s
      → len ≤ length msg
      → Returns
          (log_async_get_log size msg len s)
          λ s'. IsSound s' × (in_front s' ≡ in_front s + (if ltb len size then len else 0))
  unfolding log_async_get_log next_and_append buf_alloc
  log_async_get_log-IsSound s msg len v fits =
      let (b, eb, full) = v.current in
      let (n, en) = v.next in
      elim (Bool-cases (ltb len b.avail)) [
        | inl room ↦
            let (b1, run1, p) = append-IsFull b msg len fits full in
            (
              record s { current_buffer = some b1 },
              rw (eb, room, run1),
              (
                record {
                  current = (b1, refl, p.0);
                  next = v.next;
                  queued = v.queued;
                  counted = v.counted;
                },
                rw eb (ground (arith, p.1, p.0.0, full.0)),
              ),
            )
        | inr no_room ↦
            let (b1, run1, p) = append-IsFull (buf_alloc size) msg len fits buf_alloc-IsFull in
            (
              record {
                current_buffer = some b1;
                next_buffer = s.next_buffer;
                buffers = s.buffers ++ b ∷ [];
                buffers_len = s.buffers_len + 1;
                signalled = s.signalled + 1;
              },
              rw (eb, no_room, en, run1),
              (
                record {
                  current = (b1, refl, p.0);
                  next = v.next;
                  queued = All-append IsFull s.buffers (b ∷ []) v.queued (full, tt);
                  counted = omega (arith, v.counted, length-append s.buffers (b ∷ []));
                },
                rw eb (omega (arith, p.1, pending-append s.buffers (b ∷ []))),
              ),
            )
      ]

  -- The back end's buffer for the next round is fresh when the round begins.
  abbrev pub IsReady : Backend → Type 0
  IsReady k = (b : Buffer) × (k.new_buffer1 ≡ some b) × IsFull b × (b.len ≡ 0)

  -- Under the lock the back end takes all the queued buffers in order with the current one behind
  -- them, and so every byte that was counted; the front end is left sound and empty.
  pub collect-IsSound :
      (s : Async) (k : Backend)
      → IsSound s
      → IsReady k
      → Returns (collect size s k) λ r.
        IsSound r.0
        × (in_front r.0 ≡ 0)
        × (pending r.1.buffers_to_write ≡ in_front s)
        × ((b : Buffer) × (s.current_buffer ≡ some b)
            × (r.1.buffers_to_write ≡ s.buffers ++ b ∷ []))
  unfolding collect
  collect-IsSound s k v ready =
      let (b, eb, full) = v.current in
      let (n, en) = v.next in
      let (f, ef, fresh, zero_len) = ready in
      (
        (
          record {
            current_buffer = k.new_buffer1;
            next_buffer = s.next_buffer;
            buffers = [];
            buffers_len = 0;
            signalled = s.signalled;
          },
          record k { buffers_to_write = s.buffers ++ b ∷ [] },
        ),
        rw (eb, en),
        (
          record { current = (f, ef, fresh); next = v.next; queued = tt; counted = refl },
          rw ef (omega (arith, zero_len)),
          rw eb (omega (arith, pending-append s.buffers (b ∷ []))),
          (b, eb, refl),
        ),
      )

  pub record IsSafe (s : System) : Type 0 where
    pub front : IsSound s.front
    pub ready : s.phase ≡ collecting → IsReady s.back

  -- A message has at least the bytes that are announced.
  abbrev pub IsCall : Action → Type 0
  IsCall (log msg len) = len ≤ length msg
  IsCall (turn envs) = Unit
  IsCall exit = Unit

  pub start-IsSafe : (f : LogFile) → IsSafe (start size f)
  unfolding start async_init backend_init buf_alloc
  start-IsSafe f = record {
    front = record {
      current = (_, refl, buf_alloc-IsFull);
      next = (_, refl);
      queued = tt;
      counted = refl;
    };
    ready = λ _. (_, refl, buf_alloc-IsFull, refl);
  }

  module _ (envs : List WriteEnv) (s s' : System) (v : IsSafe s) where
    turn-IsSafe : (ph : Phase) → s.phase ≡ ph → phase_turn size ph envs s ≡ some s' → IsSafe s'
    unfolding phase_turn write_out buf_alloc
    turn-IsSafe collecting ph e =
        let (r, run1, p) = collect-IsSound s.front s.back v.front (v.ready ph) in
        elim (Bool-cases s.running) [
          | inl running ↦
              let next : System = record s { front = r.0; back = r.1; phase = writing } in
              let step : phase_turn size collecting envs s ≡ some next = rw (running, run1) in
              let safe : IsSafe next = record { front = p.0; ready = λ h. cc } in
              subst IsSafe (eq_of_some (sym step ∙ e)) safe
          | inr halted ↦
              let step : phase_turn size collecting envs s ≡ (
                  log_file_close (log_file_flush s.file)
                  >>= (λ f. some (record s { file = f; phase = stopped }))) =
                rw halted in
              let (f, _, last) =
                bind_inv (log_file_close (log_file_flush s.file)) _ (sym step ∙ e) in
              let next : System = record s { file = f; phase = stopped } in
              let safe : IsSafe next = record { front = v.front; ready = λ h. cc } in
              subst IsSafe (eq_of_some last) safe
        ]
    turn-IsSafe writing ph e =
        let (r, written, last) = bind_inv (write_out size envs s.back s.file) _ e in
        let (f, _, back) =
          bind_inv (write_buffers size envs s.back.buffers_to_write s.file) _ written in
        let next : System = record s { back = r.0; file = r.1; phase = collecting } in
        let ready : IsReady r.0 =
          subst (λ (t : Backend × LogFile). IsReady t.0) (eq_of_some back)
            (buf_alloc size, refl, buf_alloc-IsFull, refl) in
        let safe : IsSafe next = record { front = v.front; ready = λ _. ready } in
        subst IsSafe (eq_of_some last) safe
    turn-IsSafe stopped ph e = subst IsSafe (eq_of_some e) v

  act-IsSafe :
      (a : Action) (s s' : System) → IsCall a → act size a s ≡ some s' → IsSafe s → IsSafe s'
  unfolding act backend_turn
  act-IsSafe (log msg len) s s' c e v =
      let (f, run1, p) = log_async_get_log-IsSound s.front msg len v.front c in
      subst IsSafe (eq_of_some (rw run1 at e)) (record { front = p.0; ready = v.ready })
  act-IsSafe (turn envs) s s' c e v = turn-IsSafe envs s s' v s.phase refl e
  act-IsSafe exit s s' c e v =
      subst IsSafe (eq_of_some e) (record { front = v.front; ready = v.ready })

  -- However threads log and the back end takes its steps, as long as no file operation faults: the
  -- front end's buffers stay sound, so that the next call of `log_async_get_log` finds a buffer.
  pub run-IsSafe :
      (actions : List Action) (s s' : System)
      → All IsCall actions
      → run size actions s ≡ some s'
      → IsSafe s
      → IsSafe s'
  unfolding run
  run-IsSafe [] s s' c e v = subst IsSafe (eq_of_some e) v
  run-IsSafe (a ∷ actions) s s' c e v =
      let (t, first, rest) = bind_inv (act size a s) _ e in
      run-IsSafe actions t s' c.1 rest (act-IsSafe a s t c.0 first v)
