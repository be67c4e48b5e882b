-- ===== src/Net/Select/Slots.antt =====
-- The slots of the select server between two rounds.
use coding_demo.Base.{
  replicate, Option-cases, ℕ, zero, suc, ◌+◌, ◌≤◌, ◌<◌, ◌≡◌, ◌≢◌, refl, ap, ◌∙◌, Bool-cases, inl,
  inr, true, false, Option, none, some, List, [], ◌∷◌, ◌++◌, ltb, if◌then◌else◌, length, length-set,
  set, get_elem?, get_elem?-lt, arith, ◌⊎◌, negsuc, Returns, All,
}
use coding_demo.Libc.Buffer.{take, take-all, c_string, write_at, length-write_at}
use coding_demo.Libc.Terminated.{get_elem?-write_at, ends}
use coding_demo.Net.Select.{
  Server, Action, welcomed, Round, Status, running, returned, ready, Progress, handle_recv,
  print_buffer, printed, max_buffer, recv_slot, recv_slots, close_slots, quit, greet, accept_new,
  serve, select_round, select_init,
}

-- There are five slots, of which `conn_amount` have been given away, and `maxfd`, which bounds what
-- `select` watches, is at least each descriptor. The buffer has its size, and ends with a NUL once
-- a slot has been given away.
pub record IsValid (s : Server) : Type 0 where
  pub size : length s.client_sockfd ≡ 5
  pub used : s.conn_amount ≤ 5
  pub watched : All (λ fd. fd ≤ s.maxfd) s.client_sockfd
  pub listens : s.serverfd ≤ s.maxfd
  pub room : length s.buffer ≡ 1024
  pub ended : (s.conn_amount ≡ 0) ⊎ (get_elem? s.buffer 1023 ≡ some 0)

All-set : (P : ℕ → Type 0) (xs : List ℕ) (i x : ℕ) → P x → All P xs → All P (set xs i x)
All-set P [] i x h a = tt
All-set P (y ∷ xs) zero x h a = (h, a.1)
All-set P (y ∷ xs) (suc i) x h a = (a.0, All-set P xs i x h a.1)

-- A table of slots with its size and its bound.
abbrev Bounded : ℕ → List ℕ → Type 0
Bounded n fds = (length fds ≡ 5) × All (λ fd. fd ≤ n) fds

-- No `recv` fills the whole buffer.
abbrev pub IsShort : Option (List ℕ) → Type 0
IsShort none = Unit
IsShort (some bytes) = length bytes < 1024

-- A buffer of 1024 bytes with a NUL at its end.
abbrev Ended : List ℕ → Type 0
Ended buffer = (length buffer ≡ 1024) × (get_elem? buffer 1023 ≡ some 0)

written-Ended :
    (buffer bytes : List ℕ)
    → length bytes < 1024
    → Ended buffer
    → Ended (write_at buffer 0 (take 1024 bytes))
written-Ended buffer bytes short (size, last) =
    let all = take-all 1024 bytes (omega arith) in
    (
      length-write_at buffer 0 (take 1024 bytes) ∙ size,
      get_elem?-write_at buffer (take 1024 bytes) 1023 (omega (arith, ap length all)) ∙ last,
    )

print_buffer-Ended :
    (buffer : List ℕ) → Ended buffer → print_buffer buffer ≡ some (printed (c_string buffer))
unfolding print_buffer
print_buffer-Ended buffer (size, last) = let stop = ends buffer size last in rw stop refl

-- The slots and the buffer while the clients are served.
abbrev Serving : ℕ → Progress → Type 0
Serving n t = Bounded n t.0 × Ended t.1

handle_recv-Serving :
    (n i fd : ℕ) (x : Option (List ℕ)) (t : Progress)
    → IsShort x
    → Serving n t
    → Returns (handle_recv i fd x t) (Serving n)
unfolding handle_recv
handle_recv-Serving n i fd none (fds, buffer, actions) short (b, e) =
    (_, refl, ((length-set fds i 0 ∙ b.0, All-set (λ fd. fd ≤ n) fds i 0 (omega arith) b.1), e))
handle_recv-Serving n i fd (some []) (fds, buffer, actions) short (b, e) =
    (_, refl, ((length-set fds i 0 ∙ b.0, All-set (λ fd. fd ≤ n) fds i 0 (omega arith) b.1), e))
handle_recv-Serving n i fd (some (c ∷ bytes)) (fds, buffer, actions) short (b, e) =
    let buffer' = write_at buffer 0 (take max_buffer (c ∷ bytes)) in
    let e' = written-Ended buffer (c ∷ bytes) short e in
    let out = print_buffer-Ended buffer' e' in
    ((fds, buffer', actions ++ printed (c_string buffer') ∷ []), rw out refl, (b, e'))

recv_slots-Serving :
    (count n i : ℕ) (r : Round) (t : Progress)
    → ((i : ℕ) → IsShort (r.received i))
    → i + count ≤ 5
    → Serving n t
    → Returns (recv_slots count r i t) (Serving n)
unfolding recv_slots recv_slot
recv_slots-Serving zero n i r t short le b = (t, refl, b)
recv_slots-Serving (suc count) n i r t short le b =
    let (fd, found) = get_elem?-lt t.0 i (omega (arith, b.0.0)) in
    let (t1, one, b1) = kept fd in
    let (t2, run, c) = recv_slots-Serving count n (i + 1) r t1 short (omega arith) b1 in
    (t2, rw (found, one) run, c)
  where
    kept :
        (fd : ℕ)
        → Returns (if r.is_set fd then handle_recv i fd (r.received i) t else some t) (Serving n)
    kept fd = elim (Bool-cases (r.is_set fd)) [
      | inl yes_set ↦ rw yes_set (handle_recv-Serving n i fd (r.received i) t (short i) b)
      | inr no_set ↦ rw no_set (t, refl, b)
    ]

-- The loop over the slots: where none has been given away, the buffer does not matter.
serving_clients :
    (r : Round) (s : Server)
    → IsValid s
    → ((i : ℕ) → IsShort (r.received i))
    → Returns (recv_slots s.conn_amount r 0 (s.client_sockfd, s.buffer, [])) λ t.
      Bounded s.maxfd t.0
      × (length t.1 ≡ 1024)
      × ((s.conn_amount ≡ 0) ⊎ (get_elem? t.1 1023 ≡ some 0))
unfolding recv_slots
serving_clients r s v short = elim v.ended [
  | inl nobody ↦ (
    (s.client_sockfd, s.buffer, []),
    ap (λ n. recv_slots n r 0 (s.client_sockfd, s.buffer, [])) nobody,
    ((v.size, v.watched), v.room, inl nobody),
  )
  | inr last ↦
      let (t, run, (b, e)) =
        recv_slots-Serving s.conn_amount s.maxfd 0 r (s.client_sockfd, s.buffer, []) short
          (omega (arith, v.used)) ((v.size, v.watched), (v.room, last)) in
      (t, run, (b, e.0, inr e.1))
]

get_elem?-out : (xs : List ℕ) (i : ℕ) → length xs ≤ i → get_elem? xs i ≡ none
get_elem?-out [] i h = refl
get_elem?-out (x ∷ xs) zero h = absurd (omega arith)
get_elem?-out (x ∷ xs) (suc i) h = get_elem?-out xs i (omega arith)

close_slots-fault :
    (count i : ℕ) (fds : List ℕ) (actions : List Action)
    → i ≤ length fds
    → length fds < i + count
    → close_slots count i fds actions ≡ none
unfolding close_slots
close_slots-fault zero i fds actions le over = absurd (omega arith)
close_slots-fault (suc count) i fds actions le over = elim (Bool-cases (ltb i (length fds))) [
  | inl inside ↦
      let (fd, found) = get_elem?-lt fds i (ground arith) in
      rw found (close_slots-fault count (i + 1) fds _ (ground arith) (omega arith))
  | inr out ↦ let gone = get_elem?-out fds i (ground arith) in rw gone
]

-- Leaving the loop runs into the closing of ten slots, of which there are five.
quit-fault :
    (s : Server) (actions : List Action) → length s.client_sockfd ≡ 5 → quit s actions ≡ none
unfolding quit
quit-fault s actions size =
    let fault = close_slots-fault 10 0 s.client_sockfd actions (omega arith) (omega arith) in
    rw fault

-- The state with a new client in the next slot.
abbrev taken : ℕ → Server → Server
taken clifd s = record s {
  client_sockfd = set s.client_sockfd s.conn_amount clifd;
  conn_amount = s.conn_amount + 1;
}

-- A new descriptor is above all that are in use.
abbrev pub IsNew : Option ℕ → ℕ → Type 0
IsNew none maxfd = Unit
IsNew (some clifd) maxfd = maxfd < clifd

abbrev StillValid : Status × Server × List Action → Type 0
StillValid x = ((x.0 ≡ running) × IsValid x.1) ⊎ (x.0 ≡ returned (negsuc 0))

greet-fault :
    (clifd : ℕ) (x : Option (List ℕ)) (s : Server) (actions : List Action)
    → x ≢ none
    → length s.client_sockfd ≡ 5
    → clifd ≤ s.maxfd
    → greet clifd x s actions ≡ none
unfolding greet
greet-fault clifd none s actions some_bytes size low = absurd (some_bytes refl)
greet-fault clifd (some bytes) s actions some_bytes size low =
    let lower : ltb s.maxfd clifd ≡ false = ground arith in
    let buffer = write_at (replicate max_buffer 0) 0 (take max_buffer bytes) in
    elim (Option-cases (print_buffer buffer)) [
      | inl over ↦ rw over refl
      | inr (out, shown) ↦ rw (shown, lower) (quit-fault (record s { buffer = buffer }) _ size)
    ]

accept_new-fault :
    (clifd : ℕ) (r : Round) (s : Server) (actions : List Action)
    → r.first_received ≢ none
    → length s.client_sockfd ≡ 5
    → s.conn_amount < 5
    → clifd ≤ s.maxfd
    → accept_new (some clifd) r s actions ≡ none
unfolding accept_new
accept_new-fault clifd r s actions some_bytes size room low =
    let free : ltb s.conn_amount 5 ≡ true = ground arith in
    rw free (
      greet-fault clifd r.first_received (taken clifd s) (actions ++ welcomed clifd ∷ []) some_bytes
        (length-set s.client_sockfd s.conn_amount clifd ∙ size) low)

-- When a new client, with a slot left for it, gets a descriptor that is not above the highest one
-- so far, and its first bytes arrive, while no other client fills the buffer, the program reads
-- past an array: it leaves its loop and closes ten slots.
pub select_round-fault :
    (r : Round) (s : Server) (clifd : ℕ)
    → IsValid s
    → ((i : ℕ) → IsShort (r.received i))
    → r.is_set s.serverfd ≡ true
    → r.accepted ≡ some clifd
    → r.first_received ≢ none
    → s.conn_amount < 5
    → clifd ≤ s.maxfd
    → select_round ready r s ≡ none
unfolding select_round serve
select_round-fault r s clifd v short knock new some_bytes room low =
    let (t, run, (b, size, last)) = serving_clients r s v short in
    let s1 = record s { client_sockfd = t.0; buffer = t.1 } in
    rw (run, knock)
      (ap (λ x. accept_new x r s1 t.2) new
        ∙ accept_new-fault clifd r s1 t.2 some_bytes b.0 room low)

pub select_init-IsValid :
    (serverfd : ℕ) (buffer : List ℕ) → length buffer ≡ 1024 → IsValid (select_init serverfd buffer)
unfolding select_init
select_init-IsValid serverfd buffer size = record {
  size = refl;
  used = omega arith;
  watched = ground arith;
  listens = omega arith;
  room = size;
  ended = inl refl;
}
