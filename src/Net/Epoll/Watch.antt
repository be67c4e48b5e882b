-- ===== src/Net/Epoll/Watch.antt =====
-- What the server watches, and that its buffer always ends.
use coding_demo.Base.{
  ℕ, ◌<◌, ◌≡◌, ◌≢◌, refl, ap, ◌∙◌, inl, inr, Bool-cases, ==_iff, true, Option, none, some, List, [],
  ◌∷◌, ◌++◌, ◌==◌, length, get_elem?, get_elem?-replicate, replicate, length-replicate, arith, All,
  Returns,
}
use coding_demo.Libc.Buffer.{has_end, take, c_string, write_at, length-write_at, take-all}
use coding_demo.Libc.Terminated.{get_elem?-write_at, ends}
use coding_demo.Net.Epoll.{
  Server, Ready, State, Action, sent, closed, epollin, epollout, max_size, update, add_event,
  modify_event, delete_event, close_fd, handle_accept, do_read, do_write, handle_event,
  handle_events, epoll_init,
}

-- The listening socket is watched for clients; the buffer has its size, and a NUL at its end.
pub record IsValid (listenfd : ℕ) (s : Server) : Type 0 where
  pub listens : s.watched listenfd ≡ some epollin
  pub size : length s.buf ≡ 1024
  pub last : get_elem? s.buf 1023 ≡ some 0

abbrev pub IsShort : Option (List ℕ) → Type 0
IsShort none = Unit
IsShort (some bytes) = length bytes < 1024

-- The kernel reports no EPOLLOUT for the listening socket and no new client with its descriptor,
-- and a read does not fill the whole buffer.
abbrev pub IsReport : ℕ → Ready → Type 0
IsReport listenfd e =
    (e.is_out ≡ true → e.fd ≢ listenfd) × (e.accepted ≢ some listenfd) × IsShort e.received

touched-IsValid :
    (listenfd fd : ℕ) (st : Option State) (s : Server) (buf : List ℕ) (actions : List Action)
    → fd ≢ listenfd
    → length buf ≡ 1024
    → get_elem? buf 1023 ≡ some 0
    → IsValid listenfd s
    → IsValid listenfd (record { watched = update s.watched fd st; buf = buf; actions = actions })
touched-IsValid listenfd fd st s buf actions ne size last v = record {
  listens = ground (arith, v.listens);
  size = size;
  last = last;
}

closed-IsValid :
    (listenfd fd : ℕ) (s : Server)
    → fd ≢ listenfd
    → IsValid listenfd s
    → IsValid listenfd (delete_event fd (close_fd fd s))
unfolding delete_event close_fd
closed-IsValid listenfd fd s ne v =
    touched-IsValid listenfd fd none _ s.buf _ ne v.size v.last
      (touched-IsValid listenfd fd none s s.buf (s.actions ++ closed fd ∷ []) ne v.size v.last v)

do_read-IsValid :
    (listenfd fd : ℕ) (r : Option (List ℕ)) (s : Server)
    → fd ≢ listenfd
    → IsShort r
    → IsValid listenfd s
    → Returns (do_read fd r s) (IsValid listenfd)
unfolding do_read modify_event
do_read-IsValid listenfd fd none s ne short v = (_, refl, closed-IsValid listenfd fd s ne v)
do_read-IsValid listenfd fd (some []) s ne short v = (_, refl, closed-IsValid listenfd fd s ne v)
do_read-IsValid listenfd fd (some (c ∷ bytes)) s ne short v =
    let text = take 1024 (c ∷ bytes) in
    let all = take-all 1024 (c ∷ bytes) (omega arith) in
    let size = length-write_at s.buf 0 text ∙ v.size in
    let last = get_elem?-write_at s.buf text 1023 (omega (arith, ap length all)) ∙ v.last in
    let stop = ends (write_at s.buf 0 text) size last in
    (
      modify_event fd epollout (record s { buf = write_at s.buf 0 text }),
      rw stop refl,
      touched-IsValid listenfd fd _ s (write_at s.buf 0 text) s.actions ne size last v,
    )

-- What `do_write` leaves.
abbrev after_write : ℕ → Option ℕ → Server → Server
after_write fd none s = delete_event fd (close_fd fd s)
after_write fd (some n) s = record (modify_event fd epollin s) {
  buf = replicate max_size 0;
  actions = s.actions ++ sent fd (take n (c_string s.buf)) ∷ [];
}

do_write-eq :
    (fd : ℕ) (r : Option ℕ) (s : Server)
    → has_end s.buf ≡ true
    → do_write fd r s ≡ some (after_write fd r s)
unfolding do_write
do_write-eq fd none s h = rw h refl
do_write-eq fd (some n) s h = rw h refl

after_write-IsValid :
    (listenfd fd : ℕ) (r : Option ℕ) (s : Server)
    → fd ≢ listenfd
    → IsValid listenfd s
    → IsValid listenfd (after_write fd r s)
unfolding modify_event
after_write-IsValid listenfd fd none s ne v = closed-IsValid listenfd fd s ne v
after_write-IsValid listenfd fd (some n) s ne v =
    touched-IsValid listenfd fd _ s (replicate max_size 0) _ ne
      (length-replicate {A = ℕ} max_size 0) (get_elem?-replicate {A = ℕ} 1024 1023 0 (omega arith))
      v

do_write-IsValid :
    (listenfd fd : ℕ) (r : Option ℕ) (s : Server)
    → fd ≢ listenfd
    → IsValid listenfd s
    → Returns (do_write fd r s) (IsValid listenfd)
do_write-IsValid listenfd fd r s ne v = (
  after_write fd r s,
  do_write-eq fd r s (ends s.buf v.size v.last),
  after_write-IsValid listenfd fd r s ne v,
)

handle_accept-IsValid :
    (listenfd : ℕ) (r : Option ℕ) (s : Server)
    → r ≢ some listenfd
    → IsValid listenfd s
    → IsValid listenfd (handle_accept r s)
unfolding handle_accept add_event
handle_accept-IsValid listenfd none s ne v = v
handle_accept-IsValid listenfd (some fd) s ne v =
    touched-IsValid listenfd fd _ s s.buf s.actions (λ e. ne (ap some e)) v.size v.last v

handle_event-IsValid :
    (listenfd : ℕ) (e : Ready) (s : Server)
    → IsReport listenfd e
    → IsValid listenfd s
    → Returns (handle_event listenfd e s) (IsValid listenfd)
unfolding handle_event
handle_event-IsValid listenfd e s report v = elim (Bool-cases (e.fd == listenfd)) [
  | inl mine ↦ elim (Bool-cases e.is_in) [
    | inl is_in ↦ (_, rw (mine, is_in) refl, handle_accept-IsValid listenfd e.accepted s report.1 v)
    | inr not_in ↦ elim (Bool-cases e.is_out) [
      | inl is_out ↦ absurd (report.0 is_out ((==_iff e.fd listenfd).0 mine))
      | inr not_out ↦ (s, rw (mine, not_in, not_out) refl, v)
    ]
  ]
  | inr other ↦
      let ne : e.fd ≢ listenfd = λ same. ground arith in
      elim (Bool-cases e.is_in) [
        | inl is_in ↦ rw (other, is_in) (do_read-IsValid listenfd e.fd e.received s ne report.2 v)
        | inr not_in ↦ elim (Bool-cases e.is_out) [
          | inl is_out ↦
              rw (other, not_in, is_out) (do_write-IsValid listenfd e.fd e.written s ne v)
          | inr not_out ↦ (s, rw (other, not_in, not_out) refl, v)
        ]
      ]
]

pub epoll_init-IsValid : (listenfd : ℕ) → IsValid listenfd (epoll_init listenfd)
unfolding epoll_init add_event
epoll_init-IsValid listenfd = record {
  listens = ground arith;
  size = length-replicate {A = ℕ} max_size 0;
  last = get_elem?-replicate {A = ℕ} 1024 1023 0 (omega arith);
}

-- Whatever the kernel reports and answers, as long as it reports no EPOLLOUT for the listening
-- socket, gives no client its descriptor, and no read fills the whole buffer: `handle_events`
-- returns without reading past the buffer, and from a valid state it leaves a valid one, in which
-- the listening socket is still watched for clients.
pub handle_events-IsValid :
    (listenfd : ℕ) (events : List Ready) (s : Server)
    → All (IsReport listenfd) events
    → IsValid listenfd s
    → Returns (handle_events listenfd events s) (IsValid listenfd)
unfolding handle_events
handle_events-IsValid listenfd [] s reports v = (s, refl, v)
handle_events-IsValid listenfd (e ∷ events) s reports v =
    let (t, first, w) = handle_event-IsValid listenfd e s reports.0 v in
    let (s', rest, x) = handle_events-IsValid listenfd events t reports.1 w in
    (s', rw first rest, x)
