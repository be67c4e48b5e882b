-- ===== src/Net/Select.antt =====
-- C/net/select/server.c: a server with five slots for clients. What the kernel answers in a round
-- of its loop is an argument; what the server prints is not modelled, and neither is `FD_CLR`,
-- since a descriptor stands in one slot.
pub mod Slots
mod Tests
use coding_demo.Libc.Buffer.{has_end, take, c_string, write_at}
use coding_demo.Base.{
  ℕ, zero, suc, ◌+◌, Bool, true, false, Option, none, some, List, [], ◌∷◌, ◌++◌, ◌==◌,
  if◌then◌else◌, length, replicate, set, get_elem?, ◌>>=◌, ltb, ℤ, pos, negsuc,
}

abbrev pub max_listen_num : ℕ
max_listen_num = 10

abbrev pub max_buffer : ℕ
max_buffer = 1024

abbrev pub max_live_fd_num : ℕ
max_live_fd_num = 5

-- The variables of `main`; 0 is a slot without a client. Nothing clears `buffer` before the first
-- client comes.
pub record Server : Type 0 where
  pub serverfd : ℕ
  pub client_sockfd : List ℕ
  pub conn_amount : ℕ
  pub maxfd : ℕ
  pub buffer : List ℕ

pub data Action : Type 0 where
  printed : List ℕ → Action
  welcomed : ℕ → Action
  closed : ℕ → Action

-- What `select` returns: below 0, 0, or above 0.
pub data Selected : Type 0 where
  failed : Selected
  timeout : Selected
  ready : Selected

-- The other answers in a round: the set that `select` leaves, the bytes of `recv` for each slot,
-- what `accept` returns, and the first `recv` from a new client; -1 is `none`.
pub record Round : Type 0 where
  pub is_set : ℕ → Bool
  pub received : ℕ → Option (List ℕ)
  pub accepted : Option ℕ
  pub first_received : Option (List ℕ)

-- Whether the loop goes on, or `main` has returned.
pub data Status : Type 0 where
  running : Status
  returned : ℤ → Status

-- The slots, the buffer, and what has gone out.
abbrev pub Progress : Type 0
Progress = List ℕ × List ℕ × List Action

-- `printf("%s")` of the buffer, which runs past its end where it has no NUL.
unfoldable pub print_buffer : List ℕ → Option Action
print_buffer buffer = if has_end buffer then some (printed (c_string buffer)) else none

-- What comes of a `recv`; it leaves in the buffer what it does not write over.
unfoldable pub handle_recv : ℕ → ℕ → Option (List ℕ) → Progress → Option Progress
unfolding print_buffer
handle_recv i fd none (fds, buffer, actions) = some (set fds i 0, buffer, actions ++ closed fd ∷ [])
handle_recv i fd (some []) (fds, buffer, actions) =
    some (set fds i 0, buffer, actions ++ closed fd ∷ [])
handle_recv i fd (some (c ∷ bytes)) (fds, buffer, actions) =
    let buffer = write_at buffer 0 (take max_buffer (c ∷ bytes)) in
    print_buffer buffer >>= λ out. some (fds, buffer, actions ++ out ∷ [])

unfoldable pub recv_slot : Round → ℕ → Progress → Option Progress
unfolding handle_recv
recv_slot r i t =
    get_elem? t.0 i >>= λ fd. if r.is_set fd then handle_recv i fd (r.received i) t else some t

-- `for (i = 0; i < conn_amount; ++i)`: `count` slots from `i` on.
unfoldable pub recv_slots : ℕ → Round → ℕ → Progress → Option Progress
unfolding recv_slot
recv_slots zero r i t = some t
recv_slots (suc count) r i t = recv_slot r i t >>= recv_slots count r (i + 1)

-- The last loop: `count` slots from `i` on; a read past the array is a fault.
unfoldable pub close_slots : ℕ → ℕ → List ℕ → List Action → Option (List Action)
close_slots zero i fds actions = some actions
close_slots (suc count) i fds actions = get_elem? fds i >>= λ fd.
    close_slots count (i + 1) fds (if fd == 0 then actions else actions ++ closed fd ∷ [])

-- After the loop has been left.
unfoldable pub quit : Server → List Action → Option (Status × Server × List Action)
unfolding close_slots
quit s actions = close_slots max_listen_num 0 s.client_sockfd actions >>= λ actions.
    some (returned (pos 0), s, actions ++ closed s.serverfd ∷ [])

-- A new client that has been put into its slot and welcomed: its first `recv`, into a cleared
-- buffer.
unfoldable pub greet :
    ℕ → Option (List ℕ) → Server → List Action → Option (Status × Server × List Action)
unfolding quit print_buffer
greet clifd none s actions = some (
  returned (negsuc 0),
  record s { buffer = replicate max_buffer 0 },
  actions ++ closed s.serverfd ∷ [],
)
greet clifd (some bytes) s actions =
    let buffer = write_at (replicate max_buffer 0) 0 (take max_buffer bytes) in
    print_buffer buffer >>= λ out.
    if ltb s.maxfd clifd
    then some (running, record s { maxfd = clifd; buffer = buffer }, actions ++ out ∷ [])
    else quit (record s { buffer = buffer }) (actions ++ out ∷ [])

-- A new client beyond the slots is left open and unserved.
unfoldable pub accept_new :
    Option ℕ → Round → Server → List Action → Option (Status × Server × List Action)
unfolding greet
accept_new none r s actions = some (running, s, actions)
accept_new (some clifd) r s actions =
    if ltb s.conn_amount max_live_fd_num
    then greet clifd r.first_received
        (record s {
          client_sockfd = set s.client_sockfd s.conn_amount clifd;
          conn_amount = s.conn_amount + 1;
        })
        (actions ++ welcomed clifd ∷ [])
    else some (running, s, actions)

-- A round once `select` has found something.
unfoldable pub serve : Round → Server → Option (Status × Server × List Action)
unfolding recv_slots accept_new
serve r s = recv_slots s.conn_amount r 0 (s.client_sockfd, s.buffer, []) >>= λ t.
    let s = record s { client_sockfd = t.0; buffer = t.1 } in
    if r.is_set s.serverfd then accept_new r.accepted r s t.2 else some (running, s, t.2)

-- The body of the `while`.
unfoldable pub select_round : Selected → Round → Server → Option (Status × Server × List Action)
unfolding quit serve
select_round failed r s = quit s []
select_round timeout r s = some (running, s, [])
select_round ready r s = serve r s

-- `main` up to its loop; `buffer` is what stands on the stack.
unfoldable pub select_init : ℕ → List ℕ → Server
select_init serverfd buffer = record {
  serverfd = serverfd;
  client_sockfd = replicate max_live_fd_num 0;
  conn_amount = 0;
  maxfd = serverfd;
  buffer = buffer;
}
