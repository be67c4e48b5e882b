-- ===== src/Net/Poll.antt =====
-- C/net/poll/server.c: an echo server with a table of descriptors. What the kernel answers in a
-- round of its loop is an argument.
pub mod Table
pub mod Knock
pub mod Serve
pub mod Talk
pub mod Client
mod Tests
use coding_demo.Base.{
  ℕ, zero, suc, ◌+◌, ◌-◌, Bool, true, false, Option, none, some, List, [], ◌∷◌, ◌++◌, ◌==◌,
  if◌then◌else◌, length, replicate, set, get_elem?, ◌>>=◌, ltb, leb, ℤ, pos, negsuc,
}
use coding_demo.Libc.Buffer.{take, write_at}

abbrev pub fd_size : ℕ
fd_size = 1000

abbrev pub max_line : ℕ
max_line = 1024

-- The array `clientfds` and `maxi`; every slot in use waits for POLLIN.
pub record Server : Type 0 where
  pub client_fds : List ℤ
  pub maxi : ℕ

pub data Action : Type 0 where
  printed : List ℕ → Action
  sent : ℕ → List ℕ → Action
  closed : ℕ → Action

-- The table, the buffer, and what has gone out, while the clients are served.
abbrev pub Progress : Type 0
Progress = List ℤ × List ℕ × List Action

-- What `accept` returns: a descriptor, -1 with EINTR, or -1 for another reason.
pub data Accepted : Type 0 where
  client : ℕ → Accepted
  interrupted : Accepted
  failed : Accepted

-- The answers in a round: `poll`'s count, whether POLLIN is set for each slot, what `accept`
-- returns, and the bytes that `read` gives for each slot, `none` for -1.
pub record Round : Type 0 where
  pub nready : ℕ
  pub revents : ℕ → Bool
  pub accepted : Accepted
  pub received : ℕ → Option (List ℕ)

-- The slot for a new client: the first free one from `i` on.
unfoldable pub free_slot : ℕ → List ℤ → Option ℕ
free_slot i [] = none
free_slot i (pos fd ∷ fds) = free_slot (i + 1) fds
free_slot i (negsuc k ∷ fds) = some i

-- `do_poll` up to its loop.
unfoldable pub poll_init : ℕ → Server
poll_init listenfd = record {
  client_fds = pos listenfd ∷ replicate (fd_size - 1) (negsuc 0);
  maxi = 0;
}

-- The table without its first slot, from which the search starts.
abbrev pub clients : List ℤ → List ℤ
clients [] = []
clients (fd ∷ fds) = fds

-- A client is put into the table; where it is full the program exits, which is `none`.
unfoldable pub add_client : ℕ → Server → Option Server
unfolding free_slot
add_client connfd s = free_slot 1 (clients s.client_fds) >>= λ i. some (record {
  client_fds = set s.client_fds i (pos connfd);
  maxi = if ltb s.maxi i then i else s.maxi;
})

-- What comes of a `read` at the slot `i`. One of -1 makes the following writes run past the buffer.
-- The buffer keeps what earlier reads have left.
unfoldable pub handle_read : ℕ → ℕ → Option (List ℕ) → Progress → Option Progress
handle_read i fd none (fds, buf, actions) = none
handle_read i fd (some []) (fds, buf, actions) =
    some (set fds i (negsuc 0), buf, actions ++ closed fd ∷ [])
handle_read i fd (some (c ∷ bytes)) (fds, buf, actions) =
    let buf' = write_at buf 0 (take max_line (c ∷ bytes)) in
    let out = take (length (c ∷ bytes)) buf' in
    some (fds, buf', actions ++ printed out ∷ sent fd out ∷ [])

unfoldable pub serve_fd : Round → ℕ → ℤ → Progress → Option Progress
unfolding handle_read
serve_fd r i (negsuc k) t = some t
serve_fd r i (pos fd) t = if r.revents i then handle_read i fd (r.received i) t else some t

-- One slot of the loop over the clients.
unfoldable pub serve_slot : Round → ℕ → Progress → Option Progress
unfolding serve_fd
serve_slot r i t = get_elem? t.0 i >>= λ fd. serve_fd r i fd t

unfoldable pub serve_slots : ℕ → Round → ℕ → Progress → Option Progress
unfolding serve_slot
serve_slots zero r i t = some t
serve_slots (suc count) r i t = serve_slot r i t >>= serve_slots count r (i + 1)

unfoldable pub serve_clients : Round → Server → Option (Server × List Action)
unfolding serve_slots
serve_clients r s = serve_slots (s.maxi + 1) r 0 (s.client_fds, replicate max_line 0, []) >>= λ t.
    some (record s { client_fds = t.0 }, t.2)

-- A new client, which is the only one to be served where `poll` counts no more.
unfoldable pub accept_client : Accepted → Round → Server → Option (Server × List Action)
unfolding add_client serve_clients
accept_client failed r s = none
accept_client interrupted r s = some (s, [])
accept_client (client connfd) r s =
    add_client connfd s >>= λ s. if leb r.nready 1 then some (s, []) else serve_clients r s

-- The body of the `while`, for a `poll` that succeeds.
unfoldable pub poll_round : Round → Server → Option (Server × List Action)
unfolding accept_client
poll_round r s = if r.revents 0 then accept_client r.accepted r s else serve_clients r s

-- The `while`, round by round.
unfoldable pub poll_loop : List Round → Server → Option (Server × List Action)
unfolding poll_round
poll_loop [] s = some (s, [])
poll_loop (r ∷ rs) s = poll_round r s >>= λ t. poll_loop rs t.0 >>= λ u. some (u.0, t.1 ++ u.1)
