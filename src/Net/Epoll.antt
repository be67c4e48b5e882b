-- ===== src/Net/Epoll.antt =====
-- C/net/epoll/server.c: an echo server. The descriptors that epoll watches are a map, what the
-- kernel answers to accept, read and write comes with the event, and all clients share one buffer.
pub mod Echo
pub mod Watch
mod Tests
use coding_demo.Base.{
  ℕ, zero, suc, Bool, true, false, ◌&&◌, Option, none, some, List, [], ◌∷◌, ◌++◌, ◌==◌,
  if◌then◌else◌, length, replicate, ◌>>=◌, ltb,
}
use coding_demo.Libc.Buffer.{has_end, take, write_at, c_string}

abbrev pub max_size : ℕ
max_size = 1024

-- EPOLLIN and EPOLLOUT.
pub data State : Type 0 where
  epollin : State
  epollout : State

-- What goes out of the server, in order.
pub data Action : Type 0 where
  sent : ℕ → List ℕ → Action
  closed : ℕ → Action

pub record Server : Type 0 where
  pub watched : ℕ → Option State
  pub buf : List ℕ
  pub actions : List Action

-- An event, with the answers of the calls that it leads to: the new descriptor or -1 of `accept`,
-- the bytes or -1 of `read`, and the count or -1 of `write`; -1 is `none`.
pub record Ready : Type 0 where
  pub fd : ℕ
  pub is_in : Bool
  pub is_out : Bool
  pub accepted : Option ℕ
  pub received : Option (List ℕ)
  pub written : Option ℕ

abbrev pub update : (ℕ → Option State) → ℕ → Option State → ℕ → Option State
update f fd v k = if fd == k then v else f k

abbrev pub or_state : Option State → State → Option State
or_state none new = some new
or_state (some old) new = some old

abbrev pub if_watched : Option State → State → Option State
if_watched none new = none
if_watched (some old) new = some new

-- EPOLL_CTL_ADD changes nothing for a descriptor that is watched, EPOLL_CTL_MOD for one that is
-- not.
unfoldable pub add_event : ℕ → State → Server → Server
add_event fd state s = record s { watched = update s.watched fd (or_state (s.watched fd) state) }

unfoldable pub modify_event : ℕ → State → Server → Server
modify_event fd state s = record s {
  watched = update s.watched fd (if_watched (s.watched fd) state);
}

unfoldable pub delete_event : ℕ → Server → Server
delete_event fd s = record s { watched = update s.watched fd none }

-- `close` ends the watching of the descriptor as well.
unfoldable pub close_fd : ℕ → Server → Server
close_fd fd s = record s {
  watched = update s.watched fd none;
  actions = s.actions ++ closed fd ∷ [];
}

unfoldable pub handle_accept : Option ℕ → Server → Server
unfolding add_event
handle_accept none s = s
handle_accept (some clifd) s = add_event clifd epollin s

unfoldable pub do_read : ℕ → Option (List ℕ) → Server → Option Server
unfolding close_fd delete_event modify_event has_end
do_read fd none s = some (delete_event fd (close_fd fd s))
do_read fd (some []) s = some (delete_event fd (close_fd fd s))
do_read fd (some (c ∷ bytes)) s =
    let buf = write_at s.buf 0 (take max_size (c ∷ bytes)) in
    if has_end buf then some (modify_event fd epollout (record s { buf = buf })) else none

unfoldable pub do_write : ℕ → Option ℕ → Server → Option Server
unfolding close_fd delete_event modify_event has_end
do_write fd nwrite s =
    if has_end s.buf
    then some (elim nwrite [
      | none ↦ delete_event fd (close_fd fd s)
      | some n ↦ record (modify_event fd epollin s) {
        buf = replicate max_size 0;
        actions = s.actions ++ sent fd (take n (c_string s.buf)) ∷ [];
      }
    ])
    else none

-- The body of the loop of `handle_events`.
unfoldable pub handle_event : ℕ → Ready → Server → Option Server
unfolding handle_accept do_read do_write
handle_event listenfd e s =
    if e.fd == listenfd && e.is_in
    then some (handle_accept e.accepted s)
    else if e.is_in
    then do_read e.fd e.received s
    else if e.is_out
    then do_write e.fd e.written s
    else some s

unfoldable pub handle_events : ℕ → List Ready → Server → Option Server
unfolding handle_event
handle_events listenfd [] s = some s
handle_events listenfd (e ∷ events) s = handle_event listenfd e s >>= handle_events listenfd events

-- `do_epoll` up to its loop.
unfoldable pub epoll_init : ℕ → Server
unfolding add_event
epoll_init listenfd =
    add_event listenfd epollin
      (record { watched = λ fd. none; buf = replicate max_size 0; actions = [] })
