-- ===== src/Net/Epoll/Tests.antt =====
-- The theorems on the epoll server at the listening socket 3 and the clients 5 and 6.
use coding_demo.Base.{
  ℕ, ◌≡◌, ◌≢◌, refl, none, some, List, [], ◌∷◌, arith, Returns, replicate, true, false,
}
use coding_demo.Net.Epoll.{Server, Ready, sent, epollin, handle_events, epoll_init}
use coding_demo.Net.Epoll.Watch.{IsValid, epoll_init-IsValid, handle_events-IsValid}
use coding_demo.Net.Epoll.Echo.{can_read, can_write, handle_events-echo}

abbrev hello : List ℕ
hello = b'h' ∷ b'e' ∷ b'l' ∷ b'l' ∷ b'o' ∷ []

-- The clients 5 and 6 are watched for reading.
abbrev server : Server
server = record { watched = λ k. some epollin; buf = replicate 1024 0; actions = [] }

abbrev new_client : Ready
new_client = record {
  fd = 3;
  is_in = true;
  is_out = false;
  accepted = some 5;
  received = none;
  written = none;
}

handle_events-IsValid_example :
    Returns
      (handle_events 3
        (new_client ∷ can_read 5 hello ∷ can_write 5 5 ∷ can_read 5 [] ∷ [])
        (epoll_init 3))
      (IsValid 3)
handle_events-IsValid_example =
    handle_events-IsValid 3 (new_client ∷ can_read 5 hello ∷ can_write 5 5 ∷ can_read 5 [] ∷ [])
      (epoll_init 3) (ground arith) (epoll_init-IsValid 3)

handle_events-echo_example :
    Returns (handle_events 3 (can_read 5 hello ∷ can_write 5 5 ∷ []) server) λ s'.
      (s'.actions ≡ sent 5 hello ∷ [])
      × (s'.watched 5 ≡ some epollin)
      × (s'.buf ≡ replicate 1024 0)
      × ((k : ℕ) → k ≢ 5 → s'.watched k ≡ some epollin)
handle_events-echo_example =
    handle_events-echo 3 5 b'h' (b'e' ∷ b'l' ∷ b'l' ∷ b'o' ∷ []) server (omega arith) (omega arith)
      (ground arith) refl refl
