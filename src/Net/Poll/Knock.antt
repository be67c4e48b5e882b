-- ===== src/Net/Poll/Knock.antt =====
-- A client that comes together with other events.
use coding_demo.Base.{
  ℕ, suc, ◌+◌, ◌<◌, ◌≡◌, ap, ◌∙◌, inl, inr, true, false, none, some, [], leb, replicate, get_elem?,
  arith, pos, Option-cases,
}
use coding_demo.Net.Poll.{
  Server, Round, client, Progress, max_line, handle_read, serve_fd, serve_slot, serve_slots,
  serve_clients, add_client, accept_client, poll_round,
}
use coding_demo.Net.Poll.Table.{IsValid, add_client-IsValid}

serve_slots-deaf :
    (count listenfd : ℕ) (r : Round) (t : Progress)
    → get_elem? t.0 0 ≡ some (pos listenfd)
    → r.received 0 ≡ none
    → r.revents 0 ≡ true
    → serve_slots (suc count) r 0 t ≡ none
unfolding serve_slots serve_slot serve_fd handle_read
serve_slots-deaf count listenfd r t first deaf knock = rw (first, knock, deaf)

serve_clients-deaf :
    (listenfd : ℕ) (r : Round) (s : Server)
    → IsValid listenfd s
    → r.received 0 ≡ none
    → r.revents 0 ≡ true
    → serve_clients r s ≡ none
unfolding serve_clients
serve_clients-deaf listenfd r s v deaf knock =
    let one_more : s.maxi + 1 ≡ suc s.maxi = omega arith in
    let stop =
      serve_slots-deaf s.maxi listenfd r (s.client_fds, replicate max_line 0, []) v.first deaf
        knock in
    rw (one_more, stop)

accept_client-full :
    (connfd : ℕ) (r : Round) (s : Server)
    → add_client connfd s ≡ none
    → accept_client (client connfd) r s ≡ none
unfolding accept_client
accept_client-full connfd r s full = rw full

accept_client-busy :
    (connfd : ℕ) (r : Round) (s t : Server)
    → add_client connfd s ≡ some t
    → leb r.nready 1 ≡ false
    → accept_client (client connfd) r s ≡ serve_clients r t
unfolding accept_client
accept_client-busy connfd r s t added busy = rw (added, busy)

poll_round-knock :
    (r : Round) (s : Server) → r.revents 0 ≡ true → poll_round r s ≡ accept_client r.accepted r s
unfolding poll_round
poll_round-knock r s knock = rw knock

-- When a client comes and `poll` counts something more, the loop over the clients reads the
-- listening socket too; the read fails, and the write of what it gave runs past the buffer.
pub poll_round-fault :
    (listenfd connfd : ℕ) (r : Round) (s : Server)
    → IsValid listenfd s
    → r.received 0 ≡ none
    → r.revents 0 ≡ true
    → r.accepted ≡ client connfd
    → 1 < r.nready
    → poll_round r s ≡ none
poll_round-fault listenfd connfd r s v deaf knock a more =
    let busy : leb r.nready 1 ≡ false = ground arith in
    poll_round-knock r s knock
    ∙ ap (λ x. accept_client x r s) a
    ∙ elim (Option-cases (add_client connfd s)) [
      | inl full ↦ accept_client-full connfd r s full
      | inr (t, added) ↦
          accept_client-busy connfd r s t added busy
          ∙ serve_clients-deaf listenfd r t (add_client-IsValid listenfd connfd s t added v) deaf
              knock
    ]
