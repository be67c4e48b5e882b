-- ===== src/Net/Poll/Tests.antt =====
-- The theorems on the poll server at the listening socket 3 and the clients 5 and 6.
use coding_demo.Base.{
  ℕ, ◌≡◌, refl, ◌==◌, ltb, leb, if◌then◌else◌, Bool-cases, inl, inr, Option, none, some, List, [],
  ◌∷◌, arith, length, ◌<◌, All, Returns, eq_of_some, replicate, length-replicate, sym, ap, ◌∙◌,
  true, pos, negsuc,
}
use coding_demo.Net.Poll.{
  Server, Action, printed, sent, closed, Round, client, poll_init, poll_round, poll_loop,
  accept_client, add_client, free_slot, serve_clients,
}
use coding_demo.Net.Poll.Talk.{bytes_to, Serves, IsTalk, poll_loop_lem}
use coding_demo.Net.Poll.Client.{Client, Turn, client_loop}
use coding_demo.Net.Poll.Client.Relay.{
  all_shown, all_sent, all_heard, IsReadable, HasRoom, client_loop-poll_loop,
}
use coding_demo.Net.Poll.Table.{IsValid, poll_init-IsValid, poll_round-IsValid}
use coding_demo.Net.Poll.Serve.{IsRead, serve_clients_lem}

abbrev hello : List ℕ
hello = b'h' ∷ b'e' ∷ b'l' ∷ b'l' ∷ b'o' ∷ []

-- The client 5 has sent bytes, and 6 has closed.
abbrev busy : Round
busy = record {
  nready = 2;
  revents = λ i. ltb 0 i;
  accepted = client 7;
  received = λ i. some (if i == 1 then hello else []);
}

abbrev server : Server
server = record { client_fds = pos 3 ∷ pos 5 ∷ pos 6 ∷ []; maxi = 2 }

busy-IsRead : (i : ℕ) → ltb 0 i ≡ true → IsRead (some (if i == 1 then hello else []))
busy-IsRead i h = elim (Bool-cases (i == 1)) [
  | inl one ↦ rw one (omega arith)
  | inr other ↦ rw other (omega arith)
]

serve_clients_lem_example :
    serve_clients busy server
    ≡ some (
      record server { client_fds = pos 3 ∷ pos 5 ∷ negsuc 0 ∷ [] },
      printed hello ∷ sent 5 hello ∷ closed 6 ∷ [],
    )
serve_clients_lem_example =
    serve_clients_lem busy server (pos 3 ∷ pos 5 ∷ pos 6 ∷ []) [] refl refl busy-IsRead

-- Only the listening socket is ready; then a client as well.
abbrev knock : Round
knock = record { nready = 1; revents = λ i. i == 0; accepted = client 5; received = λ i. none }

abbrev knock_and_more : Round
knock_and_more = record {
  nready = 2;
  revents = λ i. leb i 1;
  accepted = client 5;
  received = λ i. none;
}

abbrev result : Option (Server × List Action) → Server × List Action
result none = (poll_init 3, [])
result (some x) = x

ends : poll_round knock (poll_init 3) ≡ some (result (poll_round knock (poll_init 3)))
unfolding poll_round accept_client add_client free_slot poll_init
ends = refl

poll_round-IsValid_example : IsValid 3 (result (poll_round knock (poll_init 3))).0
poll_round-IsValid_example =
    poll_round-IsValid 3 knock (poll_init 3) (result (poll_round knock (poll_init 3))).0
      (result (poll_round knock (poll_init 3))).1 refl ends (poll_init-IsValid 3)

-- The client 5 sends `he`, and 6 closes; then 5 sends `llo`.
abbrev brings : List ℕ → Round
brings bytes = record {
  nready = 2;
  revents = λ i. ltb 0 i;
  accepted = client 7;
  received = λ i. some (if i == 1 then bytes else []);
}

abbrev he : List ℕ
he = b'h' ∷ b'e' ∷ []

abbrev llo : List ℕ
llo = b'l' ∷ b'l' ∷ b'o' ∷ []

abbrev rounds : List Round
rounds = brings he ∷ brings llo ∷ []

brings-IsTalk : (c : ℕ) (bytes : List ℕ) → length bytes < 1024 → IsTalk 1 (brings (c ∷ bytes))
brings-IsTalk c bytes short = record { quiet = refl; reads = reads; stays = λ h. omega arith }
  where
    reads : (i : ℕ) → ltb 0 i ≡ true → IsRead (some (if i == 1 then c ∷ bytes else []))
    reads i h = elim (Bool-cases (i == 1)) [
      | inl one ↦ rw one (omega arith)
      | inr other ↦ rw other (omega arith)
    ]

rounds-IsTalk : All (IsTalk 1) rounds
rounds-IsTalk = (
  brings-IsTalk b'h' (b'e' ∷ []) (omega arith),
  (brings-IsTalk b'l' (b'l' ∷ b'o' ∷ []) (omega arith), tt),
)

server-Serves : Serves 5 1 server
server-Serves = record {
  front = pos 3 ∷ pos 5 ∷ pos 6 ∷ [];
  back = [];
  table = refl;
  count = refl;
  slot = (refl, (refl, (refl, tt)));
}

poll_loop_lem_example :
    Returns (poll_loop rounds server) λ t. Serves 5 1 t.0 × (bytes_to 5 t.1 ≡ hello)
poll_loop_lem_example = poll_loop_lem 5 1 rounds server server-Serves rounds-IsTalk

-- `hello` is typed, and comes back in two pieces.
abbrev turn : List ℕ → List ℕ → Turn
turn heard typed = record {
  is_server = ltb 0 (length heard);
  from_server = some heard;
  is_keyboard = ltb 0 (length typed);
  from_keyboard = some typed;
}

abbrev turns : List Turn
turns = turn [] hello ∷ turn (b'h' ∷ []) [] ∷ turn (b'e' ∷ llo) [] ∷ []

abbrev started : Client
started = record { sendline = replicate 1024 7; recvline = replicate 1024 8; effects = [] }

turns-IsReadable : All IsReadable turns
turns-IsReadable = (
  (λ h. omega arith, λ h. omega arith),
  ((λ h. omega arith, λ h. omega arith), ((λ h. omega arith, λ h. omega arith), tt)),
)

started-HasRoom : HasRoom started
started-HasRoom = (length-replicate {A = ℕ} 1024 7, length-replicate {A = ℕ} 1024 8)

hello_back :
    (t : Server × List Action) → poll_loop rounds server ≡ some t → all_heard turns ≡ bytes_to 5 t.1
hello_back t e =
    let (u, run, (v, bytes)) = poll_loop_lem 5 1 rounds server server-Serves rounds-IsTalk in
    sym bytes ∙ ap (λ (t : Server × List Action). bytes_to 5 t.1) (eq_of_some (sym run ∙ e))

client_loop-poll_loop_example : Returns (poll_loop rounds server) λ t.
    Returns
      (client_loop turns started)
      λ c. (all_sent c.effects ≡ hello) × (all_shown c.effects ≡ hello)
client_loop-poll_loop_example =
    client_loop-poll_loop 5 1 rounds turns server started server-Serves rounds-IsTalk
      turns-IsReadable started-HasRoom refl refl hello_back
