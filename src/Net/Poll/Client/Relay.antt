-- ===== src/Net/Poll/Client/Relay.antt =====
-- What the client sends and shows over many rounds.
use coding_demo.Base.{
  ℕ, ◌≡◌, refl, ap, sym, ◌∙◌, Bool, true, false, Option, none, some, List, [], ◌∷◌, ◌++◌,
  if◌then◌else◌, length, Returns, All,
}
use mathlib.Core.List.{append_assoc, append-nil}
use coding_demo.Libc.Buffer.{take, length-write_at}
use coding_demo.Net.Poll.{Server, Action, Round, poll_loop}
use coding_demo.Net.Poll.Serve.{IsRead, echoed}
use coding_demo.Net.Poll.Talk.{bytes_to, bytes_of, gathered, Serves, IsTalk, poll_loop_lem}
use coding_demo.Net.Poll.Client.{
  Effect, shown, typed, closed, shut_down, Client, Turn, read_server, read_keyboard, client_turn,
  client_loop,
}

abbrev pub all_shown : List Effect → List ℕ
all_shown [] = []
all_shown (shown out ∷ effects) = out ++ all_shown effects
all_shown (_ ∷ effects) = all_shown effects

abbrev pub all_sent : List Effect → List ℕ
all_sent [] = []
all_sent (typed out ∷ effects) = out ++ all_sent effects
all_sent (_ ∷ effects) = all_sent effects

abbrev pub ready_bytes : Bool → Option (List ℕ) → List ℕ
ready_bytes true x = bytes_of x
ready_bytes false x = []

-- What the rounds bring from the server, and from the keyboard.
abbrev pub all_heard : List Turn → List ℕ
all_heard [] = []
all_heard (t ∷ ts) = ready_bytes t.is_server t.from_server ++ all_heard ts

abbrev pub all_typed : List Turn → List ℕ
all_typed [] = []
all_typed (t ∷ ts) = ready_bytes t.is_keyboard t.from_keyboard ++ all_typed ts

-- No read of a ready descriptor fails or gives more than the buffer holds.
abbrev pub IsReadable : Turn → Type 0
IsReadable t =
    (t.is_server ≡ true → IsRead t.from_server) × (t.is_keyboard ≡ true → IsRead t.from_keyboard)

abbrev pub HasRoom : Client → Type 0
HasRoom c = (length c.sendline ≡ 1024) × (length c.recvline ≡ 1024)

-- The buffers keep their size, and so much more has been shown and sent.
abbrev Goes : Client → List ℕ → List ℕ → Client → Type 0
Goes c out msg c' =
    HasRoom c'
    × (all_shown c'.effects ≡ all_shown c.effects ++ out)
    × (all_sent c'.effects ≡ all_sent c.effects ++ msg)

all_shown-append : (xs ys : List Effect) → all_shown (xs ++ ys) ≡ all_shown xs ++ all_shown ys
all_shown-append [] ys = refl
all_shown-append (shown out ∷ xs) ys =
    ap (λ r. out ++ r) (all_shown-append xs ys)
    ∙ sym (append_assoc out (all_shown xs) (all_shown ys))
all_shown-append (typed out ∷ xs) ys = all_shown-append xs ys
all_shown-append (closed ∷ xs) ys = all_shown-append xs ys
all_shown-append (shut_down ∷ xs) ys = all_shown-append xs ys

all_sent-append : (xs ys : List Effect) → all_sent (xs ++ ys) ≡ all_sent xs ++ all_sent ys
all_sent-append [] ys = refl
all_sent-append (shown out ∷ xs) ys = all_sent-append xs ys
all_sent-append (typed out ∷ xs) ys =
    ap (λ r. out ++ r) (all_sent-append xs ys) ∙ sym (append_assoc out (all_sent xs) (all_sent ys))
all_sent-append (closed ∷ xs) ys = all_sent-append xs ys
all_sent-append (shut_down ∷ xs) ys = all_sent-append xs ys

Goes-none : (c : Client) → HasRoom c → Goes c [] [] c
Goes-none c room =
    (room, sym (append-nil (all_shown c.effects)), sym (append-nil (all_sent c.effects)))

Goes-trans :
    (c c1 c2 : Client) (out1 msg1 out2 msg2 : List ℕ)
    → Goes c out1 msg1 c1
    → Goes c1 out2 msg2 c2
    → Goes c (out1 ++ out2) (msg1 ++ msg2) c2
Goes-trans c c1 c2 out1 msg1 out2 msg2 (r1, s1, t1) (r2, s2, t2) = (
  r2,
  s2 ∙ ap (λ x. x ++ out2) s1 ∙ append_assoc (all_shown c.effects) out1 out2,
  t2 ∙ ap (λ x. x ++ msg2) t1 ∙ append_assoc (all_sent c.effects) msg1 msg2,
)

Goes-effects :
    (c c' : Client) (more : List Effect) (out msg : List ℕ)
    → HasRoom c'
    → c'.effects ≡ c.effects ++ more
    → all_shown more ≡ out
    → all_sent more ≡ msg
    → Goes c out msg c'
Goes-effects c c' more out msg room e s t = (
  room,
  ap all_shown e ∙ all_shown-append c.effects more ∙ ap (λ x. all_shown c.effects ++ x) s,
  ap all_sent e ∙ all_sent-append c.effects more ∙ ap (λ x. all_sent c.effects ++ x) t,
)

read_server-Goes :
    (x : Option (List ℕ)) (c : Client)
    → IsRead x
    → HasRoom c
    → Returns (read_server x c) (Goes c (bytes_of x) [])
unfolding read_server
read_server-Goes none c bad room = absurd bad
read_server-Goes (some []) c ok room =
    (_, refl, Goes-effects c _ (closed ∷ shown [] ∷ []) [] [] room refl refl refl)
read_server-Goes (some (b ∷ bytes)) c ok (send, recv) = (
  _,
  refl,
  Goes-effects c _ _ (b ∷ bytes) []
      (send, length-write_at c.recvline 0 (take 1024 (b ∷ bytes)) ∙ recv) refl
      (append-nil _ ∙ echoed c.recvline (b ∷ bytes) recv ok) refl,
)

read_keyboard-Goes :
    (x : Option (List ℕ)) (c : Client)
    → IsRead x
    → HasRoom c
    → Returns (read_keyboard x c) (Goes c [] (bytes_of x))
unfolding read_keyboard
read_keyboard-Goes none c bad room = absurd bad
read_keyboard-Goes (some []) c ok room =
    (_, refl, Goes-effects c _ (shut_down ∷ []) [] [] room refl refl refl)
read_keyboard-Goes (some (b ∷ bytes)) c ok (send, recv) = (
  _,
  refl,
  Goes-effects c _ _ [] (b ∷ bytes)
      (length-write_at c.sendline 0 (take 1024 (b ∷ bytes)) ∙ send, recv) refl refl
      (append-nil _ ∙ echoed c.sendline (b ∷ bytes) send ok),
)

server-Goes :
    (on : Bool) (x : Option (List ℕ)) (c : Client)
    → (on ≡ true → IsRead x)
    → HasRoom c
    → Returns (if on then read_server x c else some c) (Goes c (ready_bytes on x) [])
server-Goes true x c ok room = read_server-Goes x c (ok refl) room
server-Goes false x c ok room = (c, refl, Goes-none c room)

keyboard-Goes :
    (on : Bool) (x : Option (List ℕ)) (c : Client)
    → (on ≡ true → IsRead x)
    → HasRoom c
    → Returns (if on then read_keyboard x c else some c) (Goes c [] (ready_bytes on x))
keyboard-Goes true x c ok room = read_keyboard-Goes x c (ok refl) room
keyboard-Goes false x c ok room = (c, refl, Goes-none c room)

client_turn-Goes :
    (t : Turn) (c : Client)
    → IsReadable t
    → HasRoom c
    → Returns
        (client_turn t c)
        (Goes c (ready_bytes t.is_server t.from_server) (ready_bytes t.is_keyboard t.from_keyboard))
unfolding client_turn
client_turn-Goes t c (server, keyboard) room =
    let out = ready_bytes t.is_server t.from_server in
    let msg = ready_bytes t.is_keyboard t.from_keyboard in
    let (c1, run1, g1) = server-Goes t.is_server t.from_server c server room in
    let (c2, run2, g2) = keyboard-Goes t.is_keyboard t.from_keyboard c1 keyboard g1.0 in
    (c2, rw run1 run2, rw (append-nil out) at (Goes-trans c c1 c2 out [] [] msg g1 g2))

client_loop-Goes :
    (ts : List Turn) (c : Client)
    → All IsReadable ts
    → HasRoom c
    → Returns (client_loop ts c) (Goes c (all_heard ts) (all_typed ts))
unfolding client_loop
client_loop-Goes [] c ok room = (c, refl, Goes-none c room)
client_loop-Goes (t ∷ ts) c (one, rest) room =
    let (c1, run1, g1) = client_turn-Goes t c one room in
    let (c2, run2, g2) = client_loop-Goes ts c1 rest g1.0 in
    (c2, rw run1 run2, Goes-trans c c1 c2 _ _ _ _ g1 g2)

-- A client with buffers of 1024 bytes that has shown and sent nothing yet, and a server that has it
-- as a descriptor in the slot `i` alone: if on neither side a read fails or gives more than a
-- buffer holds, no other client comes and this one does not leave, what reaches the server, in
-- whatever pieces and whatever the other clients do, is what the client has read from the keyboard,
-- and what reaches the client is what the server has sent to it, then both loops run through all
-- their rounds, the client has sent exactly what was typed, and it has shown exactly that, in
-- order.
pub client_loop-poll_loop :
    (fd i : ℕ) (rs : List Round) (ts : List Turn) (s : Server) (c : Client)
    → Serves fd i s
    → All (IsTalk i) rs
    → All IsReadable ts
    → HasRoom c
    → c.effects ≡ []
    → gathered i rs ≡ all_typed ts
    → ((t : Server × List Action) → poll_loop rs s ≡ some t → all_heard ts ≡ bytes_to fd t.1)
    → Returns (poll_loop rs s) λ t.
      Returns
        (client_loop ts c)
        λ c'. (all_sent c'.effects ≡ all_typed ts) × (all_shown c'.effects ≡ all_typed ts)
client_loop-poll_loop fd i rs ts s c v talks reads room fresh arrives comes_back =
    let (t, run, (v', bytes)) = poll_loop_lem fd i rs s v talks in
    let (c', run', (room', out, msg)) = client_loop-Goes ts c reads room in
    (
      t,
      run,
      (
        c',
        run',
        (
          msg ∙ ap (λ es. all_sent es ++ all_typed ts) fresh,
          out ∙ ap (λ es. all_shown es ++ all_heard ts) fresh ∙ comes_back t run ∙ bytes ∙ arrives,
        ),
      ),
    )
