-- ===== src/Net/Poll/Client.antt =====
-- C/net/poll/client.c: the client of the echo server. It sends what is typed and shows what comes
-- back. What the kernel answers in a round of its loop is an argument.
pub mod Relay
use coding_demo.Base.{
  ℕ, zero, suc, Bool, true, false, Option, none, some, List, [], ◌∷◌, ◌++◌, if◌then◌else◌, length,
  ◌>>=◌,
}
use coding_demo.Libc.Buffer.{take, write_at}
use coding_demo.Net.Poll.{max_line}

pub data Effect : Type 0 where
  shown : List ℕ → Effect
  typed : List ℕ → Effect
  closed : Effect
  shut_down : Effect

-- The two buffers, which nothing clears, and what has gone out.
pub record Client : Type 0 where
  pub sendline : List ℕ
  pub recvline : List ℕ
  pub effects : List Effect

-- The answers in a round: whether POLLIN is set for the socket and for the keyboard, and what
-- `read` gives there, `none` for -1.
pub record Turn : Type 0 where
  pub is_server : Bool
  pub from_server : Option (List ℕ)
  pub is_keyboard : Bool
  pub from_keyboard : Option (List ℕ)

-- A `read` of -1 makes the `write` after it run past the buffer. Where the server has closed, the
-- socket is closed, and nothing is written.
unfoldable pub read_server : Option (List ℕ) → Client → Option Client
read_server none c = none
read_server (some []) c = some (record c { effects = c.effects ++ closed ∷ shown [] ∷ [] })
read_server (some (b ∷ bytes)) c =
    let recvline = write_at c.recvline 0 (take max_line (b ∷ bytes)) in
    some (record c {
      recvline = recvline;
      effects = c.effects ++ shown (take (length (b ∷ bytes)) recvline) ∷ [];
    })

-- The end of the input shuts the socket down for writing.
unfoldable pub read_keyboard : Option (List ℕ) → Client → Option Client
read_keyboard none c = none
read_keyboard (some []) c = some (record c { effects = c.effects ++ shut_down ∷ [] })
read_keyboard (some (b ∷ bytes)) c =
    let sendline = write_at c.sendline 0 (take max_line (b ∷ bytes)) in
    some (record c {
      sendline = sendline;
      effects = c.effects ++ typed (take (length (b ∷ bytes)) sendline) ∷ [];
    })

-- The body of the `while`.
unfoldable pub client_turn : Turn → Client → Option Client
unfolding read_server read_keyboard
client_turn t c = (if t.is_server then read_server t.from_server c else some c) >>= λ c.
    if t.is_keyboard then read_keyboard t.from_keyboard c else some c

unfoldable pub client_loop : List Turn → Client → Option Client
unfolding client_turn
client_loop [] c = some c
client_loop (t ∷ ts) c = client_turn t c >>= client_loop ts
