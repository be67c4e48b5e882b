-- ===== src/Net/Raw/Frame.antt =====
-- C/net/raw socket/cli_raw_socket.c and srv_raw_socket.c: a frame, and whether the listener takes
-- it.
use coding_demo.Base.{
  ℕ, ◌+◌, ◌-◌, ◌*◌, Bool, true, false, Option, none, some, List, [], ◌∷◌, ltb, ◌==◌, ltb,
  if◌then◌else◌, replicate, drop, ◌&&◌, ℤ, pos, negsuc,
}
use coding_demo.Libc.Buffer.{take, write_at}
use coding_demo.Net.Raw.{le16, htons}

abbrev pub buf_siz : ℕ
buf_siz = 1024

abbrev pub dest_mac : List ℕ
dest_mac = 0 ∷ 0 ∷ 0 ∷ 0 ∷ 0 ∷ 0 ∷ []

-- ETH_P_IP, and ETHER_TYPE
abbrev pub ether_type : ℕ
ether_type = 0x0800

-- The frame that is sent from an interface with the address `shost`.
unfoldable pub client_frame : List ℕ → List ℕ
client_frame shost =
    let sendbuf = write_at (replicate buf_siz 0) 6 (take 6 shost) in
    let sendbuf = write_at sendbuf 0 dest_mac in
    let sendbuf = write_at sendbuf 12 (le16 (htons ether_type)) in
    take 18 (write_at sendbuf 14 (0xde ∷ 0xad ∷ 0xbe ∷ 0xef ∷ []))

-- `Correct destination MAC address`
unfoldable pub is_for_me : List ℕ → Bool
is_for_me (a ∷ b ∷ c ∷ d ∷ e ∷ f ∷ buf) = a == 0 && b == 0 && c == 0 && d == 0 && e == 0 && f == 0
is_for_me buf = false

-- What becomes of a packet: it is skipped, or its data are printed.
pub data Outcome : Type 0 where
  wrong_mac : Outcome
  own_packet : Outcome
  printed : ℤ → List ℕ → Outcome

unfoldable pub bytes_eq : List ℕ → List ℕ → Bool
bytes_eq [] [] = true
bytes_eq (a ∷ xs) (b ∷ ys) = a == b && bytes_eq xs ys
bytes_eq _ _ = false

-- `strcmp` of the two addresses; `none` is an interface whose address cannot be found.
unfoldable pub i_sent_it : Option (List ℕ) → List ℕ → Bool
unfolding bytes_eq
i_sent_it none saddr = false
i_sent_it (some own) saddr = bytes_eq saddr own

-- `ntohs(udph->len) - sizeof(struct udphdr)`, of the two bytes of the field.
unfoldable pub payload_length : List ℕ → ℤ
payload_length (a ∷ b ∷ bytes) =
    if ltb (a * 256 + b) 8 then negsuc (7 - (a * 256 + b)) else pos (a * 256 + b - 8)
payload_length bytes = pos 0

-- One round of the listener, once `numbytes` have come into `buf`.
unfoldable pub listen : Option (List ℕ) → List ℕ → ℕ → Outcome
unfolding is_for_me i_sent_it payload_length
listen own buf numbytes =
    if is_for_me buf
    then if i_sent_it own (take 4 (drop 26 buf))
      then own_packet
      else printed (payload_length (drop 38 buf)) (take numbytes buf)
    else wrong_mac
