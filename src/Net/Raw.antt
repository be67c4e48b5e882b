-- ===== src/Net/Raw.antt =====
-- C/net/raw socket: the checksums of the packets that are built by hand, on a little-endian
-- machine. A packet is the list of its bytes; a read past an array is a fault.
pub mod Fold
pub mod Layout
pub mod Icmp
pub mod Udp
pub mod Tcp
pub mod Frame
pub mod Arp
mod Tests
use coding_demo.Base.{
  get_elem?, ℕ, zero, suc, ◌+◌, ◌-◌, ◌*◌, ◌/◌, ◌%◌, ◌^◌, Option, none, some, List, [], ◌∷◌, ◌>>=◌,
}

-- The bytes of a `uint16_t` and of a `uint32_t` in memory.
abbrev pub le16 : ℕ → List ℕ
le16 x = x % 256 ∷ x / 256 % 256 ∷ []

abbrev pub le32 : ℕ → List ℕ
le32 x = x % 256 ∷ x / 256 % 256 ∷ x / 65536 % 256 ∷ x / 16777216 % 256 ∷ []

-- A number of 16, and of 32 bits in memory.
abbrev pub get16 : List ℕ → ℕ → Option ℕ
get16 buf i = do a ← get_elem? buf i; b ← get_elem? buf (i + 1); some (a + 256 * b)

abbrev pub get32 : List ℕ → ℕ → Option ℕ
get32 buf i = do a ← get16 buf i; b ← get16 buf (i + 2); some (a + 65536 * b)

-- `htons`, and `ntohs` as well.
abbrev pub htons : ℕ → ℕ
htons x = x % 256 * 256 + x / 256 % 256

-- `(uint16_t)~sum`
abbrev pub not16 : ℕ → ℕ
not16 sum = 65535 - sum % 65536

-- The loop over the words of `size` bytes, and over a last single byte; `sum` wraps at `m`.
unfoldable pub add_words : ℕ → List ℕ → ℕ → ℕ → Option ℕ
add_words m buf zero sum = some sum
add_words m [] (suc size) sum = none
add_words m (a ∷ buf) (suc zero) sum = some ((sum + a) % m)
add_words m (a ∷ []) (suc (suc size)) sum = none
add_words m (a ∷ b ∷ buf) (suc (suc size)) sum = add_words m buf size ((sum + (a + 256 * b)) % m)

-- test_raw_socket_icmp_send.c
unfoldable pub checksum : List ℕ → ℕ → Option ℕ
unfolding add_words
checksum buf size = do
  sum ← add_words (2 ^ 64) buf size 0
  let sum = (sum % 65536 + sum / 65536) % 2 ^ 64
  let sum = (sum % 65536 + sum / 65536) % 2 ^ 64
  some (not16 sum)

-- client_udp_with_raw_socket.c
unfoldable pub csum : List ℕ → ℕ → Option ℕ
unfolding add_words
csum buf nwords = do
  sum ← add_words (2 ^ 64) buf (2 * nwords) 0
  let sum = (sum / 65536 + sum % 65536) % 2 ^ 64
  let sum = (sum + sum / 65536) % 2 ^ 64
  some (not16 sum)

-- test_raw_socket_ip.c: the sum goes on from that of the pseudo header.
unfoldable pub check_sum : List ℕ → ℕ → ℕ → Option ℕ
unfolding add_words
check_sum addr len sum = do
  sum ← add_words (2 ^ 32) addr len sum
  let sum = (sum / 65536 + sum % 65536) % 2 ^ 32
  let sum = (sum + sum / 65536) % 2 ^ 32
  some (not16 sum)

-- The sum of the pseudo header; `s` is 64 bits wide, the arguments are 32.
unfoldable pub csum_tcpudp_nofold : ℕ → ℕ → ℕ → ℕ → ℕ → ℕ
csum_tcpudp_nofold saddr daddr len proto sum =
    let s = (sum + saddr + daddr + (proto + len) % 2 ^ 32 * 256 % 2 ^ 32) % 2 ^ 64 in
    (s + s / 2 ^ 32) % 2 ^ 64 % 2 ^ 32
