-- ===== src/Net/Raw/Udp/Server.antt =====
-- C/net/raw socket/server_udp_with_raw_socket.c: what the server shows of a packet.
use coding_demo.Base.{
  ℕ, ◌+◌, ◌/◌, ◌%◌, ◌^◌, ◌<◌, ◌≡◌, Option, none, some, List, ◌>>=◌, length, get_elem?,
  if◌then◌else◌,
}
use coding_demo.Libc.Buffer.{take, write_at, c_string, has_end}
use coding_demo.Net.Raw.{htons, get16, get32}
use coding_demo.Net.Raw.Udp.{SockAddr}

-- The values that are printed of a packet; an address as it stands in memory.
pub record Seen : Type 0 where
  pub n : ℕ
  pub str : List ℕ
  pub ip_id : ℕ
  pub ip_v : ℕ
  pub ip_tos : ℕ
  pub ip_hl : ℕ
  pub ip_len : ℕ
  pub ip_src : ℕ
  pub ip_dst : ℕ
  pub udp_len : ℕ
  pub udp_check : ℕ
  pub udp_source : ℕ
  pub udp_dest : ℕ

-- The two headers at the start of the buffer.
unfoldable pub read_headers : List ℕ → ℕ → Option Seen
read_headers buffer n = do
  vhl ← get_elem? buffer 0
  tos ← get_elem? buffer 1
  len ← get16 buffer 2
  id ← get16 buffer 4
  src ← get32 buffer 12
  dst ← get32 buffer 16
  source ← get16 buffer 20
  dest ← get16 buffer 22
  ulen ← get16 buffer 24
  check ← get16 buffer 26
  some (record {
    n = n;
    str = c_string buffer;
    ip_id = htons id;
    ip_v = vhl / 16;
    ip_tos = tos;
    ip_hl = vhl % 16;
    ip_len = htons len;
    ip_src = src;
    ip_dst = dst;
    udp_len = htons ulen;
    udp_check = check;
    udp_source = htons source;
    udp_dest = htons dest;
  })

-- A turn of the loop, for a `recvfrom` that succeeds: the buffer, which nothing clears, and what is
-- printed. Without a NUL in it `printf` runs past the end.
unfoldable pub receive : List ℕ → List ℕ → Option (List ℕ × Seen)
unfolding read_headers
receive buffer bytes =
    let got = take 2048 bytes in
    let buffer = write_at buffer 0 got in
    if has_end buffer
    then (read_headers buffer (length got) >>= λ seen. some (buffer, seen))
    else none

-- What the server should see of a packet of the client.
abbrev pub Sees : SockAddr → SockAddr → ℕ → Seen → Type 0
Sees saddr daddr m seen =
    (seen.ip_v ≡ 4)
    × (seen.ip_hl ≡ 5)
    × (seen.ip_id ≡ 4)
    × (seen.ip_len ≡ 28 + m)
    × (seen.ip_src ≡ saddr.sin_addr)
    × (seen.ip_dst ≡ daddr.sin_addr)
    × (seen.udp_len ≡ 8 + m)
    × (seen.udp_source ≡ htons saddr.sin_port)
    × (seen.udp_dest ≡ htons daddr.sin_port)

-- Addresses and ports as they fit in their fields.
abbrev pub IsAddr : SockAddr → Type 0
IsAddr addr = (addr.sin_addr < 2 ^ 32) × (addr.sin_port < 2 ^ 16)
