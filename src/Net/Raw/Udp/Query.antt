-- ===== src/Net/Raw/Udp/Query.antt =====
-- C/net/raw socket/test_raw_socket_upd.c: a DNS query in a UDP packet with its IP header.
use coding_demo.Base.{
  sym, ℕ, ◌+◌, ◌-◌, ◌/◌, ◌^◌, ◌<◌, ◌≡◌, refl, ap, ◌∙◌, Option, some, List, [], ◌∷◌, ◌++◌, arith,
  ◌>>=◌, Returns, length, replicate, drop,
}
use coding_demo.Libc.Buffer.{take, write_at}
use coding_demo.Net.Raw.{le16, le32, csum}
use coding_demo.Net.Raw.Layout.{ipv4_header, udp_front, IsIntact, be16-htons, word_sum-zero}
use coding_demo.Net.Raw.Fold.{fold, fold-add, word_sum}
use coding_demo.Net.Raw.Udp.{
  SockAddr, udp_header, psd_header, received, front, front-received, csum-front, word_sum-front,
  word_sum-front_text, sum-bound,
}

abbrev pub pckt_len : ℕ
pckt_len = 100

-- `DNS`
abbrev pub dns : List ℕ
dns =
    0xd8 ∷ 0xcb ∷ 0x01 ∷ 0x00 ∷ 0x00 ∷ 0x01 ∷ 0x00 ∷ 0x00 ∷ 0x00 ∷ 0x00 ∷ 0x00 ∷ 0x00 ∷ 0x03 ∷ 0x77
    ∷ 0x77 ∷ 0x77 ∷ 0x08 ∷ 0x63 ∷ 0x68 ∷ 0x6f ∷ 0x6e ∷ 0x67 ∷ 0x66 ∷ 0x65 ∷ 0x72 ∷ 0x02 ∷ 0x63
    ∷ 0x6e ∷ 0x00 ∷ 0x00 ∷ 0x01 ∷ 0x00 ∷ 0x01 ∷ []

-- `struct iphdr` of 20 bytes; the total length is in the order of the machine.
unfoldable pub query_ip : SockAddr → SockAddr → List ℕ
query_ip sin din =
    0x45
    ∷ 0
    ∷ (le16 (20 + 8 + length dns)
        ++ (0 ∷ 0 ∷ 0 ∷ 0 ∷ 64 ∷ 17 ∷ 0 ∷ 0 ∷ (le32 sin.sin_addr ++ le32 din.sin_addr)))

-- The buffer when it is sent.
unfoldable pub query_packet : SockAddr → SockAddr → Option (List ℕ)
unfolding query_ip udp_header psd_header write_at
query_packet sin din = do
  let buffer = replicate pckt_len 0
  let buffer = write_at buffer 0 (query_ip sin din)
  let buffer = write_at buffer 20 (udp_header sin din (8 + length dns))
  let sums = psd_header sin din (8 + length dns) ++ (take 8 (drop 20 buffer) ++ (dns ++ 0 ∷ []))
  check ← csum sums ((8 + 12 + length dns + 1) / 2)
  let buffer = write_at buffer 26 (le16 check)
  some (write_at buffer 28 dns)

-- A query for the address of a name, as RFC 1035 has it: id, flags, counts, the labels with their
-- lengths, type and class.
abbrev pub labels : List (List ℕ) → List ℕ
labels [] = 0 ∷ []
labels (name ∷ names) = length name ∷ (name ++ labels names)

abbrev pub question : ℕ → ℕ → List (List ℕ) → List ℕ
question a b names =
    a ∷ b ∷ 1 ∷ 0 ∷ 0 ∷ 1 ∷ 0 ∷ 0 ∷ 0 ∷ 0 ∷ 0 ∷ 0 ∷ (labels names ++ 0 ∷ 1 ∷ 0 ∷ 1 ∷ [])

-- www.chongfer.cn
abbrev pub host : List (List ℕ)
host =
    (b'w' ∷ b'w' ∷ b'w' ∷ [])
    ∷ (b'c' ∷ b'h' ∷ b'o' ∷ b'n' ∷ b'g' ∷ b'f' ∷ b'e' ∷ b'r' ∷ [])
    ∷ (b'c' ∷ b'n' ∷ [])
    ∷ []

-- The packet with a checksum and a text of 33 bytes, in the buffer of 100.
abbrev query_with : SockAddr → SockAddr → List ℕ → List ℕ → List ℕ
query_with sin din check text =
    query_ip sin din ++ (udp_header sin din 41 ++ (check ++ (text ++ replicate 39 0)))

query_packet-run :
    (sin din : SockAddr)
    → query_packet sin din ≡ (
        csum (front sin din 33 (0 ∷ 0 ∷ (dns ++ 0 ∷ []))) 27 >>= λ check.
        some (query_with sin din (le16 check) dns))
unfolding query_packet query_ip udp_header psd_header write_at
query_packet-run sin din = refl

-- The packet as the standards have it; the total length is the one of a little-endian machine, and
-- the checksum of the IP header is 0.
abbrev pub query_bytes : SockAddr → SockAddr → List ℕ → List ℕ → List ℕ
query_bytes sin din check text =
    ipv4_header 0 (61 ∷ 0 ∷ []) (0 ∷ 0 ∷ []) 64 17 sin.sin_addr din.sin_addr
    ++ (udp_front sin.sin_port din.sin_port 41 ++ (check ++ (text ++ replicate 39 0)))

query_with-query_bytes :
    (sin din : SockAddr) (check : List ℕ)
    → query_with sin din check dns ≡ query_bytes sin din check (question 0xd8 0xcb host)
unfolding query_ip udp_header
query_with-query_bytes sin din check = λ i.
    ipv4_header 0 (61 ∷ 0 ∷ []) (0 ∷ 0 ∷ []) 64 17 sin.sin_addr din.sin_addr
    ++ (le16 sin.sin_port
        ++ (le16 din.sin_port ++ be16-htons 41 i)
        ++ (check ++ (dns ++ replicate 39 0)))

-- For any addresses and ports, the packet is built without a fault: an IP header for UDP, a UDP
-- header, a query for www.chongfer.cn and zeros to the end of the buffer stand one behind the
-- other, byte for byte as RFC 791, 768 and 1035 have them, but for the total length of the IP
-- header, which is in the order of the machine, and its checksum, which is 0; and the words of the
-- pseudo header for UDP, of the UDP header with its checksum and of the query add up to all ones,
-- as a receiver checks.
pub query_packet_lem :
    (sin din : SockAddr)
    → Returns (query_packet sin din) λ packet.
      ((check : ℕ) × (check < 65536)
        × (packet ≡ query_bytes sin din (le16 check) (question 0xd8 0xcb host)))
      × IsIntact (received sin din 41 packet)
query_packet_lem sin din =
    let xs = dns ++ 0 ∷ [] in
    let s = word_sum (front sin din 33 (0 ∷ 0 ∷ xs)) in
    let c = 65535 - fold s in
    let low : s + 65536 < 2 ^ 32 =
      sum-bound sin din 33 34 xs (omega arith) (omega arith) (omega arith) in
    let first = csum-front sin din 33 34 27 (0 ∷ 0 ∷ []) xs refl refl (omega arith) (omega arith) in
    let sum = word_sum-front sin din 33 c xs (omega arith) in
    let whole : received sin din 41 (query_bytes sin din (le16 c) (question 0xd8 0xcb host))
        ≡ front sin din 33 (le16 c ++ dns) =
      sym (front-received sin din 33 (le16 c) dns) in
    let same = word_sum-front_text sin din 33 c dns xs (sym (word_sum-zero dns)) in
    (
      query_bytes sin din (le16 c) (question 0xd8 0xcb host),
      query_packet-run sin din
          ∙ ap (λ m. m >>= λ check. some (query_with sin din (le16 check) dns)) first
          ∙ ap some (query_with-query_bytes sin din (le16 c)),
      (
        (c, omega arith, refl),
        ap (λ bytes. fold (word_sum bytes)) whole ∙ ap fold (same ∙ sum) ∙ fold-add s low,
      ),
    )
