-- ===== src/Net/Raw/Tcp.antt =====
-- C/net/raw socket/test_raw_socket_ip.c: a TCP SYN with its IP header and options. packet_build as
-- it stands does not compile, since it declares `p` and uses `ip`: it is modelled with the pointer
-- to the IP header under the name that it is used by.
use coding_demo.Base.{
  ℕ, ◌+◌, ◌-◌, ◌/◌, ◌%◌, ◌^◌, ◌<◌, ◌≡◌, refl, ap, ◌∙◌, Option, some, List, [], ◌∷◌, ◌++◌, arith,
  ◌>>=◌, Returns, replicate, drop,
}
use coding_demo.Libc.Buffer.{take, write_at}
use coding_demo.Net.Raw.{le16, le32, htons, check_sum, csum_tcpudp_nofold}
use coding_demo.Net.Raw.Layout.{be16, ipv4_header, pseudo_header, IsIntact, be16-htons}
use coding_demo.Net.Raw.Fold.{fold, fold-add, word_sum, check_sum_lem}

-- 192.168.204.136, as it stands in memory.
abbrev pub own_addr : ℕ
own_addr = 0x88cca8c0

-- MSS, SACK and the window's scale.
unfoldable pub options : List ℕ
options = 2 ∷ 4 ∷ 5 ∷ 0xb4 ∷ 1 ∷ 1 ∷ 4 ∷ 2 ∷ 1 ∷ 3 ∷ 3 ∷ 7 ∷ []

-- The IP header from its start to the checksum, and the target's address.
unfoldable pub put_ip : ℕ → List ℕ → List ℕ
put_ip sin_addr buf =
    write_at
      (write_at buf 0 (0x45 ∷ 0 ∷ (le16 (htons 52) ++ (0 ∷ 0 ∷ 0 ∷ 0 ∷ 255 ∷ 6 ∷ 0 ∷ 0 ∷ [])))) 16
      (le32 sin_addr)

-- The fields of the TCP header in the order of the assignments: the ports, the length and the SYN
-- flag, the checksum, the window.
unfoldable pub put_tcp : ℕ → ℕ → List ℕ → List ℕ
put_tcp srcport sin_port buf =
    let buf = write_at buf 20 (le16 (htons srcport) ++ le16 sin_port) in
    let buf = write_at buf 32 (128 ∷ 2 ∷ []) in
    let buf = write_at buf 36 (0 ∷ 0 ∷ []) in write_at buf 34 (le16 (htons 14600))

-- The packet that is sent; `seq` is what `random` returns.
unfoldable pub packet_build : ℕ → ℕ → ℕ → ℕ → Option (List ℕ)
unfolding options put_ip put_tcp
packet_build sin_addr sin_port srcport seq = do
  let buf = put_ip sin_addr (replicate 256 0)
  let buf = write_at (put_tcp srcport sin_port buf) 40 options
  let buf = write_at (write_at buf 24 (le32 seq)) 12 (le32 own_addr)
  check ← check_sum (drop 20 buf) 32 (csum_tcpudp_nofold own_addr sin_addr 32 6 0)
  some (take 52 (write_at buf 36 (le16 check)))

-- The TCP header (RFC 9293) and the options with MSS 1460, SACK and a window scale of 7: the source
-- port as its bytes, and a checksum.
abbrev pub segment : List ℕ → ℕ → ℕ → List ℕ → List ℕ
segment srcport sin_port seq check =
    srcport
    ++ (le16 sin_port
        ++ (le32 seq
            ++ (0
                ∷ 0
                ∷ 0
                ∷ 0
                ∷ 128
                ∷ 2
                ∷ (be16 14600
                    ++ (check
                        ++ (0 ∷ 0 ∷ 2 ∷ 4 ∷ 5 ∷ 0xb4 ∷ 1 ∷ 1 ∷ 4 ∷ 2 ∷ 1 ∷ 3 ∷ 3 ∷ 7 ∷ []))))))

-- The sum of the pseudo header, whose carry has been added in.
abbrev pub pseudo_sum : ℕ → ℕ
pseudo_sum sin_addr = (own_addr + sin_addr + 9728) % 2 ^ 32 + (own_addr + sin_addr + 9728) / 2 ^ 32

csum_tcpudp_nofold_lem :
    (sin_addr : ℕ)
    → sin_addr < 2 ^ 32
    → csum_tcpudp_nofold own_addr sin_addr 32 6 0 ≡ pseudo_sum sin_addr
unfolding csum_tcpudp_nofold
csum_tcpudp_nofold_lem sin_addr h = omega arith

-- The whole packet, with a checksum: an IP header for TCP, and the segment.
abbrev pub syn : ℕ → List ℕ → ℕ → ℕ → List ℕ → List ℕ
syn sin_addr srcport sin_port seq check =
    ipv4_header 0 (be16 52) (0 ∷ 0 ∷ []) 255 6 own_addr sin_addr
    ++ segment srcport sin_port seq check

packet_build-run :
    (sin_addr sin_port srcport seq : ℕ)
    → packet_build sin_addr sin_port srcport seq ≡ (
        check_sum
          (segment (le16 (htons srcport)) sin_port seq (0 ∷ 0 ∷ []) ++ replicate 204 0)
          32
          (csum_tcpudp_nofold own_addr sin_addr 32 6 0)
        >>= λ check. some (syn sin_addr (le16 (htons srcport)) sin_port seq (le16 check)))
unfolding packet_build write_at
packet_build-run sin_addr sin_port srcport seq = refl

word_sum-segment :
    (sin_port srcport seq c : ℕ)
    → c < 65536
    → word_sum (segment (be16 srcport) sin_port seq (le16 c))
      ≡ word_sum (segment (be16 srcport) sin_port seq (0 ∷ 0 ∷ [])) + c
word_sum-segment sin_port srcport seq c h = omega arith

-- The words of the pseudo header and of the segment.
word_sum-pseudo :
    (sin_addr sin_port srcport seq c : ℕ)
    → word_sum
        (pseudo_header own_addr sin_addr 6 32 ++ segment (be16 srcport) sin_port seq (le16 c))
      ≡ word_sum (pseudo_header own_addr sin_addr 6 32)
        + word_sum (segment (be16 srcport) sin_port seq (le16 c))
word_sum-pseudo sin_addr sin_port srcport seq c = omega arith

-- A sum folds to all ones exactly if it is a positive multiple of 65535.
fold-multiple : (s : ℕ) → s < 2 ^ 32 → fold s ≡ 65535 → (s % 65535 ≡ 0) × (0 < s)
fold-multiple s h e = (omega arith, omega arith)

multiple-fold : (s : ℕ) → s < 2 ^ 32 → s % 65535 ≡ 0 → 0 < s → fold s ≡ 65535
multiple-fold s h e pos = omega arith

mod_add : (a b c : ℕ) → (a + c) % 65535 ≡ 0 → a % 65535 ≡ b % 65535 → (b + c) % 65535 ≡ 0
mod_add a b c h e = omega arith

-- The sum of the pseudo header differs from that of its words by a multiple of 65535.
pseudo_sum-words :
    (sin_addr : ℕ)
    → sin_addr < 2 ^ 32
    → pseudo_sum sin_addr % 65535 ≡ word_sum (pseudo_header own_addr sin_addr 6 32) % 65535
pseudo_sum-words sin_addr h = omega arith

-- Where the sum of the pseudo header and the words of the segment does not wrap at 2 ^ 32, the SYN
-- is built without a fault: an IP header for TCP, whose checksum is 0, the TCP header and the
-- options stand one behind the other, byte for byte as RFC 791 and 9293 have them, and the words of
-- the pseudo header for TCP and of the segment with its checksum add up to all ones, as a receiver
-- checks.
pub packet_build_lem :
    (sin_addr sin_port srcport seq : ℕ)
    → sin_addr < 2 ^ 32
    → pseudo_sum sin_addr + word_sum (segment (be16 srcport) sin_port seq (0 ∷ 0 ∷ [])) + 65536
      < 2 ^ 32
    → Returns (packet_build sin_addr sin_port srcport seq) λ packet.
      ((check : ℕ) × (check < 65536)
        × (packet ≡ syn sin_addr (be16 srcport) sin_port seq (le16 check)))
      × IsIntact (pseudo_header own_addr sin_addr 6 32 ++ drop 20 packet)
packet_build_lem sin_addr sin_port srcport seq addr low =
    let start = pseudo_sum sin_addr in
    let s = start + word_sum (segment (be16 srcport) sin_port seq (0 ∷ 0 ∷ [])) in
    let c = 65535 - fold s in
    let first =
      (λ i.
        check_sum (segment (be16-htons srcport i) sin_port seq (0 ∷ 0 ∷ []) ++ replicate 204 0) 32
          (csum_tcpudp_nofold_lem sin_addr addr i))
      ∙ check_sum_lem (segment (be16 srcport) sin_port seq (0 ∷ 0 ∷ [])) (replicate 204 0) start
          (omega arith) in
    let sum = word_sum-segment sin_port srcport seq c (omega arith) in
    let seg = word_sum (segment (be16 srcport) sin_port seq (le16 c)) in
    let whole : start + seg ≡ s + c = omega arith in
    let (multiple, positive) =
      fold-multiple (start + seg) (omega arith) (ap fold whole ∙ fold-add s (omega arith)) in
    let words = word_sum-pseudo sin_addr sin_port srcport seq c in
    let agree = pseudo_sum-words sin_addr addr in
    (
      syn sin_addr (be16 srcport) sin_port seq (le16 c),
      packet_build-run sin_addr sin_port srcport seq
          ∙ ap
              (λ m.
                m >>= λ check. some (syn sin_addr (le16 (htons srcport)) sin_port seq (le16 check)))
              first
          ∙ (λ i. some (syn sin_addr (be16-htons srcport i) sin_port seq (le16 c))),
      ((c, omega arith, refl), ap fold words ∙ intact seg (omega arith) multiple agree),
    )
  where
    intact :
        (seg : ℕ)
        → seg < 2 ^ 31
        → (pseudo_sum sin_addr + seg) % 65535 ≡ 0
        → pseudo_sum sin_addr % 65535 ≡ word_sum (pseudo_header own_addr sin_addr 6 32) % 65535
        → fold (word_sum (pseudo_header own_addr sin_addr 6 32) + seg) ≡ 65535
    intact seg small multiple agree =
        multiple-fold (word_sum (pseudo_header own_addr sin_addr 6 32) + seg) (omega arith)
          (mod_add (pseudo_sum sin_addr) (word_sum (pseudo_header own_addr sin_addr 6 32)) seg
            multiple agree)
          (omega arith)
