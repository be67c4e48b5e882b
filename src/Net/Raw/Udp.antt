-- ===== src/Net/Raw/Udp.antt =====
-- C/net/raw socket/client_udp_with_raw_socket.c: a UDP packet with its IP header.
pub mod Query
pub mod Server
use coding_demo.Base.{
  Bool-cases, inl, inr, ℕ, ◌+◌, ◌-◌, ◌*◌, ◌/◌, ◌^◌, ◌<◌, ◌≤◌, ◌≡◌, refl, ap, sym, ◌∙◌, Option, none,
  some, List, [], ◌∷◌, ◌++◌, arith, ◌>>=◌, Returns, length, replicate, drop, ltb, false,
  if◌then◌else◌, length-append, All-append,
}
use coding_demo.Libc.Buffer.{
  take-all, take, write_at, write_at-nil, write_at-zero, take-append, take-add, length-take,
  All-take,
}
use coding_demo.Net.Raw.{le16, le32, htons, csum}
use coding_demo.Net.Raw.Layout.{
  be16, ipv4_header, pseudo_header, udp_front, IsIntact, be16-htons, word_sum-zero,
}
use coding_demo.Net.Raw.Fold.{IsBytes, fold, fold-add, word_sum, word_sum-bound, csum_prefix}

-- `struct sockaddr_in`, the numbers as they stand in memory.
pub record SockAddr : Type 0 where
  pub sin_addr : ℕ
  pub sin_port : ℕ

-- `struct ip`: version and header length, tos, total length, id, offset, ttl, protocol, checksum,
-- addresses.
unfoldable pub ip_header : SockAddr → SockAddr → ℕ → List ℕ
ip_header saddr daddr ip_len =
    0x45
    ∷ 4
    ∷ (le16 (htons ip_len)
        ++ (le16 (htons 4)
            ++ (0 ∷ 0 ∷ 255 ∷ 17 ∷ 0 ∷ 0 ∷ (le32 saddr.sin_addr ++ le32 daddr.sin_addr))))

-- `struct udphdr` but for its checksum.
unfoldable pub udp_header : SockAddr → SockAddr → ℕ → List ℕ
udp_header saddr daddr len = le16 saddr.sin_port ++ (le16 daddr.sin_port ++ le16 (htons len))

-- `struct udp_psd_header`
unfoldable pub psd_header : SockAddr → SockAddr → ℕ → List ℕ
psd_header saddr daddr len =
    le32 saddr.sin_addr ++ (le32 daddr.sin_addr ++ (0 ∷ 17 ∷ le16 (htons len)))

-- The packet in the buffer, and its length. `n` is the length that is given with the text.
unfoldable pub setup_packet : List ℕ → SockAddr → SockAddr → List ℕ → ℕ → Option (ℕ × List ℕ)
unfolding ip_header udp_header psd_header
setup_packet buffer saddr daddr str n =
    if ltb (length str) n then none else if ltb (length buffer) (28 + n) then none else do
      let buffer = write_at buffer 0 (ip_header saddr daddr (28 + n))
      let buffer = write_at buffer 20 (udp_header saddr daddr (8 + n))
      let udp = take 8 (drop 20 buffer)
      let cksum = psd_header saddr daddr (8 + n) ++ (udp ++ (take n str ++ 0 ∷ []))
      check ← csum cksum ((21 + n) / 2)
      let buffer = write_at buffer 26 (le16 check)
      some (28 + n, write_at buffer 28 (take n str))

-- The 20 bytes in front of the text.
abbrev front : SockAddr → SockAddr → ℕ → List ℕ → List ℕ
front saddr daddr n check =
    psd_header saddr daddr (8 + n) ++ (udp_header saddr daddr (8 + n) ++ check)

front-IsBytes :
    (saddr daddr : SockAddr) (n : ℕ) (xs : List ℕ)
    → IsBytes xs
    → IsBytes (front saddr daddr n (0 ∷ 0 ∷ xs))
unfolding psd_header udp_header
front-IsBytes saddr daddr n xs h =
    All-append (λ b. b < 256) (psd_header saddr daddr (8 + n))
      (udp_header saddr daddr (8 + n) ++ 0 ∷ 0 ∷ xs) psd
      (All-append (λ b. b < 256) (udp_header saddr daddr (8 + n)) (0 ∷ 0 ∷ xs) udp
        (omega arith, (omega arith, h)))
  where
    psd : IsBytes (psd_header saddr daddr (8 + n))
    psd = omega arith

    udp : IsBytes (udp_header saddr daddr (8 + n))
    udp = omega arith

-- Putting a checksum into its place adds it to the sum.
word_sum-front :
    (saddr daddr : SockAddr) (n c : ℕ) (xs : List ℕ)
    → c < 65536
    → word_sum (front saddr daddr n (le16 c ++ xs))
      ≡ word_sum (front saddr daddr n (0 ∷ 0 ∷ xs)) + c
unfolding psd_header udp_header
word_sum-front saddr daddr n c xs h = omega arith

-- The checksum over such a list: of the text and the byte behind it, `k` bytes count.
csum-front :
    (saddr daddr : SockAddr) (n k nwords : ℕ) (check xs : List ℕ)
    → length check ≡ 2
    → 2 * nwords ≡ 20 + k
    → k ≤ length xs
    → word_sum (front saddr daddr n (check ++ take k xs)) < 2 ^ 32
    → csum (front saddr daddr n (check ++ xs)) nwords
      ≡ some (65535 - fold (word_sum (front saddr daddr n (check ++ take k xs))))
unfolding psd_header udp_header
csum-front saddr daddr n k nwords [] xs two even inside h = absurd (omega arith)
csum-front saddr daddr n k nwords (c ∷ []) xs two even inside h = absurd (omega arith)
csum-front saddr daddr n k nwords (c ∷ d ∷ []) xs two even inside h =
    let split : take (2 * nwords) (front saddr daddr n (c ∷ d ∷ xs))
        ≡ front saddr daddr n (c ∷ d ∷ take k xs) =
      ap (λ m. take m (front saddr daddr n (c ∷ d ∷ xs))) even
      ∙ take-add (front saddr daddr n (c ∷ d ∷ [])) xs k in
    csum_prefix (front saddr daddr n (c ∷ d ∷ xs)) nwords (omega arith)
      (omega (arith, ap word_sum split, h))
    ∙ ap (λ ys. some (65535 - fold (word_sum ys))) split
csum-front saddr daddr n k nwords (c ∷ d ∷ e ∷ check) xs two even inside h = absurd (omega arith)

-- The packet with a checksum.
abbrev pub packet : SockAddr → SockAddr → ℕ → List ℕ → List ℕ → List ℕ
packet saddr daddr n check end =
    ip_header saddr daddr (28 + n) ++ (udp_header saddr daddr (8 + n) ++ (check ++ end))

-- What the function does once the sizes are right.
setup_packet-run :
    (saddr daddr : SockAddr) (str rest : List ℕ) (n : ℕ)
    → n ≤ length str
    → n ≤ length rest
    → setup_packet (replicate 28 0 ++ rest) saddr daddr str n ≡ (
        csum (front saddr daddr n (0 ∷ 0 ∷ (take n str ++ 0 ∷ []))) ((21 + n) / 2) >>= λ check.
        some (28 + n, packet saddr daddr n (le16 check) (write_at rest 0 (take n str))))
unfolding setup_packet write_at ip_header udp_header psd_header
setup_packet-run saddr daddr str rest n fits room =
    let long_enough : ltb (length str) n ≡ false = ground arith in
    let has_room : ltb (length (replicate 28 0 ++ rest)) (28 + n) ≡ false = ground arith in
    rw (long_enough, has_room, write_at-nil rest 0) refl

sum-bound :
    (saddr daddr : SockAddr) (n k : ℕ) (xs : List ℕ)
    → k ≤ length xs
    → k ≤ 65508
    → IsBytes xs
    → word_sum (front saddr daddr n (0 ∷ 0 ∷ take k xs)) + 65536 < 2 ^ 32
unfolding psd_header udp_header
sum-bound saddr daddr n k xs inside small bytes = omega (
  arith,
  length-take k xs inside,
  word_sum-bound (front saddr daddr n (0 ∷ 0 ∷ take k xs))
      (front-IsBytes saddr daddr n (take k xs) (All-take (λ b. b < 256) k xs bytes)),
)

-- The packet as the standards have it, in the buffer.
abbrev pub udp_packet : SockAddr → SockAddr → ℕ → List ℕ → List ℕ → List ℕ
udp_packet saddr daddr n check end =
    ipv4_header 4 (be16 (28 + n)) (be16 4) 255 17 saddr.sin_addr daddr.sin_addr
    ++ (udp_front saddr.sin_port daddr.sin_port (8 + n) ++ (check ++ end))

-- The pseudo header and the segment, from a packet that begins with an IP header of 20 bytes.
abbrev pub received : SockAddr → SockAddr → ℕ → List ℕ → List ℕ
received saddr daddr len packet =
    pseudo_header saddr.sin_addr daddr.sin_addr 17 len ++ take len (drop 20 packet)

packet-udp_packet :
    (saddr daddr : SockAddr) (n : ℕ) (check end : List ℕ)
    → packet saddr daddr n check end ≡ udp_packet saddr daddr n check end
unfolding ip_header udp_header
packet-udp_packet saddr daddr n check end = λ i.
    ipv4_header 4 (be16-htons (28 + n) i) (be16 4) 255 17 saddr.sin_addr daddr.sin_addr
    ++ (le16 saddr.sin_port ++ (le16 daddr.sin_port ++ be16-htons (8 + n) i) ++ (check ++ end))

pub front-received :
    (saddr daddr : SockAddr) (n : ℕ) (check text : List ℕ)
    → front saddr daddr n (check ++ text)
      ≡ pseudo_header saddr.sin_addr daddr.sin_addr 17 (8 + n)
        ++ (udp_front saddr.sin_port daddr.sin_port (8 + n) ++ (check ++ text))
unfolding psd_header udp_header
front-received saddr daddr n check text = λ i.
    (le32 saddr.sin_addr ++ (le32 daddr.sin_addr ++ (0 ∷ 17 ∷ be16-htons (8 + n) i)))
    ++ ((le16 saddr.sin_port ++ (le16 daddr.sin_port ++ be16-htons (8 + n) i)) ++ (check ++ text))

-- What is received of such a packet.
received-udp_packet :
    (saddr daddr : SockAddr) (n c : ℕ) (text rest : List ℕ)
    → length text ≡ n
    → received saddr daddr (8 + n) (udp_packet saddr daddr n (le16 c) (text ++ rest))
      ≡ front saddr daddr n (le16 c ++ text)
received-udp_packet saddr daddr n c text rest size =
    ap (λ ys. pseudo_header saddr.sin_addr daddr.sin_addr 17 (8 + n) ++ ys)
      (take-add (udp_front saddr.sin_port daddr.sin_port (8 + n) ++ le16 c) (text ++ rest) n
        ∙ ap (λ ys. udp_front saddr.sin_port daddr.sin_port (8 + n) ++ (le16 c ++ ys))
            (take-append text rest n (sym size)))
    ∙ sym (front-received saddr daddr n (le16 c) text)

-- The words that are added up of the text and a byte 0 are those of the text.
word_sum-take :
    (n k : ℕ) (text : List ℕ)
    → length text ≡ n
    → n ≤ k
    → k ≤ n + 1
    → word_sum (take k (text ++ 0 ∷ [])) ≡ word_sum text
word_sum-take n k text size low high = elim (Bool-cases (ltb n k)) [
  | inl more ↦
      ap word_sum (take-all k (text ++ 0 ∷ []) (ground (arith, length-append text (0 ∷ []))))
      ∙ word_sum-zero text
  | inr same ↦ ap word_sum (take-append text (0 ∷ []) k (ground arith))
]

word_sum-front_text :
    (saddr daddr : SockAddr) (n c : ℕ) (xs ys : List ℕ)
    → word_sum xs ≡ word_sum ys
    → word_sum (front saddr daddr n (le16 c ++ xs)) ≡ word_sum (front saddr daddr n (le16 c ++ ys))
unfolding psd_header udp_header
word_sum-front_text saddr daddr n c xs ys e = omega (arith, e)

-- The packet that is built, with the program's own headers, and the sum of what it covers.
pub setup_packet-run_lem :
    (saddr daddr : SockAddr) (str rest : List ℕ) (n : ℕ)
    → n ≤ length str
    → n ≤ length rest
    → n ≤ 65507
    → IsBytes str
    → (check : ℕ) × (check < 65536)
      × (setup_packet (replicate 28 0 ++ rest) saddr daddr str n
          ≡ some (28 + n, packet saddr daddr n (le16 check) (take n str ++ drop n rest)))
      × IsIntact (front saddr daddr n (le16 check ++ take n str))
setup_packet-run_lem saddr daddr str rest n fits room small bytes =
    let k = 2 * ((21 + n) / 2) - 20 in
    let xs = take n str ++ 0 ∷ [] in
    let cut = length-take n str fits in
    let size : length xs ≡ n + 1 = length-append (take n str) (0 ∷ []) ∙ ap (λ m. m + 1) cut in
    let s = word_sum (front saddr daddr n (0 ∷ 0 ∷ take k xs)) in
    let c = 65535 - fold s in
    let low : s + 65536 < 2 ^ 32 = sum-bound saddr daddr n k xs (omega arith) (omega arith) (
      All-append (λ b. b < 256) (take n str) (0 ∷ []) (All-take (λ b. b < 256) n str bytes)
        (omega arith)) in
    let first =
      csum-front saddr daddr n k ((21 + n) / 2) (0 ∷ 0 ∷ []) xs refl (omega arith) (omega arith)
        (omega arith) in
    let sum = word_sum-front saddr daddr n c (take k xs) (omega arith) in
    let same =
      word_sum-front_text saddr daddr n c (take n str) (take k xs)
        (sym (word_sum-take n k (take n str) cut (omega arith) (omega arith))) in
    let text_end : write_at rest 0 (take n str) ≡ take n str ++ drop n rest =
      write_at-zero rest (take n str) (omega arith) ∙ ap (λ m. take n str ++ drop m rest) cut in
    (
      c,
      omega arith,
      setup_packet-run saddr daddr str rest n fits room
          ∙ ap
              (λ m. m >>= λ check.
                some (28 + n, packet saddr daddr n (le16 check) (write_at rest 0 (take n str))))
              first
          ∙ ap (λ end. some (28 + n, packet saddr daddr n (le16 c) end)) text_end,
      ap fold (same ∙ sum) ∙ fold-add s low,
    )

-- In a buffer that starts with 28 zero bytes and has room for the text, of at most 65507 bytes, the
-- packet is built without a fault: an IP header for UDP, a UDP header and the text stand one behind
-- the other, byte for byte as RFC 791 and 768 have them, but for the checksum of the IP header,
-- which is 0; what follows in the buffer stays; and the words of the pseudo header for UDP, of the
-- UDP header with its checksum and of the text add up to all ones, as a receiver checks.
pub setup_packet_lem :
    (saddr daddr : SockAddr) (str rest : List ℕ) (n : ℕ)
    → n ≤ length str
    → n ≤ length rest
    → n ≤ 65507
    → IsBytes str
    → Returns (setup_packet (replicate 28 0 ++ rest) saddr daddr str n) λ out.
      (out.0 ≡ 28 + n)
      × ((check : ℕ) × (check < 65536)
          × (out.1 ≡ udp_packet saddr daddr n (le16 check) (take n str ++ drop n rest)))
      × IsIntact (received saddr daddr (8 + n) out.1)
setup_packet_lem saddr daddr str rest n fits room small bytes =
    let (check, low, run, intact) =
      setup_packet-run_lem saddr daddr str rest n fits room small bytes in
    let end = take n str ++ drop n rest in
    (
      (28 + n, udp_packet saddr daddr n (le16 check) end),
      run ∙ ap (λ p. some (28 + n, p)) (packet-udp_packet saddr daddr n (le16 check) end),
      (
        refl,
        (check, low, refl),
        ap (λ bytes. fold (word_sum bytes))
              (received-udp_packet saddr daddr n check (take n str) (drop n rest)
                (length-take n str fits))
            ∙ intact,
      ),
    )
