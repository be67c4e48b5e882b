-- ===== src/Net/Raw/Arp.antt =====
-- C/net/raw socket/test_raw_socket_mac_send.c and test_raw_socket_mac_recv.c: an ARP request for an
-- address, and what the listener for ARP shows of a frame.
use coding_demo.Base.{
  ℕ, ◌+◌, ◌*◌, ◌/◌, ◌%◌, ◌^◌, ◌<◌, ◌≡◌, refl, ap, Bool, Option, none, some, List, [], ◌∷◌, ◌++◌,
  arith, ◌>>=◌, ◌==◌, replicate, drop,
}
use coding_demo.Libc.Buffer.{take, write_at}
use coding_demo.Net.Raw.{le16, le32, htons, get16}

abbrev pub buflen : ℕ
buflen = 42

abbrev pub dst_mac : List ℕ
dst_mac = 0xff ∷ 0xff ∷ 0xff ∷ 0xff ∷ 0xff ∷ 0xff ∷ []

-- The buffer when it is sent: the interface has the hardware address `sa_data` and the address
-- `src_ip`.
unfoldable pub arp_request : List ℕ → ℕ → ℕ → List ℕ
unfolding write_at
arp_request sa_data src_ip target_ip =
    let src_mac = take 6 sa_data in
    let buf = write_at (replicate buflen 0) 0 dst_mac in
    let buf = write_at buf 6 src_mac in
    let buf = write_at buf 12 (le16 (htons 0x0806)) in
    let buf = write_at buf 14 (le16 (htons 1)) in
    let buf = write_at buf 16 (le16 (htons 0x0800)) in
    let buf = write_at buf 18 (6 ∷ 4 ∷ []) in
    let buf = write_at buf 20 (le16 (htons 1)) in
    let buf = write_at buf 22 src_mac in
    let buf = write_at buf 28 (le32 src_ip) in write_at buf 38 (le32 target_ip)

-- What is printed of a frame: the addresses, the type, and whether it is an ARP reply.
pub record ArpSeen : Type 0 where
  pub dest : List ℕ
  pub source : List ℕ
  pub proto : ℕ
  pub is_reply : Bool

-- A turn of the loop; `none` where `recvfrom` fails, which is not tested.
unfoldable pub show_frame : Option (List ℕ) → Option ArpSeen
unfolding write_at
show_frame received = do
  let buf = fill received
  proto ← get16 buf 12
  op ← get16 buf 20
  some (record {
    dest = take 6 buf;
    source = take 6 (drop 6 buf);
    proto = htons proto;
    is_reply = htons op == 2;
  })
  where
    fill : Option (List ℕ) → List ℕ
    fill none = replicate 1514 0
    fill (some frame) = write_at (replicate 1514 0) 0 (take 1514 frame)

-- ARP over Ethernet, as RFC 826 has it.
pub record Mac : Type 0 where
  pub m0 : ℕ
  pub m1 : ℕ
  pub m2 : ℕ
  pub m3 : ℕ
  pub m4 : ℕ
  pub m5 : ℕ

abbrev pub mac_bytes : Mac → List ℕ
mac_bytes m = m.m0 ∷ m.m1 ∷ m.m2 ∷ m.m3 ∷ m.m4 ∷ m.m5 ∷ []

-- An operation, the sender and the target; an address as it stands in memory.
pub record ArpPacket : Type 0 where
  pub op : ℕ
  pub sha : Mac
  pub spa : ℕ
  pub tha : Mac
  pub tpa : ℕ

abbrev pub arp_frame : Mac → Mac → ArpPacket → List ℕ
arp_frame dest source p =
    mac_bytes dest
    ++ (mac_bytes source
        ++ (0x08
            ∷ 0x06
            ∷ 0
            ∷ 1
            ∷ 0x08
            ∷ 0
            ∷ 6
            ∷ 4
            ∷ p.op / 256
            ∷ p.op % 256
            ∷ (mac_bytes p.sha ++ (le32 p.spa ++ (mac_bytes p.tha ++ le32 p.tpa)))))

abbrev pub everyone : Mac
everyone = record { m0 = 0xff; m1 = 0xff; m2 = 0xff; m3 = 0xff; m4 = 0xff; m5 = 0xff }

abbrev pub nobody : Mac
nobody = record { m0 = 0; m1 = 0; m2 = 0; m3 = 0; m4 = 0; m5 = 0 }

-- The request that is sent is the ARP frame to everyone that asks for the target, from the hardware
-- address with which `sa_data` begins. The listener for ARP shows of any ARP frame, whatever
-- follows it, its two hardware addresses and its type, and takes it for a reply exactly if its
-- operation is 2.
pub show_frame-arp_frame :
    (mac : Mac) (more : List ℕ) (src_ip target_ip : ℕ) (dest source : Mac) (p : ArpPacket)
    (padding : List ℕ)
    → p.op < 2 ^ 16
    → (arp_request (mac_bytes mac ++ more) src_ip target_ip
        ≡ arp_frame everyone mac
            (record { op = 1; sha = mac; spa = src_ip; tha = nobody; tpa = target_ip }))
      × (show_frame (some (arp_frame dest source p ++ padding))
          ≡ some (record {
            dest = mac_bytes dest;
            source = mac_bytes source;
            proto = 0x0806;
            is_reply = p.op == 2;
          }))
unfolding arp_request show_frame
show_frame-arp_frame mac more src_ip target_ip dest source p padding small =
    let order : htons (p.op / 256 + 256 * (p.op % 256)) ≡ p.op = omega arith in
    (
      refl,
      ap
          (λ op. some (record {
            dest = mac_bytes dest;
            source = mac_bytes source;
            proto = 0x0806;
            is_reply = op == 2;
          }))
          order,
    )
