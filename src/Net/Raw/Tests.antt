-- ===== src/Net/Raw/Tests.antt =====
-- The theorems on raw packets at small ones.
use coding_demo.Base.{
  true, ℕ, ◌+◌, ◌<◌, ◌≡◌, some, List, [], ◌∷◌, ◌++◌, arith, Returns, replicate, drop,
}
use coding_demo.Libc.Buffer.{codes, take}
use coding_demo.Net.Raw.{le16}
use coding_demo.Net.Raw.Layout.{be16, pseudo_header, IsIntact}
use coding_demo.Net.Raw.Udp.{SockAddr, setup_packet, udp_packet, received, setup_packet_lem}
use coding_demo.Net.Raw.Udp.Query.{query_packet, query_bytes, question, host, query_packet_lem}
use coding_demo.Net.Raw.Arp.{
  Mac, mac_bytes, ArpPacket, arp_frame, arp_request, show_frame, everyone, nobody,
  show_frame-arp_frame,
}
use coding_demo.Net.Raw.Tcp.{own_addr, packet_build, syn, packet_build_lem}

abbrev words : List ℕ
words = 0x45 ∷ 0 ∷ 0xff ∷ 0xff ∷ []

abbrev from : SockAddr
from = record { sin_addr = 0x0100007f; sin_port = 0x0a1a }

abbrev to : SockAddr
to = record { sin_addr = 0x0200007f; sin_port = 0xb822 }

-- A text of odd length.
setup_packet_lem_example :
    Returns (setup_packet (replicate 28 0 ++ replicate 72 0) from to (codes "hello") 5) λ out.
      (out.0 ≡ 28 + 5)
      × ((check : ℕ) × (check < 65536)
          × (out.1
              ≡ udp_packet from to 5
                  (le16 check)
                  (take 5 (codes "hello") ++ drop 5 (replicate 72 0))))
      × IsIntact (received from to (8 + 5) out.1)
setup_packet_lem_example =
    setup_packet_lem from to (codes "hello") (replicate 72 0) 5 (omega arith) (omega arith)
      (omega arith) (omega arith)

packet_build_lem_example : Returns (packet_build 0x0100007f 0x5000 6666 77) λ packet.
    ((check : ℕ) × (check < 65536) × (packet ≡ syn 0x0100007f (be16 6666) 0x5000 77 (le16 check)))
    × IsIntact (pseudo_header own_addr 0x0100007f 6 32 ++ drop 20 packet)
packet_build_lem_example = packet_build_lem 0x0100007f 0x5000 6666 77 (omega arith) (omega arith)

query_packet_lem_example : Returns (query_packet from to) λ packet.
    ((check : ℕ) × (check < 65536)
      × (packet ≡ query_bytes from to (le16 check) (question 0xd8 0xcb host)))
    × IsIntact (received from to 41 packet)
query_packet_lem_example = query_packet_lem from to

abbrev own_mac : Mac
own_mac = record { m0 = 0x52; m1 = 0x54; m2 = 0; m3 = 1; m4 = 2; m5 = 3 }

abbrev their_mac : Mac
their_mac = record { m0 = 0x52; m1 = 0x54; m2 = 0; m3 = 9; m4 = 8; m5 = 7 }

-- The reply to the request.
abbrev reply : ArpPacket
reply = record { op = 2; sha = their_mac; spa = 0x0200007f; tha = own_mac; tpa = 0x0100007f }

show_frame-arp_frame_example :
    (arp_request (mac_bytes own_mac ++ replicate 8 0) 0x0100007f 0x0200007f
      ≡ arp_frame everyone own_mac
          (record { op = 1; sha = own_mac; spa = 0x0100007f; tha = nobody; tpa = 0x0200007f }))
    × (show_frame (some (arp_frame own_mac their_mac reply ++ replicate 18 0))
        ≡ some (record {
          dest = mac_bytes own_mac;
          source = mac_bytes their_mac;
          proto = 0x0806;
          is_reply = true;
        }))
show_frame-arp_frame_example =
    show_frame-arp_frame own_mac (replicate 8 0) 0x0100007f 0x0200007f own_mac their_mac reply
      (replicate 18 0) (omega arith)
