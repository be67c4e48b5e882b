-- ===== src/Net/Raw/Icmp.antt =====
-- C/net/raw socket/test_raw_socket_icmp_send.c: the header of an echo request.
use coding_demo.Base.{
  ℕ, ◌+◌, ◌-◌, ◌^◌, ◌<◌, ◌≡◌, refl, ap, ◌∙◌, Option, some, List, [], ◌∷◌, ◌++◌, arith, ◌>>=◌,
  Returns,
}
use coding_demo.Net.Raw.{le16, checksum}
use coding_demo.Net.Raw.Fold.{fold, fold-add, word_sum, checksum_lem}

-- `struct icmphdr` of an echo, and its bytes.
pub record IcmpHdr : Type 0 where
  pub kind : ℕ
  pub code : ℕ
  pub checksum : ℕ
  pub id : ℕ
  pub sequence : ℕ

abbrev pub icmp_bytes : IcmpHdr → List ℕ
icmp_bytes h = h.kind ∷ h.code ∷ (le16 h.checksum ++ (le16 h.id ++ le16 h.sequence))

unfoldable pub setup_icmphdr : ℕ → ℕ → ℕ → ℕ → Option IcmpHdr
setup_icmphdr kind code id seq = do
  let h : IcmpHdr = record { kind = kind; code = code; checksum = 0; id = id; sequence = seq }
  sum ← checksum (icmp_bytes h) 8
  some (record h { checksum = sum })

-- The header is set up without a fault, with the type, code, id and sequence number that are
-- asked for, and whoever computes the checksum over all of it gets 0.
pub setup_icmphdr_lem :
    (kind code id seq : ℕ)
    → kind < 256
    → code < 256
    → Returns (setup_icmphdr kind code id seq) λ h.
      (h.kind ≡ kind)
      × (h.code ≡ code)
      × (h.id ≡ id)
      × (h.sequence ≡ seq)
      × (checksum (icmp_bytes h) 8 ≡ some 0)
unfolding setup_icmphdr
setup_icmphdr_lem kind code id seq hk hc =
    let h0 : IcmpHdr = record { kind = kind; code = code; checksum = 0; id = id; sequence = seq } in
    let s = word_sum (icmp_bytes h0) in
    let c = 65535 - fold s in
    let h = record h0 { checksum = c } in
    let small : s < 2 ^ 20 = omega arith in
    let first = checksum_lem (icmp_bytes h0) [] (omega arith) in
    let sum : word_sum (icmp_bytes h) ≡ s + c = omega arith in
    let second = checksum_lem (icmp_bytes h) [] (omega arith) in
    (
      h,
      rw first refl,
      (
        refl,
        refl,
        refl,
        refl,
        second ∙ ap some (omega (arith, ap fold sum, fold-add s (omega arith))),
      ),
    )
