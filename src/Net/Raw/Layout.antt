-- ===== src/Net/Raw/Layout.antt =====
-- The headers as their standards have them (RFC 791, 768, 9293), byte by byte. An address or a port
-- is given as it stands in memory.
use coding_demo.Base.{ℕ, ◌+◌, ◌*◌, ◌/◌, ◌%◌, ◌≡◌, List, [], ◌∷◌, ◌++◌, arith}
use coding_demo.Net.Raw.{le16, le32, htons}
use coding_demo.Net.Raw.Fold.{fold, word_sum}

-- A number of 16 bits in network order.
abbrev pub be16 : ℕ → List ℕ
be16 x = x / 256 % 256 ∷ x % 256 ∷ []

-- An IP header of 20 bytes with a checksum of 0: the type of service, the total length and the id
-- as bytes, the time to live, the protocol, the addresses.
abbrev pub ipv4_header : ℕ → List ℕ → List ℕ → ℕ → ℕ → ℕ → ℕ → List ℕ
ipv4_header tos total id ttl protocol source dest =
    0x45 ∷ tos ∷ (total ++ (id ++ (0 ∷ 0 ∷ ttl ∷ protocol ∷ 0 ∷ 0 ∷ (le32 source ++ le32 dest))))

-- The pseudo header of a segment of `len` bytes: the addresses, a zero, the protocol, the length.
abbrev pub pseudo_header : ℕ → ℕ → ℕ → ℕ → List ℕ
pseudo_header source dest protocol len = le32 source ++ (le32 dest ++ (0 ∷ protocol ∷ be16 len))

-- A UDP header but for its checksum.
abbrev pub udp_front : ℕ → ℕ → ℕ → List ℕ
udp_front source dest len = le16 source ++ (le16 dest ++ be16 len)

-- A receiver adds up the words and folds the sum, which has to give all ones.
abbrev pub IsIntact : List ℕ → Type 0
IsIntact bytes = fold (word_sum bytes) ≡ 65535

pub be16-htons : (x : ℕ) → le16 (htons x) ≡ be16 x
be16-htons x =
    let high : (x % 256 * 256 + x / 256 % 256) % 256 ≡ x / 256 % 256 = omega arith in
    let low : (x % 256 * 256 + x / 256 % 256) / 256 % 256 ≡ x % 256 = omega arith in
    λ i. high i ∷ low i ∷ []

-- A byte 0 at the end adds nothing to the words.
pub word_sum-zero : (xs : List ℕ) → word_sum (xs ++ 0 ∷ []) ≡ word_sum xs
word_sum-zero [] = omega arith
word_sum-zero (a ∷ []) = omega arith
word_sum-zero (a ∷ b ∷ xs) = omega (arith, word_sum-zero xs)
