-- ===== src/Dpdk/Int2str/Tests.antt =====
-- The theorems on int2str at the inputs of its `main`.
use coding_demo.Base.{
  ℕ, ◌+◌, ◌%◌, ◌≡◌, refl, some, List, [], ◌∷◌, ◌++◌, arith, Returns, length, replicate, drop, pos,
}
use coding_demo.Libc.Buffer.{codes, take, write_at}
use coding_demo.Libc.Decimal.{decimal}
use coding_demo.Libc.Number.{strtol}
use coding_demo.Libc.Hex.{hex_text, hex_value}
use coding_demo.Dpdk.Int2str.{
  delimiter, char_to_buf, short_str_copy, short_str_to_buf, init_u16_str_map, u16_to_buf, hex_array,
  int2hex, int2hex2,
}
use coding_demo.Dpdk.Int2str.Copy.{short_str_copy_lem}
use coding_demo.Dpdk.Int2str.Hex.{int2hex-int2hex2}
use coding_demo.Dpdk.Int2str.Fields.{u16_to_buf_lem}

three : char_to_buf b'3' (replicate 4 0) 0 ≡ some (b'3' ∷ b'|' ∷ 0 ∷ 0 ∷ [], 2)
unfolding char_to_buf
three = refl

short : short_str_to_buf (codes "12345") 5 (replicate 6 0) ≡ some (codes "12345|", 6)
unfolding short_str_to_buf write_at
short = refl

short_str_copy_lem_example :
    short_str_copy (codes "a1b2c3d") 7 (replicate 32 0)
    ≡ some (take (7 % 16) (codes "a1b2c3d") ++ drop (7 % 16) (replicate 32 0))
short_str_copy_lem_example =
    short_str_copy_lem (codes "a1b2c3d") (replicate 32 0) 7 (omega arith) (omega arith)

-- Of zero Int2Hex makes an empty text, and Int2Hex2 makes "0".
zero_differs :
    (int2hex hex_array (pos 0) (replicate 4 7) ≡ some (replicate 4 7, 0))
    × (int2hex2 (pos 0) (replicate 4 7) ≡ some (b'0' ∷ 0 ∷ 7 ∷ 7 ∷ [], 1))
unfolding int2hex int2hex2 hex_text write_at
zero_differs = (refl, refl)

int2hex-int2hex2_example :
    (int2hex hex_array (pos 12345) (replicate 32 0)
      ≡ some (write_at (replicate 32 0) 0 (hex_text 12345), length (hex_text 12345)))
    × (int2hex2 (pos 12345) (replicate 32 0)
        ≡ some (write_at (replicate 32 0) 0 (hex_text 12345 ++ 0 ∷ []), length (hex_text 12345)))
    × (hex_value 0 (hex_text 12345) ≡ 12345)
unfolding hex_text
int2hex-int2hex2_example =
    int2hex-int2hex2 12345 (replicate 32 0) (omega arith) (omega arith) (omega arith)

u16_to_buf_lem_example :
    Returns (u16_to_buf (init_u16_str_map (replicate 8 0)) 12345 (replicate 32 0) 4) λ r.
      ((rest : List ℕ) × (length (decimal 12345) + 1 + length rest ≡ 8)
        × (r.0
            ≡ take 4 (replicate 32 0)
              ++ (decimal 12345 ++ delimiter ∷ (rest ++ drop (4 + 8) (replicate 32 0)))))
      × (r.1 ≡ 4 + length (decimal 12345) + 1)
      × ((strtol (drop 4 r.0)).0 ≡ pos 12345)
u16_to_buf_lem_example =
    u16_to_buf_lem 12345 4 (replicate 8 0) (replicate 32 0) (omega arith) (omega arith)
      (omega arith)
