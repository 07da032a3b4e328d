-- ===== src/Md/CrcTable.antt =====
-- The table of `crc16` in md_zus.c against the polynomial that it stands for.
use zufs_zus.Common.{
  ℕ, zero, suc, ◌/◌, ◌%◌, ◌<◌, ◌≡◌, refl, Bool, true, ◌&&◌, inl, inr, ◌==◌, if◌then◌else◌, arith,
  Bool-cases,
}
use zufs_zus.Md.Crc.{xor, crc_table, table_at}

-- One bit of the division by the reflected polynomial 0xa001, and `n` of them.
pub shift_out : ℕ → ℕ → ℕ
unfolding xor
shift_out zero x = x
shift_out (suc n) x = shift_out n (if x % 2 == 1 then xor 16 (x / 2) 40961 else x / 2)

-- Two functions agree on the numbers below `n`.
agrees : (ℕ → ℕ) → (ℕ → ℕ) → ℕ → Bool
agrees f g zero = true
agrees f g (suc n) = agrees f g n && (f n == g n)

agrees-below : (f g : ℕ → ℕ) (n i : ℕ) → agrees f g n ≡ true → i < n → f i ≡ g i
unfolding agrees
agrees-below f g zero i h lt = absurd (omega arith)
agrees-below f g (suc n) i h lt = elim (Bool-cases (i == n)) [
  | inl e ↦ ground arith
  | inr ne ↦ agrees-below f g n i (ground arith) (ground arith)
]

all_agree : agrees (table_at crc_table) (shift_out 8) 256 ≡ true
unfolding agrees table_at shift_out
all_agree = refl

-- Every entry of the table is the remainder of its index after eight bits of the division by the
-- reflected polynomial 0xa001.
pub table_at-shift_out : (i : ℕ) → i < 256 → table_at crc_table i ≡ shift_out 8 i
table_at-shift_out i lt = agrees-below (table_at crc_table) (shift_out 8) 256 i all_agree lt
