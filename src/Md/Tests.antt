-- ===== src/Md/Tests.antt =====
-- Two devices of 8 and 12 blocks, and runs of md_zus.c on them.
use mathlib.Core.Logic.{◌↔◌}
use native.Mathlib.Nat.{dvd-mul_right}
use zufs_zus.Common.{
  ℕ, zero, suc, ◌+◌, ◌*◌, ◌/◌, ◌%◌, ◌<◌, ◌≡◌, refl, none, some, [], ◌∷◌, ◌==◌, if◌then◌else◌, arith,
  true, false,
}
use zufs_zus.Toyfs.Errno.{enomem}
use zufs_zus.Md.{DevId, DevInfo, DevTable, Larray, MdtCheck, gcd, mdt_check}
use zufs_zus.Md.Check.{IsSound, SameDevices, mdt_check_iff}
use zufs_zus.Md.Crc.{crc16, crc_table, table_at}
use zufs_zus.Md.CrcTable.{shift_out, table_at-shift_out}
use zufs_zus.Md.Gcd.{IsGcd, gcd_lem}
use zufs_zus.Md.Map.{InDevice, IsWhole, start, blocks_of, setup, map_setup_lem}

abbrev o2p : ℕ → ℕ
o2p n = n / 4096

abbrev p2o : ℕ → ℕ
p2o n = n * 4096

abbrev blocks : DevId → ℕ
blocks id = id.blocks

abbrev nid : DevId → ℕ
nid id = 0

abbrev ids : ℕ → DevId
ids i = if i == 0 then record { uuid = 10; blocks = 8 } else record { uuid = 11; blocks = 12 }

abbrev devs : ℕ → DevInfo
devs i = record {
  offset = if i == 0 then 0 else 32768;
  index = i;
  size = p2o (ids i).blocks;
  nid = 0;
  virt_addr = none;
}

abbrev larray : Larray
larray = record { bn_gcd = 4; map = λ i. 0 }

abbrev table : DevTable
table = record {
  s_sum = 0;
  bytes = 1 ∷ 2 ∷ 3 ∷ [];
  s_magic = 7;
  major_version = 1;
  minor_version = 2;
  s_uuid = 9;
  s_dev_list = record { id_index = 0; t1_count = 2; t2_count = 0; rmem_count = 0; dev_ids = ids };
}

abbrev wanted : MdtCheck
wanted = record { alloc_mask = 4095; major_ver = 1; minor_ver = 2; magic = 7 }

abbrev land : ℕ → ℕ → ℕ
land a mask = a % (mask + 1)

-- The check value of CRC-16 with this polynomial, of the nine digits from 1 on.
crc_digits : crc16 0 (49 ∷ 50 ∷ 51 ∷ 52 ∷ 53 ∷ 54 ∷ 55 ∷ 56 ∷ 57 ∷ []) ≡ 47933
unfolding crc16
crc_digits = refl

whole : IsWhole (blocks_of o2p p2o blocks nid devs 0 2 larray) 4 0 2
unfolding IsWhole
whole zero lt = (dvd-mul_right 4 2, omega arith)
whole (suc zero) lt = (dvd-mul_right 4 3, omega arith)
whole (suc (suc n)) lt = absurd (omega (arith, lt))

gcd_lem_example : (g : ℕ) × (gcd 8 12 ≡ some g) × IsGcd 8 12 g
gcd_lem_example = gcd_lem 8 12

map_setup_lem_example :
    let run = setup o2p p2o blocks nid devs 0 2 larray in
    let size = blocks_of o2p p2o blocks nid devs 0 2 larray in
    ((run true).0 ≡ none)
    × ((run true).1.bn_gcd ≡ 4)
    × ((j : ℕ) → j < start size 0 2 / 4 → InDevice size 0 2 (j * 4) ((run true).1.map j))
    × (run false ≡ (some enomem, larray))
map_setup_lem_example = map_setup_lem o2p p2o blocks nid devs 0 2 larray (omega arith) whole

mdt_check_iff_example :
    ((mdt_check p2o blocks land table none wanted ≡ true) ↔ IsSound p2o blocks land table wanted)
    × ((mdt_check p2o blocks land table (some table) wanted ≡ true)
        ↔ (IsSound p2o blocks land table wanted × SameDevices table table))
mdt_check_iff_example = mdt_check_iff p2o blocks land table table wanted

table_at-shift_out_example : table_at crc_table 200 ≡ shift_out 8 200
table_at-shift_out_example = table_at-shift_out 200 (omega arith)
