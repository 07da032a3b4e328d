-- ===== src/Md/Init.antt =====
-- The layout of the devices by `md_init_from_pmem_info` of md_zus.c.
use Prim.Native.Nat.{◌∣◌}
use zufs_zus.Common.{ℕ, zero, suc, ◌+◌, ◌≤◌, ◌<◌, ◌≡◌, Option, ◌⊎◌}
use zufs_zus.Md.{DevId, DevInfo, init_dev_info}

module _ (o2p p2o : ℕ → ℕ) (dev_id_blocks dev_id_nid : DevId → ℕ) (ids : ℕ → DevId)
    (pmem_addr : Option ℕ) where
  -- The bytes of the devices from `i` on, `n` of them.
  abbrev pub bytes_from : ℕ → ℕ → ℕ
  bytes_from i zero = 0
  bytes_from i (suc n) = p2o (dev_id_blocks (ids i)) + bytes_from (i + 1) n

  -- After `k` devices from `i` on have been laid out from `offset` on.
  pub record Laid (k i offset : ℕ) (devs : ℕ → DevInfo) (bn_gcd : ℕ) (devs' : ℕ → DevInfo) (g : ℕ)
      : Type 0 where
    pub laid :
        (n : ℕ)
        → n < k
        → devs' (i + n)
          ≡ init_dev_info o2p p2o dev_id_blocks dev_id_nid
              (devs (i + n)).virt_addr
              (ids (i + n))
              (i + n)
              (offset + bytes_from i n)
              pmem_addr
    pub others : (d : ℕ) → (d < i) ⊎ (i + k ≤ d) → devs' d ≡ devs d
    pub divides : g ∣ bn_gcd
    pub divides_all : (n : ℕ) → n < k → g ∣ o2p (devs' (i + n)).size

  abbrev info : Option ℕ → ℕ → ℕ → DevInfo
  info old i offset = init_dev_info o2p p2o dev_id_blocks dev_id_nid old (ids i) i offset pmem_addr
