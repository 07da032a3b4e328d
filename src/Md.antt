-- ===== src/Md.antt =====
-- The table of devices of md_zus.c: its check, the layout of the devices one after another, and the
-- map from blocks to devices. The page shift and the accessors of `struct md_dev_id` are functions
-- of a header outside this repository, and parameters here.
pub mod Check
pub mod Crc
pub mod CrcTable
pub mod Gcd
pub mod Init
pub mod Map
mod Tests
use zufs_zus.Common.{
  ℕ, zero, suc, ◌+◌, ◌-◌, ◌*◌, ◌/◌, ◌%◌, Bool, true, false, ◌&&◌, ◌||◌, not, Option, none, some,
  List, ltb, leb, ◌==◌, if◌then◌else◌, update,
}
use zufs_zus.Md.Crc.{crc16}
use zufs_zus.Toyfs.Errno.{Errno, enomem}

-- `while ((tmp = _x % _y) != 0)`
unfoldable pub gcd_loop : ℕ → (x y : ℕ) → Option ℕ
gcd_loop zero x y = none
gcd_loop (suc k) x y =
    let tmp = x % y in let rest = gcd_loop k y tmp in if tmp == 0 then some y else rest

unfoldable pub gcd_ordered : ℕ → ℕ → Option ℕ
unfolding gcd_loop
gcd_ordered x y = if y == 0 then some x else gcd_loop (suc y) x y

unfoldable pub gcd : ℕ → ℕ → Option ℕ
unfolding gcd_ordered
gcd x y = if ltb x y then gcd_ordered y x else gcd_ordered x y

-- `struct md_dev_id`
pub record DevId : Type 0 where
  pub uuid : ℕ
  pub blocks : ℕ

-- `struct md_dev_info`; `size` and `offset` are in bytes.
pub record DevInfo : Type 0 where
  pub offset : ℕ
  pub index : ℕ
  pub size : ℕ
  pub nid : ℕ
  pub virt_addr : Option ℕ

-- `struct md_dev_larray`; a device stands in `map` by its index in `devs`.
pub record Larray : Type 0 where
  pub bn_gcd : ℕ
  pub map : ℕ → ℕ

pub record MultiDevices : Type 0 where
  pub t1_count : ℕ
  pub t2_count : ℕ
  pub devs : ℕ → DevInfo
  pub t1a : Larray
  pub t2a : Larray

-- `size` gives the blocks of each device. The counter `i` is a `uint`: a map has fewer than 2^32
-- units.
unfoldable pub map_loop : ℕ → (size : ℕ → ℕ) → (gcd i bn_end dev_index : ℕ) → (ℕ → ℕ) → ℕ → ℕ
map_loop zero size gcd i bn_end dev_index map = map
map_loop (suc k) size gcd i bn_end dev_index map =
    let next : ℕ × ℕ =
      if leb bn_end (i * gcd)
      then (bn_end + size (dev_index + 1), dev_index + 1)
      else (bn_end, dev_index) in
    map_loop k size gcd (i + 1) next.0 next.1 (update map i next.1)

module _ (o2p p2o : ℕ → ℕ) (dev_id_blocks dev_id_nid : DevId → ℕ) where
  -- `virt_addr` is what the record has before; it stays where there is no `pmem_addr`.
  unfoldable pub init_dev_info :
      (virt_addr : Option ℕ) → DevId → (index offset : ℕ) → Option ℕ → DevInfo
  init_dev_info virt_addr id index offset pmem_addr = record {
    offset = offset;
    index = index;
    size = p2o (dev_id_blocks id);
    nid = dev_id_nid id;
    virt_addr = elim pmem_addr [ none ↦ virt_addr | some a ↦ some (a + offset) ];
  }

  -- `alloc` tells whether `calloc` succeeds.
  unfoldable pub map_setup :
      Bool → (ℕ → DevInfo) → (blocks dev_start : ℕ) → Larray → Option Errno × Larray
  unfolding map_loop
  map_setup alloc devs blocks dev_start larray =
      if alloc
      then (
        none,
        record larray {
          map =
              map_loop (blocks / larray.bn_gcd) (λ d. o2p (devs d).size) larray.bn_gcd 0
                (o2p (devs dev_start).size) dev_start (λ i. 0);
        },
      )
      else (some enomem, larray)

  -- One of the two loops of `md_init_from_pmem_info`, `k` rounds of it; none where `_gcd` has no
  -- result.
  unfoldable pub init_devs :
      ℕ → (ℕ → DevId) → Option ℕ → (i offset : ℕ) → (ℕ → DevInfo) → ℕ → Option ((ℕ → DevInfo) × ℕ)
  unfolding init_dev_info gcd
  init_devs zero ids pmem_addr i offset devs bn_gcd = some (devs, bn_gcd)
  init_devs (suc k) ids pmem_addr i offset devs bn_gcd =
      let mdi = init_dev_info (devs i).virt_addr (ids i) i offset pmem_addr in
      elim (gcd bn_gcd (o2p mdi.size)) [
        | none ↦ none
        | some g ↦ init_devs k ids pmem_addr (i + 1) (offset + mdi.size) (update devs i mdi) g
      ]

  -- `md_init_from_pmem_info`; `t1_blocks` and `t2_blocks` are what `md_t1_blocks` and
  -- `md_t2_blocks` return, `alloc1` and `alloc2` whether the two calls of `calloc` succeed.
  unfoldable pub init_maps :
      (alloc1 alloc2 : Bool)
      → (t1_blocks t2_blocks : ℕ) → MultiDevices
      → Option Errno × MultiDevices
  unfolding map_setup
  init_maps alloc1 alloc2 t1_blocks t2_blocks md =
      let (e, t1a) : Option Errno × Larray =
        if md.t1_count == 0 then (none, md.t1a) else map_setup alloc1 md.devs t1_blocks 0 md.t1a in
      let n : MultiDevices = record md { t1a = t1a } in
      elim e [
        | some err ↦ (some err, n)
        | none ↦
            let (e', t2a) : Option Errno × Larray =
              if md.t2_count == 0
              then (none, md.t2a)
              else map_setup alloc2 md.devs t2_blocks md.t1_count md.t2a in
            (e', record n { t2a = t2a })
      ]

  unfoldable pub init_from_pmem_info :
      (alloc1 alloc2 : Bool)
      → (t1_blocks t2_blocks : ℕ) → (t1_count t2_count : ℕ) → (ℕ → DevId)
      → (p_pmem_addr : ℕ) → MultiDevices
      → Option (Option Errno × MultiDevices)
  unfolding init_devs init_maps
  init_from_pmem_info alloc1 alloc2 t1_blocks t2_blocks t1_count t2_count ids p_pmem_addr md =
      elim (init_devs t1_count ids (some p_pmem_addr) 0 0 md.devs md.t1a.bn_gcd) [
        | none ↦ none
        | some (devs, g1) ↦ elim (init_devs t2_count ids none t1_count 0 devs md.t2a.bn_gcd) [
          | none ↦ none
          | some (devs', g2) ↦ some (
              init_maps alloc1 alloc2 t1_blocks t2_blocks (record {
                t1_count = t1_count;
                t2_count = t2_count;
                devs = devs';
                t1a = record md.t1a { bn_gcd = g1 };
                t2a = record md.t2a { bn_gcd = g2 };
              }))
        ]
      ]

-- `struct md_dev_list` and `struct md_dev_table`. `bytes` are those that the checksum covers,
-- from `s_version` on; `s_version` stands here as the two numbers that the header's functions
-- `mdt_major_version` and `mdt_minor_version` read from it.
pub record DevList : Type 0 where
  pub id_index : ℕ
  pub t1_count : ℕ
  pub t2_count : ℕ
  pub rmem_count : ℕ
  pub dev_ids : ℕ → DevId

pub record DevTable : Type 0 where
  pub s_sum : ℕ
  pub bytes : List ℕ
  pub s_magic : ℕ
  pub major_version : ℕ
  pub minor_version : ℕ
  pub s_uuid : ℕ
  pub s_dev_list : DevList

-- `struct mdt_check`
pub record MdtCheck : Type 0 where
  pub alloc_mask : ℕ
  pub major_ver : ℕ
  pub minor_ver : ℕ
  pub magic : ℕ

unfoldable pub calc_csum : DevTable → ℕ
unfolding crc16
calc_csum mdt = crc16 65535 mdt.bytes

unfoldable pub csum_mismatch : DevTable → Bool
unfolding calc_csum
csum_mismatch mdt = not (mdt.s_sum == calc_csum mdt)

-- The loop of `_mdt_compare_uuids` over the devices below `k`. The order in which it finds a
-- difference does not show in its result.
unfoldable pub compare_devs : ℕ → DevList → DevList → Bool
compare_devs zero a b = true
compare_devs (suc k) a b =
    compare_devs k a b
    && ((a.dev_ids k).uuid == (b.dev_ids k).uuid)
    && ((a.dev_ids k).blocks == (b.dev_ids k).blocks)

unfoldable pub mdt_compare_uuids : DevTable → DevTable → Bool
unfolding compare_devs
mdt_compare_uuids mdt main_mdt =
    let l = mdt.s_dev_list in
    if not (mdt.s_uuid == main_mdt.s_uuid)
    then false
    else compare_devs (l.t1_count + l.t2_count + l.rmem_count) l main_mdt.s_dev_list

-- `super_size & alloc_mask` is the function `land`; `id_index` is an unsigned field.
unfoldable pub mdt_check :
    (p2o : ℕ → ℕ)
    → (dev_id_blocks : DevId → ℕ) → (land : ℕ → ℕ → ℕ) → DevTable
    → Option DevTable
    → MdtCheck
    → Bool
unfolding csum_mismatch mdt_compare_uuids
mdt_check p2o dev_id_blocks land mdt main_mdt mc =
    let l = mdt.s_dev_list in
    let same_list : Bool = elim main_mdt [
      | none ↦ true
      | some m ↦
          if not (l.t1_count == m.s_dev_list.t1_count)
          then false
          else if not (l.t2_count == m.s_dev_list.t2_count)
          then false
          else if not (l.rmem_count == m.s_dev_list.rmem_count)
          then false
          else mdt_compare_uuids mdt m
    ] in
    let super_size = p2o (dev_id_blocks (l.dev_ids l.id_index)) in
    if not (mdt.s_magic == mc.magic)
    then false
    else if not (mc.major_ver == mdt.major_version) || ltb mc.minor_ver mdt.minor_version
    then false
    else if csum_mismatch mdt
    then false
    else if not same_list
    then false
    else if ltb (l.t1_count + l.t2_count) l.id_index
    then false
    else not (super_size == 0) && (land super_size mc.alloc_mask == 0)
