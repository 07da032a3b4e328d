-- ===== src/Md/Check.antt =====
-- What `md_mdt_check` of md_zus.c accepts.
use mathlib.Core.Logic.{◌↔◌}
use zufs_zus.Common.{
  ℕ, zero, suc, ◌+◌, ◌≤◌, ◌<◌, ◌≡◌, ◌≢◌, refl, sym, subst, none, some, ◌==◌, arith, true,
  Bool-cases, inl, inr,
}
use zufs_zus.Md.{
  DevId, DevList, DevTable, MdtCheck, calc_csum, csum_mismatch, compare_devs, mdt_compare_uuids,
  mdt_check,
}

-- The two tables list the same devices.
pub SameDevices : DevTable → DevTable → Type 0
SameDevices a b =
    let l = a.s_dev_list in
    let m = b.s_dev_list in
    (l.t1_count ≡ m.t1_count)
    × (l.t2_count ≡ m.t2_count)
    × (l.rmem_count ≡ m.rmem_count)
    × (a.s_uuid ≡ b.s_uuid)
    × ((i : ℕ)
        → i < l.t1_count + l.t2_count + l.rmem_count
        → ((l.dev_ids i).uuid ≡ (m.dev_ids i).uuid) × ((l.dev_ids i).blocks ≡ (m.dev_ids i).blocks))

-- The two lists have the same device at a place.
abbrev Agree : DevList → DevList → ℕ → Type 0
Agree a b i =
    ((a.dev_ids i).uuid ≡ (b.dev_ids i).uuid) × ((a.dev_ids i).blocks ≡ (b.dev_ids i).blocks)

compare_devs_iff :
    (k : ℕ) (a b : DevList)
    → (compare_devs k a b ≡ true) ↔ (
        (i : ℕ)
        → i < k
        → ((a.dev_ids i).uuid ≡ (b.dev_ids i).uuid) × ((a.dev_ids i).blocks ≡ (b.dev_ids i).blocks))
unfolding compare_devs
compare_devs_iff zero a b = (λ h i lt. absurd (omega arith), λ h. refl)
compare_devs_iff (suc k) a b =
    let (to, from) = compare_devs_iff k a b in
    (
      λ h i lt. elim (Bool-cases (i == k)) [
        | inl e ↦ let at : i ≡ k = ground arith in subst (λ z. Agree a b z) (sym at) (ground arith)
        | inr ne ↦ to (ground arith) i (ground arith)
      ],
      λ h.
          let below : compare_devs k a b ≡ true = from (λ i lt. h i (omega arith)) in
          let last = h k (omega arith) in ground (arith, below, last),
    )

mdt_compare_uuids_iff :
    (a b : DevTable)
    → (mdt_compare_uuids a b ≡ true) ↔ (
        (a.s_uuid ≡ b.s_uuid)
        × ((i : ℕ)
            → i < a.s_dev_list.t1_count + a.s_dev_list.t2_count + a.s_dev_list.rmem_count
            → Agree a.s_dev_list b.s_dev_list i))
unfolding mdt_compare_uuids
mdt_compare_uuids_iff a b =
    let l = a.s_dev_list in
    let (to, from) = compare_devs_iff (l.t1_count + l.t2_count + l.rmem_count) l b.s_dev_list in
    (λ h. (ground arith, to (ground arith)), λ h. let all = from h.1 in ground (arith, h.0, all))

-- The table has the format and the version looked for, its checksum is right, its own index is
-- within bounds, and its device has a size that is not zero and is aligned.
abbrev pub IsSound : (ℕ → ℕ) → (DevId → ℕ) → (ℕ → ℕ → ℕ) → DevTable → MdtCheck → Type 0
IsSound p2o dev_id_blocks land mdt mc =
    let l = mdt.s_dev_list in
    let super_size = p2o (dev_id_blocks (l.dev_ids l.id_index)) in
    (mdt.s_magic ≡ mc.magic)
    × (mc.major_ver ≡ mdt.major_version)
    × (mdt.minor_version ≤ mc.minor_ver)
    × (mdt.s_sum ≡ calc_csum mdt)
    × (l.id_index ≤ l.t1_count + l.t2_count)
    × (super_size ≢ 0)
    × (land super_size mc.alloc_mask ≡ 0)

module _ (p2o : ℕ → ℕ) (dev_id_blocks : DevId → ℕ) (land : ℕ → ℕ → ℕ) (mdt : DevTable)
    (mc : MdtCheck) where
  alone_iff :
      (mdt_check p2o dev_id_blocks land mdt none mc ≡ true) ↔ IsSound p2o dev_id_blocks land mdt mc
  unfolding mdt_check csum_mismatch
  alone_iff = ground arith

  with_main :
      (m : DevTable)
      → (mdt_check p2o dev_id_blocks land mdt (some m) mc ≡ true) ↔ (
          IsSound p2o dev_id_blocks land mdt mc
          × (mdt.s_dev_list.t1_count ≡ m.s_dev_list.t1_count)
          × (mdt.s_dev_list.t2_count ≡ m.s_dev_list.t2_count)
          × (mdt.s_dev_list.rmem_count ≡ m.s_dev_list.rmem_count)
          × (mdt_compare_uuids mdt m ≡ true))
  unfolding mdt_check csum_mismatch
  with_main m = ground arith

-- A device table is accepted alone exactly if it is sound: right magic number and major version, a
-- minor version that is not newer, a right checksum, its own index at most the number of devices
-- (that number itself, one past the last device, included), and an aligned size that is not zero.
-- Beside the main table it is accepted exactly if it also lists the same devices with the same
-- sizes.
pub mdt_check_iff :
    (p2o : ℕ → ℕ) (dev_id_blocks : DevId → ℕ) (land : ℕ → ℕ → ℕ) (mdt m : DevTable) (mc : MdtCheck)
    → ((mdt_check p2o dev_id_blocks land mdt none mc ≡ true)
        ↔ IsSound p2o dev_id_blocks land mdt mc)
      × ((mdt_check p2o dev_id_blocks land mdt (some m) mc ≡ true)
          ↔ (IsSound p2o dev_id_blocks land mdt mc × SameDevices mdt m))
unfolding SameDevices
mdt_check_iff p2o dev_id_blocks land mdt m mc =
    let (to, from) = with_main p2o dev_id_blocks land mdt mc m in
    let (uuids, back) = mdt_compare_uuids_iff mdt m in
    (
      alone_iff p2o dev_id_blocks land mdt mc,
      (
        λ h.
            let (sound, t1, t2, rmem, same) = to h in
            let (uuid, devs) = uuids same in (sound, (t1, t2, rmem, uuid, devs)),
        λ h.
            let (sound, (t1, t2, rmem, uuid, devs)) = h in
            from (sound, t1, t2, rmem, back (uuid, devs)),
      ),
    )
