-- ===== src/Md/Map.antt =====
-- The map from blocks to devices that `_map_setup` of md_zus.c builds.
use Prim.Native.Nat.{◌∣◌}
use native.Mathlib.Nat.{
  dvd-sub, dvd-zero, dvd-mul_left, dvd-add, le_of_dvd, suc-mul, le_trans, mul-le-mul_right,
  pos_of_dvd_of_pos, div-mul_cancel,
}
use zufs_zus.Common.{
  ℕ, zero, suc, ◌+◌, ◌-◌, ◌*◌, ◌/◌, ◌≤◌, ◌<◌, ◌≡◌, refl, subst, ◌∙◌, Option, none, some, leb, ◌==◌,
  update, arith, Bool, true, false, Bool-cases, inl, inr,
}
use zufs_zus.Toyfs.Errno.{Errno, enomem}
use zufs_zus.Md.{DevId, DevInfo, Larray, map_loop, map_setup}

-- The first block of the device `from + n`, if device `from` starts at 0.
abbrev pub start : (ℕ → ℕ) → ℕ → ℕ → ℕ
start size from zero = 0
start size from (suc n) = start size from n + size (from + n)

-- `b` lies in the device `dev`, one of the `count` devices from `from` on.
pub InDevice : (ℕ → ℕ) → (from count b dev : ℕ) → Type 0
InDevice size from count b dev =
    (n : ℕ) × (n < count)
    × (dev ≡ from + n)
    × (start size from n ≤ b)
    × (b < start size from n + size (from + n))

-- Each of the devices has a positive number of whole units.
unfoldable pub IsWhole : (ℕ → ℕ) → (gcd from count : ℕ) → Type 0
IsWhole size gcd from count = (n : ℕ) → n < count → (gcd ∣ size (from + n)) × (0 < size (from + n))

module _ (k : ℕ) (size : ℕ → ℕ) (gcd i bn_end dev : ℕ) (map : ℕ → ℕ) where
  map_loop_stay :
      leb bn_end (i * gcd) ≡ false
      → map_loop (suc k) size gcd i bn_end dev map
        ≡ map_loop k size gcd (i + 1) bn_end dev (update map i dev)
  unfolding map_loop
  map_loop_stay h = rw h refl

  map_loop_next :
      leb bn_end (i * gcd) ≡ true
      → map_loop (suc k) size gcd i bn_end dev map
        ≡ map_loop k size gcd (i + 1) (bn_end + size (dev + 1)) (dev + 1) (update map i (dev + 1))
  unfolding map_loop
  map_loop_next h = rw h refl

unit-mul : (i gcd : ℕ) → (i + 1) * gcd ≡ i * gcd + gcd
unit-mul i gcd = subst (λ z. z * gcd ≡ i * gcd + gcd) (omega arith) (suc-mul i gcd)

-- Before the end of a device, a whole unit is left.
unit_left : (gcd i bn_end : ℕ) → gcd ∣ bn_end → i * gcd < bn_end → (i + 1) * gcd ≤ bn_end
unit_left gcd i bn_end h lt =
    let left : gcd ≤ bn_end - i * gcd =
      le_of_dvd (omega (arith, lt)) (dvd-sub gcd h (dvd-mul_left gcd i)) in
    omega (arith, left, lt, unit-mul i gcd)

start_mono : (size : ℕ → ℕ) (from n m : ℕ) → n ≤ m → start size from n ≤ start size from m
start_mono size from n zero h = ground arith
start_mono size from n (suc m) h = elim (Bool-cases (n == suc m)) [
  | inl e ↦ ground arith
  | inr ne ↦ omega (arith, start_mono size from n m (ground arith))
]

dvd-start :
    (size : ℕ → ℕ) (gcd from count n : ℕ)
    → IsWhole size gcd from count
    → n ≤ count
    → gcd ∣ start size from n
unfolding IsWhole
dvd-start size gcd from count zero w le = dvd-zero gcd
dvd-start size gcd from count (suc n) w le =
    dvd-add gcd (dvd-start size gcd from count n w (omega arith)) (w n (omega arith)).0

-- Places before the loop's own stay as they are.
map_loop_before :
    (k : ℕ) (size : ℕ → ℕ) (gcd i bn_end dev : ℕ) (map : ℕ → ℕ) (j : ℕ)
    → j < i
    → map_loop k size gcd i bn_end dev map j ≡ map j
unfolding map_loop
map_loop_before zero size gcd i bn_end dev map j h = refl
map_loop_before (suc k) size gcd i bn_end dev map j h = elim (Bool-cases (leb bn_end (i * gcd))) [
  | inl e ↦ rw (map_loop_next k size gcd i bn_end dev map e) (
      map_loop_before k size gcd (i + 1) (bn_end + size (dev + 1)) (dev + 1)
        (update map i (dev + 1)) j (omega arith)
      ∙ ground arith)
  | inr e ↦ rw (map_loop_stay k size gcd i bn_end dev map e) (
      map_loop_before k size gcd (i + 1) bn_end dev (update map i dev) j (omega arith)
      ∙ ground arith)
]

module _ (size : ℕ → ℕ) (gcd from count : ℕ) (whole : IsWhole size gcd from count) where
  -- The unit `i` is put in the device `n`, which holds it, and the loop goes on.
  placed-InDevice :
      (k i n : ℕ) (map : ℕ → ℕ)
      → n < count
      → start size from n ≤ i * gcd
      → i * gcd < start size from (suc n)
      → let map' =
          map_loop k size gcd
            (i + 1)
            (start size from (suc n))
            (from + n)
            (update map i (from + n)) in
        ((j : ℕ) → i + 1 ≤ j → j < i + 1 + k → InDevice size from count (j * gcd) (map' j))
        → (j : ℕ) → i ≤ j
        → j < i + suc k
        → InDevice size from count (j * gcd) (map' j)
  unfolding InDevice
  placed-InDevice k i n map lt lo hi later j le lt' = elim (Bool-cases (i == j)) [
    | inr ne ↦ later j (ground arith) (omega (arith, lt'))
    | inl e ↦
        let same : i ≡ j = ground arith in
        subst
          (λ z. InDevice size from count (z * gcd) (
            map_loop k size gcd (i + 1) (start size from (suc n)) (from + n)
              (update map i (from + n)) z))
          same
          (
            n,
            lt,
            map_loop_before k size gcd (i + 1) (start size from (suc n)) (from + n)
                  (update map i (from + n)) i (omega arith)
                ∙ ground arith,
            lo,
            hi,
          )
  ]

  -- What the loop maps if it starts at the unit `i`, in the device `n` or right behind it.
  map_loop-InDevice :
      (k i n : ℕ) (map : ℕ → ℕ)
      → n < count
      → start size from n ≤ i * gcd
      → i * gcd ≤ start size from (suc n)
      → (i + k) * gcd ≤ start size from count
      → (j : ℕ) → i ≤ j
      → j < i + k
      → InDevice size from count
          (j * gcd)
          (map_loop k size gcd i (start size from (suc n)) (from + n) map j)
  unfolding InDevice IsWhole
  map_loop-InDevice zero i n map lt lo hi all j le lt' = absurd (omega arith)
  map_loop-InDevice (suc k) i n map lt lo hi all j le lt' =
      let unit = unit-mul i gcd in
      let reach : (i + 1) * gcd ≤ start size from count =
        le_trans (mul-le-mul_right gcd (omega arith)) all in
      let all' : (i + 1 + k) * gcd ≤ start size from count =
        subst (λ z. z * gcd ≤ start size from count) (omega arith) all in
      let (dvd, pos) = whole n lt in
      let gcd_pos : 0 < gcd = pos_of_dvd_of_pos dvd pos in
      let bn_end = start size from (suc n) in
      elim (Bool-cases (leb bn_end (i * gcd))) [
        | inr stay ↦
            let inside : i * gcd < bn_end = ground arith in
            let next =
              unit_left gcd i bn_end
                (dvd-start size gcd from count (suc n) whole (omega (arith, lt))) inside in
            rw (map_loop_stay k size gcd i bn_end (from + n) map stay) (
              placed-InDevice k i n map lt lo inside
                (map_loop-InDevice k (i + 1) n (update map i (from + n)) lt
                  (omega (arith, lo, unit)) next all')
                j le lt')
        | inl go ↦
            let at : i * gcd ≡ bn_end = ground (arith, hi) in
            let lt1 : suc n < count =
              ground (arith, start_mono size from count (suc n), reach, unit, at, gcd_pos) in
            let (dvd', pos') = whole (suc n) lt1 in
            let inside : i * gcd < start size from (suc (suc n)) = omega (arith, at, pos') in
            let next =
              unit_left gcd i (start size from (suc (suc n)))
                (dvd-start size gcd from count (suc (suc n)) whole (omega (arith, lt1))) inside in
            let dev : from + n + 1 ≡ from + suc n = omega arith in
            rw (map_loop_next k size gcd i bn_end (from + n) map go, dev)
              (placed-InDevice k i (suc n) map lt1 (omega (arith, at)) inside
                (map_loop-InDevice k (i + 1) (suc n) (update map i (from + suc n)) lt1
                  (omega (arith, at, unit)) next all')
                j le lt')
      ]

module _ (o2p p2o : ℕ → ℕ) (dev_id_blocks dev_id_nid : DevId → ℕ) (devs : ℕ → DevInfo)
    (from count : ℕ) (larray : Larray) where
  abbrev pub blocks_of : ℕ → ℕ
  blocks_of d = o2p (devs d).size

  -- The map set up for all blocks of the devices.
  abbrev pub setup : Bool → Option Errno × Larray
  setup alloc =
      map_setup o2p p2o dev_id_blocks dev_id_nid alloc devs (start blocks_of from count) from larray

  -- With whole devices of which there is at least one, and with all of their blocks to map, setting
  -- the map up maps every unit to the device that holds its first block; it fails only if there is
  -- no memory for the map, and then leaves the array as it was.
  pub map_setup_lem :
      0 < count
      → IsWhole blocks_of larray.bn_gcd from count
      → ((setup true).0 ≡ none)
        × ((setup true).1.bn_gcd ≡ larray.bn_gcd)
        × ((j : ℕ)
            → j < start blocks_of from count / larray.bn_gcd
            → InDevice blocks_of from count (j * larray.bn_gcd) ((setup true).1.map j))
        × (setup false ≡ (some enomem, larray))
  unfolding map_setup
  map_setup_lem pos whole =
      let gcd = larray.bn_gcd in
      let units = start blocks_of from count / gcd in
      let dvd = dvd-start blocks_of gcd from count count whole (omega arith) in
      let div : units * gcd ≡ start blocks_of from count = div-mul_cancel gcd dvd in
      let pad : units ≡ 0 + units = omega arith in
      let all : (0 + units) * gcd ≤ start blocks_of from count =
        subst (λ z. z * gcd ≤ start blocks_of from count) pad (omega (arith, div)) in
      let lead : 0 + blocks_of from ≡ blocks_of from = omega arith in
      let zeroth : from + 0 ≡ from = omega arith in
      let zero : 0 * gcd ≡ 0 = omega arith in
      (
        refl,
        refl,
        λ j lt.
            let w =
              map_loop-InDevice blocks_of gcd from count whole units 0 0 (λ i. 0) pos
                (omega (arith, zero)) (omega (arith, zero)) all j (omega arith)
                (omega (arith, lt)) in
            rw (zeroth, lead) at w,
        refl,
      )
