-- ===== src/Slab/Index.antt =====
-- `_slab_list_index` of slab.c: the list for a size.
use zufs_zus.Common.{
  ℕ, zero, suc, ◌-◌, ◌*◌, ◌/◌, ◌^◌, ◌≤◌, ◌<◌, ◌≡◌, refl, inl, inr, true, false, leb, ◌==◌, arith,
  Bool-cases,
}
use zufs_zus.Slab.{bits, slab_list_index, elem_bytes}

pow-suc : (n : ℕ) → 2 ^ suc n ≡ 2 * 2 ^ n
pow-suc n = omega arith

bits-suc : (n x : ℕ) → 0 < x → bits (suc n) x ≡ suc (bits n (x / 2))
unfolding bits
bits-suc n x h = ground arith

bits_zero : (n : ℕ) → bits n 0 ≡ 0
unfolding bits
bits_zero zero = refl
bits_zero (suc n) = refl

bits_none : (x : ℕ) → bits zero x ≡ 0
unfolding bits
bits_none x = refl

-- A number of at most `n` bits fits in its `bits`.
bits_fit : (n x : ℕ) → x < 2 ^ n → x < 2 ^ bits n x
bits_fit zero x h = rw (bits_none x) h
bits_fit (suc n) x h = elim (Bool-cases (x == 0)) [
  | inl e ↦ let z : x ≡ 0 = ground arith in rw (z, bits_zero (suc n)) (omega arith)
  | inr e ↦
      rw (bits-suc n x (ground arith))
        (omega (arith, pow-suc (bits n (x / 2)), bits_fit n (x / 2) (omega (arith, pow-suc n))))
]

-- They are no more than needed.
bits_least : (n x : ℕ) → 0 < x → 2 ^ bits n x ≤ 2 * x
bits_least zero x h = rw (bits_none x) (omega arith)
bits_least (suc n) x h = elim (Bool-cases (x / 2 == 0)) [
  | inl e ↦
      let z : x / 2 ≡ 0 = ground arith in rw (bits-suc n x h) (rw (z, bits_zero n) (omega arith))
  | inr e ↦
      rw (bits-suc n x h)
        (omega (arith, pow-suc (bits n (x / 2)), bits_least n (x / 2) (ground arith)))
]

bits_bound : (n k x : ℕ) → x < 2 ^ k → bits n x ≤ k
bits_bound zero k x h = rw (bits_none x) (omega arith)
bits_bound (suc n) zero x h = let z : x ≡ 0 = omega arith in rw (z, bits_zero (suc n)) (omega arith)
bits_bound (suc n) (suc k) x h = elim (Bool-cases (x == 0)) [
  | inl e ↦ let z : x ≡ 0 = ground arith in rw (z, bits_zero (suc n)) (omega arith)
  | inr e ↦
      rw (bits-suc n x (ground arith))
        (omega (arith, bits_bound n k (x / 2) (omega (arith, pow-suc k))))
]

index-small : (size : ℕ) → leb size 32 ≡ true → slab_list_index size ≡ 0
unfolding slab_list_index
index-small size h = rw h refl

index-large : (size : ℕ) → leb size 32 ≡ false → slab_list_index size ≡ bits 32 ((size - 1) / 32)
unfolding slab_list_index
index-large size h = rw h refl

-- A size of 1 byte to a page has a list, whose elements are large enough and, past the smallest, less
-- than twice as large.
pub slab_list_index_lem :
    (size : ℕ)
    → 0 < size
    → size ≤ 4096
    → (slab_list_index size < 8)
      × (size ≤ elem_bytes (slab_list_index size))
      × (32 < size → elem_bytes (slab_list_index size) < 2 * size)
unfolding elem_bytes
slab_list_index_lem size lo hi = elim (Bool-cases (leb size 32)) [
  | inl e ↦ rw (index-small size e) (omega arith, ground arith, λ h. ground arith)
  | inr e ↦
      let x = (size - 1) / 32 in
      let fit = bits_fit 32 x (omega arith) in
      let least = bits_least 32 x (ground arith) in
      let bound = bits_bound 32 7 x (omega arith) in
      rw (index-large size e) (omega arith, omega arith, λ h. omega arith)
]
