-- ===== src/Md/Gcd.antt =====
-- `_gcd` of md_zus.c is the greatest common divisor.
use Prim.Native.Nat.{◌∣◌}
use native.Mathlib.Nat.{dvd_refl, dvd-zero, dvd-mod_iff, dvd_of_mod-eq-zero, mod-lt}
use zufs_zus.Common.{
  ℕ, zero, suc, ◌%◌, ◌≤◌, ◌<◌, ◌≡◌, refl, Option, some, ltb, ◌==◌, arith, true, false, Bool-cases,
  inl, inr,
}
use zufs_zus.Md.{gcd_loop, gcd_ordered, gcd}

-- `g` divides both numbers, and every number that divides both divides `g`.
pub record IsGcd (x y g : ℕ) : Type 0 where
  pub left : g ∣ x
  pub right : g ∣ y
  pub greatest : (d : ℕ) → d ∣ x → d ∣ y → d ∣ g

abbrev pub Finds : ℕ → ℕ → Option ℕ → Type 0
Finds x y r = (g : ℕ) × (r ≡ some g) × IsGcd x y g

module _ (k x y : ℕ) where
  gcd_loop_end : (x % y == 0) ≡ true → gcd_loop (suc k) x y ≡ some y
  unfolding gcd_loop
  gcd_loop_end h = ground arith

  gcd_loop_step : (x % y == 0) ≡ false → gcd_loop (suc k) x y ≡ gcd_loop k y (x % y)
  unfolding gcd_loop
  gcd_loop_step h = ground arith

step-IsGcd : (x y : ℕ) {g : ℕ} → IsGcd y (x % y) g → IsGcd x y g
step-IsGcd x y {g} v = record {
  left = (dvd-mod_iff g v.left).0 v.right;
  right = v.left;
  greatest = λ d p q. v.greatest d q ((dvd-mod_iff d q).1 p);
}

gcd_loop-Finds : (k x y : ℕ) → 0 < y → y ≤ k → Finds x y (gcd_loop k x y)
gcd_loop-Finds zero x y pos le = absurd (omega arith)
gcd_loop-Finds (suc k) x y pos le = elim (Bool-cases (x % y == 0)) [
  | inl h ↦ rw (gcd_loop_end k x y h) (
    y,
    refl,
    record {
      left = dvd_of_mod-eq-zero y (ground arith);
      right = dvd_refl y;
      greatest = λ d p q. q;
    },
  )
  | inr h ↦
      let below : x % y < y = mod-lt x pos in
      let (g, e, v) = gcd_loop-Finds k y (x % y) (ground arith) (omega (arith, below)) in
      rw (gcd_loop_step k x y h) (g, e, step-IsGcd x y v)
]

gcd_ordered-Finds : (x y : ℕ) → Finds x y (gcd_ordered x y)
unfolding gcd_ordered
gcd_ordered-Finds x y = elim (Bool-cases (y == 0)) [
  | inl h ↦
      let e : y ≡ 0 = ground arith in
      rw (h, e) (x, refl, record { left = dvd_refl x; right = dvd-zero x; greatest = λ d p q. p })
  | inr h ↦ rw h (gcd_loop-Finds (suc y) x y (ground arith) (omega arith))
]

-- The loop ends for all numbers, and its result divides both of them and is divided by every number
-- that does: it is their greatest common divisor.
pub gcd_lem : (x y : ℕ) → (g : ℕ) × (gcd x y ≡ some g) × IsGcd x y g
unfolding gcd
gcd_lem x y = elim (Bool-cases (ltb x y)) [
  | inr h ↦ rw h (gcd_ordered-Finds x y)
  | inl h ↦
      let (g, e, v) = gcd_ordered-Finds y x in
      rw h (g, e, record { left = v.right; right = v.left; greatest = λ d p q. v.greatest d q p })
]
