-- ===== src/Malloc/Blocks.antt =====
-- What `zus_malloc` and `zus_free` of slab.c promise of the blocks of memory in use.
use zufs_zus.Common.{
  ℕ, ◌+◌, ◌*◌, ◌/◌, ◌≤◌, ◌<◌, ◌≡◌, inl, inr, List, ◌==◌, count, arith, Bool-cases, subst,
}
use zufs_zus.Slab.{Gsa, elem_bytes}
use zufs_zus.Slab.Elems.{elems, elems_inside, elems_apart}
use zufs_zus.Slab.Inv.{At, IsGsa}

-- The block at `a` is in use, with `n` bytes, all of them in the allocator's pages.
pub record Block (g : Gsa) (live : List ℕ) (a n : ℕ) : Type 0 where
  pub cpu : ℕ
  pub index : ℕ
  pub held : 0 < count a live
  pub place : At g (a / 4096) cpu index
  pub bytes : n ≡ elem_bytes index

At-unique : {g : Gsa} {p d j d' j' : ℕ} → At g p d j → At g p d' j' → (d ≡ d') × (j ≡ j')
At-unique x y = (ground (arith, x.cpu, y.cpu), ground (arith, x.meta, y.meta))

module _ {g : Gsa} {live : List ℕ} (v : IsGsa g live) where
  pub in_elems : {a n : ℕ} (b : Block g live a n) → 0 < count a (elems (a / 4096) b.index)
  in_elems {a} b = omega (arith, v.split a b.cpu b.index b.place, b.held)

  -- Two blocks in use do not overlap, and each lies in the pages of the allocator.
  pub blocks_apart :
      {a b m n : ℕ}
      → Block g live a m
      → Block g live b n
      → a < b
      → (a + m ≤ b) × (b + n ≤ g.pa.size * 4096)
  blocks_apart {a} {b} {m} {n} x y lt =
      let (px, lox, hix) = elems_inside a (a / 4096) x.index x.place.small (in_elems x) in
      let (py, loy, hiy) = elems_inside b (b / 4096) y.index y.place.small (in_elems y) in
      let bytes = x.bytes in
      let within = y.bytes in
      let inside = y.place.inside in
      elim (Bool-cases (a / 4096 == b / 4096)) [
        | inl e ↦
            let f : a / 4096 ≡ b / 4096 = ground arith in
            let (ed, ej) = At-unique (subst (λ p. At g p x.cpu x.index) f x.place) y.place in
            let other : 0 < count b (elems (a / 4096) x.index) = rw (f, ej) (in_elems y) in
            (omega (arith, elems_apart a b (a / 4096) x.index (in_elems x) other lt), omega arith)
        | inr e ↦ (ground arith, omega arith)
      ]
