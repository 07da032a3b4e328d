-- ===== src/Malloc/Copy/Laws.antt =====
-- What `zus_realloc` and `zus_calloc` of slab.c return, and the bytes there.
use zufs_zus.Common.{
  ℕ, ◌+◌, ◌-◌, ◌*◌, ◌%◌, ◌^◌, ◌≤◌, ◌<◌, ◌≡◌, ◌⊎◌, refl, ap, ◌∙◌, true, Option, none, some, List,
  ◌∷◌, arith,
}
use zufs_zus.Pa.{del}
use zufs_zus.Slab.{Gsa, slab_size_valid, elem_bytes}
use zufs_zus.Slab.Elems.{elems_fill}
use zufs_zus.Slab.Inv.{IsGsa}
use zufs_zus.Malloc.{Ptr, pool, host, Host, zus_malloc}
use zufs_zus.Malloc.Blocks.{Block}
use zufs_zus.Malloc.Serve.{NewBlock, zus_malloc_lem, BlocksKept}
use zufs_zus.Malloc.Copy.{Memory, byte, overlay, store, Libc, zus_calloc, Outcome, returns, faults}
use zufs_zus.Malloc.History.{held_after}

byte-store : (m : Memory) (p : Ptr) (n o : ℕ) (g : ℕ → ℕ) → o < n → byte (store m p n g) p o ≡ g o
unfolding byte store overlay
byte-store m (pool a) n o g lt = let e : a + o - a ≡ o = omega arith in ground (arith, ap g e)
byte-store m (host a) n o g lt = let e : a + o - a ≡ o = omega arith in ground (arith, ap g e)

-- the callers' blocks after a `zus_realloc` of `a` that moved it to `r`, or failed
abbrev pub moved : ℕ → Option Ptr → List ℕ → List ℕ
moved a none live = live
moved a (some p) live = del a (held_after (some p) live)

-- The bytes of the block are at the pointer returned, and the block there is the caller's and has
-- `size` bytes or more if it is the pool's. The other blocks in use stay in use, as large as they
-- were.
pub record Resized (w : Host) (g : Gsa) (live : List ℕ) (m : Memory) (a n size : ℕ) (r : Option Ptr)
    (h : Gsa) (k : Memory) : Type 0 where
  pub valid : IsGsa h (moved a r live)
  pub refused :
      r ≡ none → (k ≡ m) × ((size ≡ 0) ⊎ (w.malloc size ≡ none) ⊎ (w.memalign size ≡ none))
  pub bytes : (p : Ptr) → r ≡ some p → (o : ℕ) → o < n → byte k p o ≡ byte m (pool a) o
  pub enough :
      (b : ℕ) → r ≡ some (pool b) → (bytes : ℕ) × Block h (moved a r live) b bytes × (size ≤ bytes)
  pub kept : BlocksKept g live h (moved a r live)

module _ (w : Host) (m : Memory) (cpu : ℕ) {g : Gsa} {live : List ℕ} {a n : ℕ} (v : IsGsa g live)
    (b : Block g live a n) (size : ℕ) where
  -- What `zus_realloc` comes to: it returns, and with a result as above.
  abbrev pub Ends : Outcome (Option Ptr × Gsa × Memory) → Type 0
  Ends faults = ⊥
  Ends (returns (r, h, k)) = Resized w g live m a n size r h k

  abbrev h : Gsa
  h = (zus_malloc w g cpu size).1

calloc-some :
    (w : Host) (c : Libc) (g : Gsa) (m : Memory) (cpu nmemb elemsz : ℕ) (p : Ptr)
    → slab_size_valid (nmemb * elemsz % 2 ^ 64) ≡ true
    → (zus_malloc w g cpu (nmemb * elemsz % 2 ^ 64)).0 ≡ some p
    → zus_calloc w c g m cpu nmemb elemsz ≡ (
      some p,
      (zus_malloc w g cpu (nmemb * elemsz % 2 ^ 64)).1,
      store m p (nmemb * elemsz % 2 ^ 64) (λ o. 0),
    )
unfolding zus_calloc
calloc-some w c g m cpu nmemb elemsz p h e = rw (h, zus_calloc) (rw (e, zus_calloc) refl)

elem_bytes-le : (i : ℕ) → i < 8 → elem_bytes i ≤ 4096
elem_bytes-le i lt = let (fill, some_bytes) = elems_fill i lt in grind arith

module _ (w : Host) (c : Libc) (m : Memory) (cpu nmemb elemsz : ℕ) {g : Gsa} {live : List ℕ}
    (v : IsGsa g live) (known : cpu < g.nslabs)
    (fits : slab_size_valid (nmemb * elemsz % 2 ^ 64) ≡ true) where
  abbrev total : ℕ
  total = nmemb * elemsz % 2 ^ 64

  abbrev result : Option Ptr × Gsa × Memory
  result = zus_calloc w c g m cpu nmemb elemsz

  -- The bytes asked for, modulo 2^64, are zeros, and in a block that nobody had if they are the
  -- pool's.
  pub zus_calloc_lem :
      (p : Ptr)
      → (zus_malloc w g cpu total).0 ≡ some p
      → (result.0 ≡ some p)
        × ((o : ℕ) → o < total → byte result.2 p o ≡ 0)
        × ((a : ℕ) → p ≡ pool a → NewBlock g live total a result.1)
  zus_calloc_lem p e =
      let x = zus_malloc_lem w v cpu total known in
      rw (calloc-some w c g m cpu nmemb elemsz p fits e)
        (refl, λ o lt. byte-store m p total o (λ o. 0) lt, λ a q. x.served a (e ∙ ap some q))

  -- Where the product overflows and wraps to a size of the pool, the block is too small.
  pub zus_calloc_short :
      (a : ℕ)
      → 2 ^ 64 ≤ nmemb * elemsz
      → (zus_malloc w g cpu total).0 ≡ some (pool a)
      → (result.0 ≡ some (pool a))
        × ((n : ℕ) × Block result.1 (a ∷ live) a n × (n < nmemb * elemsz))
  zus_calloc_short a over e =
      let (got, _, new) = zus_calloc_lem (pool a) e in
      let b = new a refl in
      let small = elem_bytes-le b.block.index b.block.place.small in
      let bytes = b.block.bytes in (got, (b.bytes, b.block, omega arith))
