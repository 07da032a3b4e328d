-- ===== src/Slab/Inv.antt =====
-- The invariant of the slab allocator of slab.c, relative to `live`, the elements that its users
-- have.
use zufs_zus.Common.{
  ℕ, suc, ◌+◌, ◌/◌, ◌≤◌, ◌<◌, ◌≡◌, List, [], ◌∷◌, ◌==◌, if◌then◌else◌, count, arith,
}
use zufs_zus.Common.Int.{pos}
use zufs_zus.Pa.{del}
use zufs_zus.Pa.Inv.{IsPa}
use zufs_zus.Slab.{Gsa}
use zufs_zus.Slab.Elems.{elems, IsCounted}

-- how many of the elements lie in the page `p`
abbrev pub in_page : ℕ → List ℕ → ℕ
in_page p [] = 0
in_page p (a ∷ l) = (if a / 4096 == p then 1 else 0) + in_page p l

pub in_page-del :
    (p x : ℕ) (l : List ℕ)
    → 0 < count x l
    → in_page p (del x l) + (if x / 4096 == p then 1 else 0) ≡ in_page p l
unfolding del
in_page-del p x [] h = absurd (omega arith)
in_page-del p x (y ∷ l) h = ground (arith, in_page-del p x l)

pub count-le-in_page : (a : ℕ) (l : List ℕ) → count a l ≤ in_page (a / 4096) l
count-le-in_page a [] = omega arith
count-le-in_page a (b ∷ l) = ground (arith, count-le-in_page a l)

-- The page `p` belongs to the slab of the processor `c`, cut into the elements of its list `i`.
pub record At (g : Gsa) (p c i : ℕ) : Type 0 where
  pub meta : (g.pa.page p).use_count ≡ pos (suc i)
  pub cpu : (g.pa.page p).slab_cpu ≡ c
  pub small : i < 8
  pub known : c < g.nslabs
  pub inside : p < g.pa.size
  pub one : (g.pa.page p).refcount ≡ pos 1

pub record IsGsa (g : Gsa) (live : List ℕ) : Type 0 where
  pub pages : IsPa g.pa
  pub cpus : (c : ℕ) → c < g.nslabs → (g.slab c).cpu ≡ c
  pub counted : (c i : ℕ) → IsCounted ((g.slab c).list i)
  pub listed : (c i a : ℕ) → 0 < count a ((g.slab c).list i).head → At g (a / 4096) c i
  pub used : (a : ℕ) → 0 < count a live → (c : ℕ) × (i : ℕ) × At g (a / 4096) c i
  -- each element of a page is once on the list, or once in use
  pub split :
      (a c i : ℕ)
      → At g (a / 4096) c i
      → count a ((g.slab c).list i).head + count a live ≡ count a (elems (a / 4096) i)
  pub uc : (p c i : ℕ) → At g p c i → (g.pa.page p).slab_uc ≡ pos (in_page p live)

-- What is in use keeps the size that its page stands for.
abbrev pub Kept : Gsa → List ℕ → Gsa → Type 0
Kept g live h = (a c i : ℕ) → 0 < count a live → At g (a / 4096) c i → At h (a / 4096) c i
