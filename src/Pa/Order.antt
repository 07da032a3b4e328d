-- ===== src/Pa/Order.antt =====
-- `pa_alloc_order` of pa.c: a run of pages.
use zufs_zus.Common.{ℕ, ◌+◌, ◌*◌, ◌^◌, ◌≤◌, ◌<◌, ◌≡◌, ◌⊎◌, Bool, true, Option, none, some}
use zufs_zus.Pa.{Pa, pages_at_a_time, find_run}
use zufs_zus.Pa.Grown.{Grown, PutBack}
use zufs_zus.Pa.Run.{FreeRun, Taken}

-- Where the pool is at the end, `t`, when `pa_alloc_order` of `pa` returns `r`. `w` is `pa` after the
-- rounds that added pages to it.
pub record Ordered (mlock_fails : ℕ → ℕ → Bool) (order : ℕ) (pa : Pa) (r : Option ℕ) (t : Pa)
    : Type 0 where
  pub got :
      (bn : ℕ)
      → r ≡ some bn
      → (w : Pa) × Grown pa w
        × FreeRun w bn (2 ^ order)
        × Taken w bn (2 ^ order) t
        × (bn + 2 ^ order ≤ w.size)
  pub missed :
      r ≡ none
      → (Grown pa t
          × (t.pa_size < (t.size + pages_at_a_time) * 4096)
          × (find_run t (2 ^ order) t.head ≡ none))
        ⊎ ((w : Pa) × (bn : ℕ) × (mlock_fails bn (2 ^ order) ≡ true)
            × Grown pa w
            × FreeRun w bn (2 ^ order)
            × PutBack w bn (2 ^ order) t)
