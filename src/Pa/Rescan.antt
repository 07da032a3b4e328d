-- ===== src/Pa/Rescan.antt =====
-- The search of `pa_alloc_order` of pa.c for a run of free pages, with the rounds that add pages.
use zufs_zus.Common.{
  ℕ, zero, suc, ◌+◌, ◌*◌, ◌%◌, ◌≤◌, ◌<◌, ◌≡◌, refl, sym, inl, inr, Option, none, some, arith,
  Option-cases, some_eq, subst,
}
use zufs_zus.Pa.{Pa, pages_at_a_time, init_page_of_pages, alloc_pages, find_run, rescan}
use zufs_zus.Pa.Inv.{IsPa, grown-IsPa, init_some}
use zufs_zus.Pa.Grown.{Grown, Grown-refl, Grown-trans, grown-Grown}
use zufs_zus.Pa.Run.{FreeRun, find_run-FreeRun, Taken, alloc_pages-Taken}

-- What the search from `pa` on comes to. `w` is the pool after the rounds that added pages to it.
pub record Searched (pa : Pa) (n : ℕ) (r : Option ℕ) (t : Pa) : Type 0 where
  pub got :
      (bn : ℕ)
      → r ≡ some bn
      → (w : Pa) × IsPa w
        × Grown pa w
        × (w.size % 32768 ≡ pa.size % 32768)
        × FreeRun w bn n
        × Taken w bn n t
  pub missed :
      r ≡ none
      → Grown pa t × (t.pa_size < (t.size + pages_at_a_time) * 4096) × (find_run t n t.head ≡ none)

rescan-got :
    (fuel : ℕ) (pa : Pa) (n bn : ℕ)
    → find_run pa n pa.head ≡ some bn
    → rescan (suc fuel) pa n ≡ (some bn, alloc_pages pa bn n)
unfolding rescan
rescan-got fuel pa n bn h = rw (h, rescan) refl

rescan-full :
    (fuel : ℕ) (pa : Pa) (n : ℕ)
    → find_run pa n pa.head ≡ none
    → init_page_of_pages pa ≡ none
    → rescan (suc fuel) pa n ≡ (none, pa)
unfolding rescan
rescan-full fuel pa n h k = rw (h, rescan) (rw (k, rescan) refl)

rescan-more :
    (fuel : ℕ) (pa t : Pa) (n : ℕ)
    → find_run pa n pa.head ≡ none
    → init_page_of_pages pa ≡ some t
    → rescan (suc fuel) pa n ≡ rescan fuel t n
unfolding rescan
rescan-more fuel pa t n h k = rw (h, rescan) (rw (k, rescan) refl)

pub full-size :
    (pa : Pa) → init_page_of_pages pa ≡ none → pa.pa_size < (pa.size + pages_at_a_time) * 4096
unfolding init_page_of_pages
full-size pa h = ground arith

pub room-size :
    (pa t : Pa)
    → init_page_of_pages pa ≡ some t
    → ((pa.size + pages_at_a_time) * 4096 ≤ pa.pa_size)
      × (t.size ≡ pa.size + pages_at_a_time)
      × (t.pa_size ≡ pa.pa_size)
unfolding init_page_of_pages
room-size pa t h = (ground arith, ground arith, ground arith)

rescan_step :
    (fuel : ℕ) (pa : Pa) (n : ℕ)
    → IsPa pa
    → 0 < n
    → ((t : Pa)
        → init_page_of_pages pa ≡ some t
        → Searched pa n (rescan fuel t n).0 (rescan fuel t n).1)
    → Searched pa n (rescan (suc fuel) pa n).0 (rescan (suc fuel) pa n).1
rescan_step fuel pa n v lo next = elim (Option-cases (find_run pa n pa.head)) [
  | inr (bn, h) ↦ rw (rescan-got fuel pa n bn h) (record {
    got = λ b q. (
      pa,
      v,
      Grown-refl pa,
      refl,
      subst (λ z. FreeRun pa z n) (some_eq q) (find_run-FreeRun pa n bn lo h),
      subst (λ z. Taken pa z n (alloc_pages pa bn n)) (some_eq q) (alloc_pages-Taken pa bn n),
    );
    missed = λ q. cc;
  })
  | inl h ↦ elim (Option-cases (init_page_of_pages pa)) [
    | inl k ↦
        rw (rescan-full fuel pa n h k)
          (record { got = λ b q. cc; missed = λ q. (Grown-refl pa, full-size pa k, h) })
    | inr (t, k) ↦ rw (rescan-more fuel pa t n h k) (next t k)
  ]
]

Searched-after :
    {pa t u : Pa} {n : ℕ} {r : Option ℕ}
    → Grown pa t
    → t.size ≡ pa.size + 32768
    → Searched t n r u
    → Searched pa n r u
Searched-after p e s = record {
  got = λ bn q.
      let (w, valid, g, size, free, taken) = s.got bn q in
      (w, valid, Grown-trans p g, omega arith, free, taken);
  missed = λ q. let (g, few, no_run) = s.missed q in (Grown-trans p g, few, no_run);
}

pub rescan_lem :
    (fuel : ℕ) (pa : Pa) (n : ℕ)
    → IsPa pa
    → 0 < n
    → pa.pa_size < (pa.size + 32768 * (fuel + 1)) * 4096
    → Searched pa n (rescan (suc fuel) pa n).0 (rescan (suc fuel) pa n).1
rescan_lem zero pa n v lo enough =
    rescan_step zero pa n v lo (λ t k. let (room, _, _) = room-size pa t k in absurd (omega arith))
rescan_lem (suc fuel) pa n v lo enough = rescan_step (suc fuel) pa n v lo (λ t k.
    let (room, size, same) = room-size pa t k in
    let valid = subst IsPa (sym (init_some pa t k)) (grown-IsPa v) in
    Searched-after (subst (λ z. Grown pa z) (sym (init_some pa t k)) (grown-Grown v)) size
      (rescan_lem fuel t n valid lo (omega arith)))
