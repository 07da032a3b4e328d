-- ===== src/Pa/Run.antt =====
-- Runs of pages in pa.c: the walk that finds one, and the loop that takes one.
use zufs_zus.Common.{
  ℕ, zero, suc, ◌+◌, ◌-◌, ◌%◌, ◌≤◌, ◌<◌, ◌≡◌, ◌≢◌, refl, ap, ◌∙◌, ◌⊎◌, inl, inr, true, some, List,
  [], ◌∷◌, ◌==◌, count, arith, Bool-cases, subst,
}
use zufs_zus.Common.Int.{pos}
use zufs_zus.Pa.{Page, Pa, pa_is_free, alloc_one_page, all_free, alloc_pages, find_run}
use zufs_zus.Pa.Inv.{count-del}

-- A run as the walk tests it: the page `bn` is on the free list, the `n - 1` after it count as free.
-- The test of the end lets a run reach one page past the pool; alignment keeps it from that.
pub record FreeRun (pa : Pa) (bn n : ℕ) : Type 0 where
  pub first : 0 < count bn pa.head
  pub aligned : bn % n ≡ 0
  pub within : bn + n ≤ pa.size + 1
  pub free : (q : ℕ) → bn < q → q < bn + n → pa_is_free pa q ≡ true

all_free_lem :
    (pa : Pa) (bn n q : ℕ) → all_free pa bn n ≡ true → bn ≤ q → q < bn + n → pa_is_free pa q ≡ true
unfolding all_free
all_free_lem pa bn zero q h lo hi = absurd (omega arith)
all_free_lem pa bn (suc n) q h lo hi = elim (Bool-cases (q == bn)) [
  | inl e ↦ let f : q ≡ bn = ground arith in rw f (ground arith)
  | inr e ↦ all_free_lem pa (bn + 1) n q (ground arith) (ground arith) (omega arith)
]

find_run_lem :
    (pa : Pa) (n bn : ℕ) (l : List ℕ)
    → 0 < n
    → find_run pa n l ≡ some bn
    → (0 < count bn l)
      × (bn % n ≡ 0)
      × (bn + n ≤ pa.size + 1)
      × (all_free pa (bn + 1) (n - 1) ≡ true)
unfolding find_run
find_run_lem pa n bn [] lo h = cc
find_run_lem pa n bn (x ∷ l) lo h = ground (arith, find_run_lem pa n bn l lo)

pub find_run-FreeRun :
    (pa : Pa) (n bn : ℕ) → 0 < n → find_run pa n pa.head ≡ some bn → FreeRun pa bn n
find_run-FreeRun pa n bn lo h =
    let (first, aligned, within, free) = find_run_lem pa n bn pa.head lo h in
    record {
      first = first;
      aligned = aligned;
      within = within;
      free = λ q a b. all_free_lem pa (bn + 1) (n - 1) q free (omega arith) (omega arith);
    }

-- The pages of the run are off the list and counted once; all others are as they were.
pub record Taken (pa : Pa) (bn n : ℕ) (t : Pa) : Type 0 where
  pub counted : (q : ℕ) → bn ≤ q → q < bn + n → (t.page q).refcount ≡ pos 1
  pub off : (q : ℕ) → bn ≤ q → q < bn + n → count q pa.head ≤ 1 → count q t.head ≡ 0
  pub other_pages : (q : ℕ) → (q < bn) ⊎ (bn + n ≤ q) → t.page q ≡ pa.page q
  pub other_free : (q : ℕ) → (q < bn) ⊎ (bn + n ≤ q) → count q t.head ≡ count q pa.head

alloc_one-page : (pa : Pa) (bn q : ℕ) → q ≢ bn → (alloc_one_page pa bn).page q ≡ pa.page q
unfolding alloc_one_page
alloc_one-page pa bn q ne = ground arith

alloc_one-count :
    (pa : Pa) (bn q : ℕ)
    → (count q (alloc_one_page pa bn).head ≤ count q pa.head)
      × (q ≢ bn → count q (alloc_one_page pa bn).head ≡ count q pa.head)
      × (count bn pa.head ≤ 1 → count bn (alloc_one_page pa bn).head ≡ 0)
      × (((alloc_one_page pa bn).page bn).refcount ≡ pos 1)
unfolding alloc_one_page
alloc_one-count pa bn q = (
  ground (arith, count-del q bn pa.head),
  λ ne. ground (arith, count-del q bn pa.head),
  λ h. ground (arith, count-del bn bn pa.head),
  ground arith,
)

pub alloc_pages-Taken : (pa : Pa) (bn n : ℕ) → Taken pa bn n (alloc_pages pa bn n)
unfolding alloc_pages
alloc_pages-Taken pa bn zero = record {
  counted = λ q lo hi. absurd (omega arith);
  off = λ q lo hi h. absurd (omega arith);
  other_pages = λ q h. refl;
  other_free = λ q h. refl;
}
alloc_pages-Taken pa bn (suc n) =
    let x = alloc_pages-Taken (alloc_one_page pa bn) (bn + 1) n in
    let (_, _, off, one) = alloc_one-count pa bn bn in
    record {
      counted = λ q lo hi. elim (Bool-cases (q == bn)) [
        | inl e ↦
            let f : q ≡ bn = ground arith in
            rw f (ap (λ (p : Page). p.refcount) (x.other_pages bn (inl (omega arith))) ∙ one)
        | inr e ↦ x.counted q (ground arith) (omega arith)
      ];
      off = λ q lo hi h. elim (Bool-cases (q == bn)) [
        | inl e ↦
            let f : q ≡ bn = ground arith in
            rw f (x.other_free bn (inl (omega arith)) ∙ off (subst (λ z. count z pa.head ≤ 1) f h))
        | inr e ↦
            let (le, _, _, _) = alloc_one-count pa bn q in
            x.off q (ground arith) (omega arith) (omega arith)
      ];
      other_pages = λ q h. x.other_pages q (further h) ∙ alloc_one-page pa bn q (outside h);
      other_free = λ q h.
          let (_, same, _, _) = alloc_one-count pa bn q in
          x.other_free q (further h) ∙ same (outside h);
    }
  where
    further : {q : ℕ} → (q < bn) ⊎ (bn + suc n ≤ q) → (q < bn + 1) ⊎ (bn + 1 + n ≤ q)
    further (inl h) = inl (omega arith)
    further (inr h) = inr (omega arith)

    outside : {q : ℕ} → (q < bn) ⊎ (bn + suc n ≤ q) → q ≢ bn
    outside (inl h) e = omega arith
    outside (inr h) e = omega arith
