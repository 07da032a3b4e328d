-- ===== src/Toyfs/Dir/Room.antt =====
-- Finding room for an entry in a directory's page, writing it there and clearing it: `_search_free`,
-- `_set_dirent` and `_reset_dirent` of fs/toyfs/dir.c.
use zufs_zus.Common.{
  ℕ, zero, suc, ◌+◌, ◌-◌, ◌≤◌, ◌<◌, ◌≡◌, refl, sym, subst, ap, ◌∙◌, ◌⊎◌, inl, inr, false, Option,
  none, some, List, [], ◌∷◌, ◌++◌, length, leb, ◌==◌, arith, Bool-cases,
}
use zufs_zus.Toyfs.Dir.{
  Dirent, Slot, clear, entry, more, skip, fill, count_free_de, search_free, put, set_dirent,
  reset_dirent,
}
use zufs_zus.Toyfs.Dir.Slots.{
  Item, gap, file, slots_of, nde, nde-pos, skip-fill, skip-entry, length-fill, IsActive,
}

-- `n` clear slots in front
abbrev pub gaps : ℕ → List Item → List Item
gaps zero l = l
gaps (suc n) l = gap ∷ gaps n l

pub slots-gaps : (n : ℕ) (l : List Item) → slots_of (gaps n l) ≡ fill n clear (slots_of l)
unfolding fill
slots-gaps zero l = refl
slots-gaps (suc n) l = ap (λ m. clear ∷ m) (slots-gaps n l)

gaps-append : (n : ℕ) (l m : List Item) → gaps n (l ++ m) ≡ gaps n l ++ m
gaps-append zero l m = refl
gaps-append (suc n) l m = ap (λ r. gap ∷ r) (gaps-append n l m)

gaps-add : (n m : ℕ) (l : List Item) → gaps (n + m) l ≡ gaps n (gaps m l)
gaps-add zero m l = let e : zero + m ≡ m = omega arith in rw e refl
gaps-add (suc n) m l =
    let e : suc n + m ≡ suc (n + m) = omega arith in rw e (ap (λ r. gap ∷ r) (gaps-add n m l))

pub length-gaps : (n : ℕ) (l : List Item) → length (slots_of (gaps n l)) ≡ n + length (slots_of l)
length-gaps zero l = omega arith
length-gaps (suc n) l = ground (arith, length-gaps n l)

pub gaps_part : (n m : ℕ) (l : List Item) → n ≤ m → gaps m l ≡ gaps n (gaps (m - n) l)
gaps_part n m l h =
    let whole : m ≡ n + (m - n) = omega arith in ap (λ z. gaps z l) whole ∙ gaps-add n (m - n) l

-- The leading clear slots, and what stands behind them.
split_gaps :
    (l : List Item)
    → IsActive l
    → (rest : List Item) × (l ≡ gaps (count_free_de (slots_of l)) rest) × IsActive rest
unfolding count_free_de
split_gaps [] v = ([], refl, tt)
split_gaps (gap ∷ l) v = let (rest, e, w) = split_gaps l v in (rest, ap (λ r. gap ∷ r) e, w)
split_gaps (file d ∷ l) v = (file d ∷ l, refl, v)

-- The slot `i` starts a run of `required` clear ones, counted from `at`.
unfoldable pub Found : List Item → (at required i : ℕ) → Type 0
Found l at required i =
    (pre : List Item) × (post : List Item) × (l ≡ pre ++ gaps required post)
    × (i ≡ at + length (slots_of pre))

abbrev pub Searched : List Item → ℕ → ℕ → Option (Option ℕ) → Type 0
Searched l at required r = (r ≡ some none) ⊎ ((i : ℕ) × (r ≡ some (some i)) × Found l at required i)

behind_gaps :
    (c : ℕ) (rest : List Item) (at required : ℕ) (r : Option (Option ℕ))
    → Searched rest (at + c) required r
    → Searched (gaps c rest) at required r
unfolding Found
behind_gaps c rest at required r (inl e) = inl e
behind_gaps c rest at required r (inr (i, e, (pre, post, split, place))) = inr (
  i,
  e,
  (
    gaps c pre,
    post,
    ap (gaps c) split ∙ gaps-append c pre (gaps required post),
    omega (arith, place, length-gaps c pre),
  ),
)

behind_file :
    (d : Dirent) (rest : List Item) (at required : ℕ) (r : Option (Option ℕ))
    → Searched rest (at + nde d) required r
    → Searched (file d ∷ rest) at required r
unfolding Found
behind_file d rest at required r (inl e) = inl e
behind_file d rest at required r (inr (i, e, (pre, post, split, place))) = inr (
  i,
  e,
  (
    file d ∷ pre,
    post,
    ap (λ m. file d ∷ m) split,
    ground (arith, place, length-fill (nde d - 1) more (slots_of pre), nde-pos d),
  ),
)

pub search_free_lem :
    (k : ℕ) (l : List Item) (at required : ℕ)
    → IsActive l
    → 0 < required
    → length (slots_of l) < k
    → Searched l at required (search_free k (slots_of l) at required)
unfolding search_free Found
search_free_lem zero l at required v pos h = absurd (omega arith)
search_free_lem (suc k) [] at required v pos h = inl refl
search_free_lem (suc k) (gap ∷ l) at required v pos h =
    let count = count_free_de (clear ∷ slots_of l) in
    let positive : 0 < count = omega arith in
    let (rest, e, w) = split_gaps (gap ∷ l) v in
    let slots : clear ∷ slots_of l ≡ fill count clear (slots_of rest) =
      ap slots_of e ∙ slots-gaps count rest in
    let behind : skip count (clear ∷ slots_of l) ≡ slots_of rest =
      ap (skip count) slots ∙ skip-fill count clear (slots_of rest) in
    elim (Bool-cases (leb required count)) [
      | inl fits ↦ rw fits (
          inr (
            at,
            refl,
            (
              [],
              gaps (count - required) rest,
              e ∙ gaps_part required count rest (ground arith),
              omega arith,
            ),
          ))
      | inr short ↦
          let later = search_free_lem k rest (at + count) required w pos (
            omega
              (arith, h, ap length slots ∙ length-fill count clear (slots_of rest), positive)) in
          rw (short, behind)
            (subst
              (λ m. Searched m at required (search_free k (slots_of rest) (at + count) required))
              (sym e)
              (behind_gaps count rest at required
                (search_free k (slots_of rest) (at + count) required) later))
    ]
search_free_lem (suc k) (file d ∷ l) at required v pos h =
    let behind = skip-entry d (slots_of l) (nde d) (nde-pos d) in
    let never : (required == 0) ≡ false = ground arith in
    let rest =
      search_free_lem k l (at + nde d) required v.2 pos
        (omega (arith, h, length-fill (nde d - 1) more (slots_of l))) in
    rw (never, behind)
      (behind_file d l at required (search_free k (slots_of l) (at + nde d) required) rest)

-- Under the slots that stand before a place.
put-fill :
    (n m k : ℕ) (f : ℕ → List Slot → List Slot) (l : List Slot)
    → put (n + m) k f (fill n more l) ≡ fill n more (put m k f l)
unfolding fill put
put-fill zero m k f l = let e : zero + m ≡ m = omega arith in rw e refl
put-fill (suc n) m k f l =
    let e : suc n + m ≡ suc (n + m) = omega arith in rw e (ap (λ r. more ∷ r) (put-fill n m k f l))

put-slots :
    (pre rest rest' : List Item) (k : ℕ) (f : ℕ → List Slot → List Slot)
    → f k (slots_of rest) ≡ slots_of rest'
    → put (length (slots_of pre)) k f (slots_of (pre ++ rest)) ≡ slots_of (pre ++ rest')
unfolding put
put-slots [] rest rest' k f h = h
put-slots (gap ∷ pre) rest rest' k f h = ap (λ r. clear ∷ r) (put-slots pre rest rest' k f h)
put-slots (file d ∷ pre) rest rest' k f h =
    let n = nde d - 1 in
    ap (λ z. entry d ∷ put z k f (fill n more (slots_of (pre ++ rest))))
      (length-fill n more (slots_of pre))
    ∙ ap (λ r. entry d ∷ r)
        (put-fill n (length (slots_of pre)) k f (slots_of (pre ++ rest))
          ∙ ap (fill n more) (put-slots pre rest rest' k f h))

-- Where a run of clear slots was found, the entry is written there and nothing else changes.
pub set_dirent-slots :
    (pre post : List Item) (d : Dirent)
    → set_dirent (length (slots_of pre)) d (slots_of (pre ++ gaps (nde d) post))
      ≡ slots_of (pre ++ (file d ∷ post))
unfolding set_dirent
set_dirent-slots pre post d =
    put-slots pre (gaps (nde d) post) (file d ∷ post) (nde d)
      (λ n rest. entry d ∷ fill (n - 1) more (skip n rest))
      (ap (λ r. entry d ∷ fill (nde d - 1) more (skip (nde d) r)) (slots-gaps (nde d) post)
        ∙ ap (λ r. entry d ∷ fill (nde d - 1) more r) (skip-fill (nde d) clear (slots_of post)))

-- An entry that stands in the page is cleared with all of its slots, and nothing else changes.
pub reset_dirent-slots :
    (pre post : List Item) (d : Dirent)
    → reset_dirent (length (slots_of pre)) d (slots_of (pre ++ (file d ∷ post)))
      ≡ slots_of (pre ++ gaps (nde d) post)
unfolding reset_dirent
reset_dirent-slots pre post d =
    put-slots pre (file d ∷ post) (gaps (nde d) post) (nde d) (λ n rest. fill n clear (skip n rest))
      (ap (fill (nde d) clear) (skip-entry d (slots_of post) (nde d) (nde-pos d))
        ∙ sym (slots-gaps (nde d) post))
