-- ===== src/Toyfs/Xattr/Memory.antt =====
-- Memory as bytes by position, and runs of bytes in it.
use zufs_zus.Common.{
  ℕ, zero, suc, ◌+◌, ◌≤◌, ◌<◌, ◌≡◌, refl, ◌⊎◌, inl, inr, Bool, true, ◌&&◌, List, [], ◌∷◌, ◌==◌,
  update, length, arith, ◌∙◌,
}

abbrev pub Bytes : Type 0
Bytes = ℕ → ℕ

unfoldable pub put_bytes : Bytes → ℕ → List ℕ → Bytes
put_bytes m x [] = m
put_bytes m x (b ∷ l) = put_bytes (update m x b) (x + 1) l

unfoldable pub get_bytes : Bytes → ℕ → ℕ → List ℕ
get_bytes m x zero = []
get_bytes m x (suc n) = m x ∷ get_bytes m (x + 1) n

-- `memcmp` with a name finds no difference.
unfoldable pub has_bytes : Bytes → ℕ → List ℕ → Bool
has_bytes m x [] = true
has_bytes m x (b ∷ l) = m x == b && has_bytes m (x + 1) l

pub put_bytes-outside :
    (m : Bytes) (x i : ℕ) (l : List ℕ) → (i < x) ⊎ (x + length l ≤ i) → put_bytes m x l i ≡ m i
unfolding put_bytes
put_bytes-outside m x i [] h = refl
put_bytes-outside m x i (b ∷ l) h =
    put_bytes-outside (update m x b) (x + 1) i l (further h) ∙ ground arith
  where
    further : (i < x) ⊎ (x + suc (length l) ≤ i) → (i < x + 1) ⊎ (x + 1 + length l ≤ i)
    further (inl p) = inl (omega arith)
    further (inr p) = inr (omega arith)

-- Two memories agree on `n` bytes from `x` on.
pub get_bytes-agree :
    (m k : Bytes) (x n : ℕ)
    → ((i : ℕ) → x ≤ i → i < x + n → m i ≡ k i)
    → get_bytes m x n ≡ get_bytes k x n
unfolding get_bytes
get_bytes-agree m k x zero h = refl
get_bytes-agree m k x (suc n) h =
    ground (arith, h x, get_bytes-agree m k (x + 1) n (λ i lo hi. h i (omega arith) (omega arith)))

pub has_bytes-agree :
    (m k : Bytes) (x : ℕ) (l : List ℕ)
    → ((i : ℕ) → x ≤ i → i < x + length l → m i ≡ k i)
    → has_bytes m x l ≡ has_bytes k x l
unfolding has_bytes
has_bytes-agree m k x [] h = refl
has_bytes-agree m k x (b ∷ l) h =
    ground (arith, h x, has_bytes-agree m k (x + 1) l (λ i lo hi. h i (omega arith) (omega arith)))

pub get_bytes-put_bytes :
    (m : Bytes) (x : ℕ) (l : List ℕ) → get_bytes (put_bytes m x l) x (length l) ≡ l
unfolding get_bytes put_bytes
get_bytes-put_bytes m x [] = refl
get_bytes-put_bytes m x (b ∷ l) =
    let first = put_bytes-outside (update m x b) (x + 1) x l (inl (omega arith)) in
    ground (arith, first, get_bytes-put_bytes (update m x b) (x + 1) l)

pub has_bytes-put_bytes : (m : Bytes) (x : ℕ) (l : List ℕ) → has_bytes (put_bytes m x l) x l ≡ true
unfolding has_bytes put_bytes
has_bytes-put_bytes m x [] = refl
has_bytes-put_bytes m x (b ∷ l) =
    let first = put_bytes-outside (update m x b) (x + 1) x l (inl (omega arith)) in
    ground (arith, first, has_bytes-put_bytes (update m x b) (x + 1) l)
