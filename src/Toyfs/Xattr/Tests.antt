-- ===== src/Toyfs/Xattr/Tests.antt =====
-- Extended attributes of fs/toyfs/xattr.c on small inputs.
use zufs_zus.Common.{
  ℕ, ◌≤◌, ◌≡◌, ◌≢◌, refl, true, false, List, [], ◌∷◌, ltb, if◌then◌else◌, arith, some,
}
use zufs_zus.Toyfs.Pool.{Sbi, acquire_pmemb}
use zufs_zus.Toyfs.Xattr.{ok, erange, setxattr, getxattr, do_setxattr, do_getxattr}
use zufs_zus.Toyfs.Xattr.Memory.{Bytes}
use zufs_zus.Toyfs.Xattr.Single.{entry}
use zufs_zus.Toyfs.Xattr.Pair.{do_setxattr-overwrites}
use zufs_zus.Toyfs.Xattr.Store.{getxattr-setxattr}

abbrev empty : Bytes
empty i = 0

abbrev name : List ℕ
name = 97 ∷ 98 ∷ []

abbrev two_pages : Sbi
two_pages = record {
  pages = 6 ∷ 5 ∷ [];
  free_dblkrefs = [];
  free_iblkrefs = [];
  bfree = 2;
  bavail = 2;
  dblk = λ d. record { refcnt = 0; bn = 0 };
  mem = λ p o. 7;
}

getxattr-setxattr_example :
    (t : Sbi) × (setxattr two_pages (record { i_xattr = 0 }) name (some (1 ∷ 2 ∷ 3 ∷ [])) true false
      ≡ (ok tt, t, record { i_xattr = 6 }))
    × ((size : ℕ)
        → getxattr t (record { i_xattr = 6 }) name size
          ≡ (if ltb size 3 then erange else ok (1 ∷ 2 ∷ 3 ∷ [])))
unfolding acquire_pmemb
getxattr-setxattr_example =
    getxattr-setxattr two_pages (record { i_xattr = 0 }) 6 refl refl (omega arith) name
      (1 ∷ 2 ∷ 3 ∷ []) true (omega arith) (omega arith) (omega arith)

other_name : name ≢ 99 ∷ []
other_name h = cc

do_setxattr-overwrites_example :
    (k : Bytes) × (do_setxattr (entry empty 0 name (1 ∷ 2 ∷ 0 ∷ [])) (99 ∷ []) (5 ∷ []) false false
      ≡ ok k)
    × ((size : ℕ)
        → 3 ≤ size
        → (w : List ℕ) × (do_getxattr k name size ≡ ok w) × (w ≢ 1 ∷ 2 ∷ 0 ∷ []))
do_setxattr-overwrites_example =
    do_setxattr-overwrites empty name (1 ∷ 2 ∷ []) (omega arith) (omega arith) (omega arith)
      (omega arith) (99 ∷ []) (5 ∷ []) other_name (omega arith) (omega arith) (omega arith)
