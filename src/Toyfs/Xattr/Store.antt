-- ===== src/Toyfs/Xattr/Store.antt =====
-- `toyfs_setxattr` and `toyfs_getxattr` of fs/toyfs/xattr.c on an inode and the pages.
use zufs_zus.Common.{
  ℕ, ◌+◌, ◌-◌, ◌*◌, ◌/◌, ◌%◌, ◌≤◌, ◌<◌, ◌≡◌, ◌≢◌, refl, ap, ◌∙◌, fun_ext, Bool, true, false, some,
  List, ltb, if◌then◌else◌, length, arith,
}
use zufs_zus.Toyfs.Pool.{Sbi, acquire_pmemb}
use zufs_zus.Toyfs.Xattr.{
  Res, ok, do_getxattr, do_setxattr, XattrInode, page_bytes, with_bytes, require_xattr, getxattr,
  stored, setxattr,
}
use zufs_zus.Toyfs.Xattr.Memory.{Bytes}
use zufs_zus.Toyfs.Xattr.Single.{do_getxattr-do_setxattr}

page_bytes-with_bytes : (s : Sbi) (bn : ℕ) (m : Bytes) → page_bytes (with_bytes s bn m) bn ≡ m
unfolding page_bytes with_bytes
page_bytes-with_bytes s bn m = fun_ext (λ i.
    let e : (bn + i / 4096 - bn) * 4096 + i % 4096 ≡ i = omega arith in ground (arith, ap m e))

stored-ok :
    (s : Sbi) (bn : ℕ) (m : Bytes)
    → stored s (record { i_xattr = bn }) (ok m)
      ≡ (ok tt, with_bytes s bn m, record { i_xattr = bn })
unfolding stored
stored-ok s bn m = refl

get-bytes :
    (s : Sbi) (bn : ℕ) (name : List ℕ) (size : ℕ)
    → bn ≢ 0
    → getxattr s (record { i_xattr = bn }) name size ≡ do_getxattr (page_bytes s bn) name size
unfolding getxattr
get-bytes s bn name size ne = ground arith

module _ (s : Sbi) (ti : XattrInode) (bn : ℕ) (new : ti.i_xattr ≡ 0)
    (got : (acquire_pmemb s).0 ≡ some bn) where
  required : require_xattr s ti ≡ (true, (acquire_pmemb s).1, record { i_xattr = bn })
  unfolding require_xattr
  required = rw (new, got) refl

  zeros : page_bytes (acquire_pmemb s).1 bn 2 ≡ 0
  unfolding page_bytes acquire_pmemb
  zeros = ground arith

  set-required :
      (name v : List ℕ) (create replace : Bool)
      → setxattr s ti name (some v) create replace
        ≡ stored
            (acquire_pmemb s).1
            (record { i_xattr = bn })
            (do_setxattr (page_bytes (acquire_pmemb s).1 bn) name v create replace)
  unfolding setxattr
  set-required name v create replace = rw required refl

  -- An inode without a page for attributes gets a clear one if the pool has one. If that is not the
  -- block 0, the first attribute set there, of a name of 1 to 255 bytes and not to replace one, is
  -- got back as it was set, or with ERANGE in a smaller buffer; name and value must fit in a page.
  pub getxattr-setxattr :
      bn ≢ 0
      → (name v : List ℕ) (create : Bool) → 0 < length name
      → length name < 256
      → length name + length v ≤ 4096
      → (t : Sbi) × (setxattr s ti name (some v) create false ≡ (ok tt, t, record { i_xattr = bn }))
        × ((size : ℕ)
            → getxattr t (record { i_xattr = bn }) name size
              ≡ (if ltb size (length v) then Res.erange else ok v))
  getxattr-setxattr ne name v create lo short room =
      let t : Sbi = (acquire_pmemb s).1 in
      let (_, done) = do_getxattr-do_setxattr (page_bytes t bn) name v create zeros lo short room in
      let (k, set, get) = done in
      (
        with_bytes t bn k,
        set-required name v create false
            ∙ ap (stored t (record { i_xattr = bn })) set
            ∙ stored-ok t bn k,
        λ size.
            get-bytes (with_bytes t bn k) bn name size ne
            ∙ ap (λ m. do_getxattr m name size) (page_bytes-with_bytes t bn k)
            ∙ get size,
      )
