-- ===== src/Toyfs/Xattr.antt =====
-- Extended attributes, fs/toyfs/xattr.c: one page of packed entries. An entry has its value's size in
-- two bytes, its name's length in one, and from the fourth byte on its name and value. Positions are
-- bytes from the start of the page; those past the page are in the pages after it.
pub mod Memory
pub mod Single
pub mod Pair
pub mod Store
mod Tests
use zufs_zus.Common.{
  ◌++◌, ℕ, zero, suc, ◌+◌, ◌-◌, ◌*◌, ◌/◌, ◌%◌, ◌^◌, Bool, true, false, ◌&&◌, not, Option, none,
  some, List, [], ◌∷◌, ltb, leb, ◌==◌, if◌then◌else◌, update, length,
}
use zufs_zus.Toyfs.Pool.{Sbi, acquire_pmemb, release_pmemb}
use zufs_zus.Toyfs.Xattr.Memory.{Bytes, put_bytes, get_bytes, has_bytes}

-- what a call returns: its bytes or number, or an error number
pub data Res {ℓ} (A : Type ℓ) : Type ℓ where
  ok : A → Res A
  enodata : Res A
  erange : Res A
  enospc : Res A
  eexist : Res A
  -- `memcpy` with a count that wrapped
  fault : Res A

unfoldable pub name_len : Bytes → ℕ → ℕ
name_len m xe = m (xe + 2)

unfoldable pub value_size : Bytes → ℕ → ℕ
value_size m xe = m xe + 256 * m (xe + 1)

unfoldable pub has_data : Bytes → ℕ → Bool
unfolding name_len
has_data m xe = ltb 0 (name_len m xe)

unfoldable pub has_name : Bytes → ℕ → List ℕ → Bool
unfolding name_len has_bytes
has_name m xe name = name_len m xe == length name && has_bytes m (xe + 3) name

unfoldable pub next_of : Bytes → ℕ → ℕ
unfolding name_len value_size
next_of m xe = xe + name_len m xe + value_size m xe

-- Each round goes on by a byte or more, so `4096` of them end the walk.
unfoldable pub find_from : ℕ → Bytes → ℕ → List ℕ → Option ℕ
unfolding has_data has_name next_of
find_from zero m xe name = none
find_from (suc fuel) m xe name =
    let rest = find_from fuel m (next_of m xe) name in
    if ltb xe 4096 && has_data m xe then (if has_name m xe name then some xe else rest) else none

unfoldable pub find_xe : Bytes → List ℕ → Option ℕ
unfolding find_from
find_xe m name = find_from 4097 m 0 name

unfoldable pub copy_value_to_buf : Bytes → ℕ → ℕ → Res (List ℕ)
unfolding value_size name_len get_bytes
copy_value_to_buf m xe size =
    if ltb size (value_size m xe)
    then erange
    else ok (get_bytes m (xe + 3 + name_len m xe) (value_size m xe))

unfoldable pub do_getxattr : Bytes → List ℕ → ℕ → Res (List ℕ)
unfolding copy_value_to_buf
do_getxattr m name size = elim (find_xe m name) [
  | none ↦ enodata
  | some xe ↦ copy_value_to_buf m xe size
]

-- `_nbytes_distance` to the end of the page, of pointers 64 bits wide
unfoldable pub nbytes_left : ℕ → ℕ
nbytes_left xe = (2 ^ 64 + 4096 - xe) % 2 ^ 64

-- `_discard_xattr`; the bytes are copied from low to high.
unfoldable pub discard_xattr : Bytes → ℕ → Res Bytes
unfolding next_of nbytes_left
discard_xattr m xe =
    let next = next_of m xe in
    let cnt = nbytes_left next in
    if ltb 4096 next
    then fault
    else ok (λ i. if leb xe i && ltb i (xe + cnt) then m (i + (next - xe)) else m i)

unfoldable pub do_removexattr : Bytes → List ℕ → Res Bytes
unfolding discard_xattr
do_removexattr m name = elim (find_xe m name) [ none ↦ enodata | some xe ↦ discard_xattr m xe ]

-- the loop of `_append_xattr`
unfoldable pub end_from : ℕ → Bytes → ℕ → ℕ
unfolding has_data next_of
end_from zero m xe = xe
end_from (suc fuel) m xe =
    let rest = end_from fuel m (next_of m xe) in if ltb xe 4096 && has_data m xe then rest else xe

unfoldable pub first_free : Bytes → ℕ
unfolding end_from
first_free m = end_from 4097 m 0

-- the two assignments at the end of `_append_xattr`, to a byte and to two
unfoldable pub set_header : Bytes → ℕ → ℕ → ℕ → Bytes
set_header m xe len size =
    update (update (update m (xe + 2) (len % 256)) xe (size % 256)) (xe + 1) (size / 256 % 256)

unfoldable pub append_xattr : Bytes → List ℕ → List ℕ → Res Bytes
unfolding nbytes_left put_bytes set_header
append_xattr m name value =
    let xe = first_free m in
    if ltb (nbytes_left xe) (length name + length value)
    then enospc
    else ok (
        set_header (put_bytes (put_bytes m (xe + 3) name) (xe + 3 + length name) value) xe
          (length name) (length value))

-- the bytes after a removal whose result is not looked at
unfoldable pub after_remove : Bytes → Res Bytes → Res Bytes
after_remove m (ok k) = ok k
after_remove m fault = fault
after_remove m enodata = ok m
after_remove m erange = ok m
after_remove m enospc = ok m
after_remove m eexist = ok m

-- the end of `_do_setxattr`
unfoldable pub append_after : Res Bytes → List ℕ → List ℕ → Res Bytes
unfolding append_xattr
append_after (ok k) name value = append_xattr k name value
append_after fault name value = fault
append_after enodata name value = enodata
append_after erange name value = erange
append_after enospc name value = enospc
append_after eexist name value = eexist

unfoldable pub is_some : Option ℕ → Bool
is_some none = false
is_some (some a) = true

-- `create` and `replace` are the flags XATTR_CREATE and XATTR_REPLACE.
unfoldable pub do_setxattr : Bytes → List ℕ → List ℕ → Bool → Bool → Res Bytes
unfolding after_remove append_after is_some
do_setxattr m name value create replace =
    if create && is_some (find_xe m name)
    then eexist
    else if replace && not (is_some (find_xe m name))
    then enodata
    else append_after (after_remove m (do_removexattr m name)) name value

-- The loop of `_do_listxattr`: the names, each with a byte 0, and the bytes they take. `size` is what
-- is left of the buffer, 0 from the start if only the number of bytes is asked for.
unfoldable pub list_from : ℕ → Bytes → ℕ → ℕ → List ℕ → ℕ → Res (List ℕ × ℕ)
unfolding has_data name_len get_bytes next_of
list_from zero m xe size out ret = ok (out, ret)
list_from (suc fuel) m xe size out ret =
    let n = name_len m xe in
    let counted = list_from fuel m (next_of m xe) size out (ret + n + 1) in
    let copied =
      list_from fuel m (next_of m xe) (size - (n + 1)) (out ++ get_bytes m (xe + 3) n ++ 0 ∷ [])
        (ret + n + 1) in
    if ltb xe 4096 && has_data m xe
    then if size == 0 then counted else if leb size n then erange else copied
    else ok (out, ret)

unfoldable pub do_listxattr : Bytes → ℕ → Res (List ℕ × ℕ)
do_listxattr m size = list_from 4097 m 0 size [] 0

-- The part of an inode that attributes use; 0 is no page.
pub record XattrInode : Type 0 where
  pub i_xattr : ℕ

-- The bytes from the start of the page `bn` on, and the pages with such bytes.
unfoldable pub page_bytes : Sbi → ℕ → Bytes
page_bytes s bn i = s.mem (bn + i / 4096) (i % 4096)

unfoldable pub with_bytes : Sbi → ℕ → Bytes → Sbi
with_bytes s bn m = record s {
  mem = λ q o. if leb bn q then m ((q - bn) * 4096 + o) else s.mem q o;
}

-- whether it returned 0
unfoldable pub require_xattr : Sbi → XattrInode → Bool × Sbi × XattrInode
require_xattr s ti =
    if ti.i_xattr == 0
    then (let (r, t) = acquire_pmemb s in
        elim r [ none ↦ (false, t, ti) | some bn ↦ (true, t, record { i_xattr = bn }) ])
    else (true, s, ti)

unfoldable pub getxattr : Sbi → XattrInode → List ℕ → ℕ → Res (List ℕ)
unfolding page_bytes
getxattr s ti name size =
    if ti.i_xattr == 0 then enodata else do_getxattr (page_bytes s ti.i_xattr) name size

-- the page's bytes after a call that changed them or failed
unfoldable pub stored : Sbi → XattrInode → Res Bytes → Res (Unit {0}) × Sbi × XattrInode
unfolding with_bytes
stored s ti (ok m) = (ok tt, with_bytes s ti.i_xattr m, ti)
stored s ti enodata = (enodata, s, ti)
stored s ti erange = (erange, s, ti)
stored s ti enospc = (enospc, s, ti)
stored s ti eexist = (eexist, s, ti)
stored s ti fault = (fault, s, ti)

-- `value` is `none` where the call has no buffer and not the flag ZUFS_XATTR_SET_EMPTY.
unfoldable pub setxattr :
    Sbi → XattrInode → List ℕ → Option (List ℕ) → Bool → Bool → Res (Unit {0}) × Sbi × XattrInode
unfolding require_xattr page_bytes stored
setxattr s ti name value create replace =
    let (r, t, tj) = require_xattr s ti in
    if not r then (enospc, t, tj) else elim value [
      | none ↦ stored t tj (do_removexattr (page_bytes t tj.i_xattr) name)
      | some v ↦ stored t tj (do_setxattr (page_bytes t tj.i_xattr) name v create replace)
    ]

unfoldable pub listxattr : Sbi → XattrInode → ℕ → Res (List ℕ × ℕ)
unfolding page_bytes
listxattr s ti size =
    if ti.i_xattr == 0 then enodata else do_listxattr (page_bytes s ti.i_xattr) size

unfoldable pub drop_xattr : Sbi → XattrInode → Sbi × XattrInode
drop_xattr s ti =
    if ti.i_xattr == 0 then (s, ti) else (release_pmemb s ti.i_xattr, record { i_xattr = 0 })
