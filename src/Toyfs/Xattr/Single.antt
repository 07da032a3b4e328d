-- ===== src/Toyfs/Xattr/Single.antt =====
-- One extended attribute of fs/toyfs/xattr.c: set on a page with none, and got back.
use zufs_zus.Common.{
  ℕ, zero, suc, ◌+◌, ◌-◌, ◌%◌, ◌≤◌, ◌<◌, ◌≡◌, refl, ap, ◌∙◌, ◌⊎◌, inl, inr, Bool, true, false, none,
  some, List, ltb, if◌then◌else◌, length, arith,
}
use zufs_zus.Toyfs.Xattr.{
  ok, enodata, erange, name_len, value_size, has_data, has_name, next_of, find_from, find_xe,
  do_getxattr, nbytes_left, do_removexattr, end_from, first_free, set_header, append_xattr,
  do_setxattr,
}
use zufs_zus.Toyfs.Xattr.Memory.{
  Bytes, put_bytes, get_bytes, has_bytes, put_bytes-outside, get_bytes-agree, has_bytes-agree,
  get_bytes-put_bytes, has_bytes-put_bytes,
}

-- The page after an entry has been put at `xe`.
pub entry : Bytes → ℕ → List ℕ → List ℕ → Bytes
entry m xe name value =
    set_header (put_bytes (put_bytes m (xe + 3) name) (xe + 3 + length name) value) xe (length name)
      (length value)

module _ (m : Bytes) (xe : ℕ) (name value : List ℕ) where
  header-outside :
      (k : Bytes) (len size i : ℕ) → (i < xe) ⊎ (xe + 3 ≤ i) → set_header k xe len size i ≡ k i
  unfolding set_header
  header-outside k len size i (inl h) = ground arith
  header-outside k len size i (inr h) = ground arith

  header-fields :
      (k : Bytes) (len size : ℕ)
      → (name_len (set_header k xe len size) xe ≡ len % 256)
        × (value_size (set_header k xe len size) xe ≡ size % 65536)
  unfolding set_header name_len value_size
  header-fields k len size = (ground arith, ground arith)

  abbrev put : Bytes
  put = entry m xe name value

  module _ (short : length name < 256) (small : length value < 65536) where
    pub entry-name_len : name_len put xe ≡ length name
    unfolding entry
    entry-name_len =
        let (a, b) =
          header-fields (put_bytes (put_bytes m (xe + 3) name) (xe + 3 + length name) value)
            (length name) (length value) in
        a ∙ omega arith

    pub entry-value_size : value_size put xe ≡ length value
    unfolding entry
    entry-value_size =
        let (a, b) =
          header-fields (put_bytes (put_bytes m (xe + 3) name) (xe + 3 + length name) value)
            (length name) (length value) in
        b ∙ omega arith

    pub entry-has_bytes : has_bytes put (xe + 3) name ≡ true
    unfolding entry
    entry-has_bytes =
        has_bytes-agree put (put_bytes m (xe + 3) name) (xe + 3) name (λ i lo hi.
          header-outside (put_bytes (put_bytes m (xe + 3) name) (xe + 3 + length name) value)
            (length name) (length value) i (inr lo)
          ∙ put_bytes-outside (put_bytes m (xe + 3) name) (xe + 3 + length name) i value (inl hi))
        ∙ has_bytes-put_bytes m (xe + 3) name

    pub entry-get_bytes : get_bytes put (xe + 3 + length name) (length value) ≡ value
    unfolding entry
    entry-get_bytes =
        get_bytes-agree put (put_bytes (put_bytes m (xe + 3) name) (xe + 3 + length name) value)
          (xe + 3 + length name) (length value)
          (λ i lo hi.
            header-outside (put_bytes (put_bytes m (xe + 3) name) (xe + 3 + length name) value)
              (length name) (length value) i (inr (omega arith)))
        ∙ get_bytes-put_bytes (put_bytes m (xe + 3) name) (xe + 3 + length name) value

  pub entry-before : (i : ℕ) → i < xe → put i ≡ m i
  unfolding entry
  entry-before i h =
      header-outside (put_bytes (put_bytes m (xe + 3) name) (xe + 3 + length name) value)
        (length name) (length value) i (inl h)
      ∙ put_bytes-outside (put_bytes m (xe + 3) name) (xe + 3 + length name) i value
          (inl (omega arith))
      ∙ put_bytes-outside m (xe + 3) i name (inl (omega arith))

-- The walks stop at an entry without a name, and at one with the name.
pub find-end :
    (fuel : ℕ) (m : Bytes) (xe : ℕ) (name : List ℕ)
    → has_data m xe ≡ false
    → find_from fuel m xe name ≡ none
unfolding find_from
find-end zero m xe name h = refl
find-end (suc fuel) m xe name h = ground arith

pub find-here :
    (fuel : ℕ) (m : Bytes) (xe : ℕ) (name : List ℕ)
    → xe < 4096
    → has_data m xe ≡ true
    → has_name m xe name ≡ true
    → find_from (suc fuel) m xe name ≡ some xe
unfolding find_from
find-here fuel m xe name lt h k = ground arith

pub find-next :
    (fuel : ℕ) (m : Bytes) (xe : ℕ) (name : List ℕ)
    → xe < 4096
    → has_data m xe ≡ true
    → has_name m xe name ≡ false
    → find_from (suc fuel) m xe name ≡ find_from fuel m (next_of m xe) name
unfolding find_from
find-next fuel m xe name lt h k = ground arith

pub end-here : (fuel : ℕ) (m : Bytes) (xe : ℕ) → has_data m xe ≡ false → end_from fuel m xe ≡ xe
unfolding end_from
end-here zero m xe h = refl
end-here (suc fuel) m xe h = ground arith

pub end-next :
    (fuel : ℕ) (m : Bytes) (xe : ℕ)
    → xe < 4096
    → has_data m xe ≡ true
    → end_from (suc fuel) m xe ≡ end_from fuel m (next_of m xe)
unfolding end_from
end-next fuel m xe lt h = ground arith

remove-none : (m : Bytes) (name : List ℕ) → find_xe m name ≡ none → do_removexattr m name ≡ enodata
unfolding do_removexattr
remove-none m name f = rw (f, do_removexattr) refl

set-append :
    (m : Bytes) (name value : List ℕ) (create : Bool)
    → find_xe m name ≡ none
    → do_setxattr m name value create false ≡ append_xattr m name value
unfolding do_setxattr
set-append m name value true f = rw (f, do_setxattr) (rw (remove-none m name f) refl)
set-append m name value false f = rw (remove-none m name f) refl

append-room :
    (m : Bytes) (name value : List ℕ)
    → length name + length value ≤ nbytes_left (first_free m)
    → append_xattr m name value ≡ ok (entry m (first_free m) name value)
unfolding append_xattr entry
append-room m name value room = ground arith

nbytes_left-inside : (xe : ℕ) → xe ≤ 4096 → nbytes_left xe ≡ 4096 - xe
unfolding nbytes_left
nbytes_left-inside xe le = omega arith

-- Setting a name that is not there appends it.
pub set-new :
    (m : Bytes) (xe : ℕ) (name value : List ℕ) (create : Bool)
    → find_xe m name ≡ none
    → first_free m ≡ xe
    → xe ≤ 4096
    → xe + length name + length value ≤ 4096
    → do_setxattr m name value create false ≡ ok (entry m xe name value)
set-new m xe name value create f e le room =
    set-append m name value create f
    ∙ append-room m name value (let left = nbytes_left-inside xe le in rw e (omega (arith, left)))
    ∙ ap (λ x. ok (entry m x name value)) e

set-replace :
    (m : Bytes) (name value : List ℕ)
    → find_xe m name ≡ none
    → do_setxattr m name value false true ≡ enodata
unfolding do_setxattr
set-replace m name value f = rw (f, do_setxattr) refl

-- Getting a name that is there returns its value, or the buffer is too small.
pub get-some :
    (m : Bytes) (xe : ℕ) (name : List ℕ) (size : ℕ)
    → find_xe m name ≡ some xe
    → do_getxattr m name size ≡ (
        if ltb size (value_size m xe)
        then erange
        else ok (get_bytes m (xe + 3 + name_len m xe) (value_size m xe)))
unfolding do_getxattr
get-some m xe name size f = rw (f, do_getxattr) refl

pub find-first :
    (m : Bytes) (name : List ℕ)
    → has_data m 0 ≡ true
    → has_name m 0 name ≡ true
    → find_xe m name ≡ some 0
unfolding find_xe
find-first m name h k = find-here 4096 m 0 name (omega arith) h k

pub entry-has :
    (m : Bytes) (xe : ℕ) (name value : List ℕ)
    → 0 < length name
    → length name < 256
    → length value < 65536
    → (has_data (entry m xe name value) xe ≡ true)
      × (has_name (entry m xe name value) xe name ≡ true)
unfolding has_data has_name
entry-has m xe name value lo short small =
    let len = entry-name_len m xe name value short small in
    let same = entry-has_bytes m xe name value short small in (ground arith, ground arith)

empty_first : (m : Bytes) → m 2 ≡ 0 → has_data m 0 ≡ false
unfolding has_data
empty_first m free = ground arith

find-none : (m : Bytes) (name : List ℕ) → m 2 ≡ 0 → find_xe m name ≡ none
unfolding find_xe
find-none m name free = find-end 4097 m 0 name (empty_first m free)

end-first : (m : Bytes) → m 2 ≡ 0 → first_free m ≡ 0
unfolding first_free
end-first m free = end-here 4097 m 0 (empty_first m free)

got :
    (m : Bytes) (name value : List ℕ) (size : ℕ)
    → length name < 256
    → length value < 65536
    → (if ltb size (value_size (entry m 0 name value) 0)
        then erange
        else ok (
            get_bytes
              (entry m 0 name value)
              (0 + 3 + name_len (entry m 0 name value) 0)
              (value_size (entry m 0 name value) 0)))
      ≡ (if ltb size (length value) then erange else ok value)
got m name value size short small =
    rw (entry-value_size m 0 name value short small, entry-name_len m 0 name value short small)
      (rw (entry-get_bytes m 0 name value short small) refl)

-- Set on a page with no attributes, an attribute is got back as it was set; a buffer that is too
-- small is refused, and so is a call that is to replace it.
pub do_getxattr-do_setxattr :
    (m : Bytes) (name value : List ℕ) (create : Bool)
    → m 2 ≡ 0
    → 0 < length name
    → length name < 256
    → length name + length value ≤ 4096
    → (do_setxattr m name value false true ≡ enodata)
      × ((k : Bytes) × (do_setxattr m name value create false ≡ ok k)
          × ((size : ℕ)
              → do_getxattr k name size ≡ (if ltb size (length value) then erange else ok value)))
do_getxattr-do_setxattr m name value create free lo short room =
    let none_there = find-none m name free in
    let k = entry m 0 name value in
    let (data_there, name_there) = entry-has m 0 name value lo short (omega arith) in
    (
      set-replace m name value none_there,
      (
        k,
        set-new m 0 name value create none_there (end-first m free) (omega arith) (omega arith),
        λ size.
            get-some k 0 name size (find-first k name data_there name_there)
            ∙ got m name value size short (omega arith),
      ),
    )
