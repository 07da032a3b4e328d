-- ===== src/Toyfs/Xattr/Pair.antt =====
-- Two extended attributes of fs/toyfs/xattr.c. `_next_of` leaves out the three bytes of the entry's
-- header, so an entry starts inside the bytes of the one before it.
use zufs_zus.Common.{
  subst, ℕ, zero, suc, ◌+◌, ◌≤◌, ◌<◌, ◌≡◌, ◌≢◌, refl, ◌∙◌, sym, inl, inr, true, false, none, List,
  [], ◌∷◌, ◌++◌, ltb, ◌==◌, if◌then◌else◌, update, length, length-append, arith, Bool-cases,
}
use zufs_zus.Toyfs.Xattr.{
  ok, erange, name_len, value_size, has_data, has_name, next_of, find_xe, do_getxattr, first_free,
  do_setxattr,
}
use zufs_zus.Toyfs.Xattr.Memory.{
  Bytes, put_bytes, get_bytes, has_bytes, has_bytes-agree, get_bytes-put_bytes,
}
use zufs_zus.Toyfs.Xattr.Single.{
  entry, entry-name_len, entry-value_size, entry-has_bytes, entry-get_bytes, entry-before,
  entry-has, find-end, find-next, end-here, end-next, set-new, get-some, find-first,
}

-- Two names of the same length in one place are one name.
has_bytes_unique :
    (m : Bytes) (x : ℕ) (a b : List ℕ)
    → length a ≡ length b
    → has_bytes m x a ≡ true
    → has_bytes m x b ≡ true
    → a ≡ b
unfolding has_bytes
has_bytes_unique m x [] [] e h k = refl
has_bytes_unique m x [] (b ∷ l) e h k = absurd (omega arith)
has_bytes_unique m x (a ∷ l) [] e h k = absurd (omega arith)
has_bytes_unique m x (a ∷ l) (b ∷ r) e h k = ground (arith, has_bytes_unique m (x + 1) l r)

list_parts : {a b : ℕ} {l r : List ℕ} → a ∷ l ≡ b ∷ r → (a ≡ b) × (l ≡ r)
list_parts e = (cc, cc)

get_bytes-at :
    (m k : Bytes) (x n j : ℕ) → get_bytes m x n ≡ get_bytes k x n → x ≤ j → j < x + n → m j ≡ k j
unfolding get_bytes
get_bytes-at m k x zero j e lo hi = absurd (omega arith)
get_bytes-at m k x (suc n) j e lo hi =
    let (first, rest) = list_parts e in
    elim (Bool-cases (j == x)) [
      | inl here ↦ let q : j ≡ x = ground arith in rw q first
      | inr there ↦ get_bytes-at m k (x + 1) n j rest (ground arith) (omega arith)
    ]

put_bytes-last : (m : Bytes) (x b : ℕ) (u : List ℕ) → put_bytes m x (u ++ b ∷ []) (x + length u) ≡ b
unfolding put_bytes
put_bytes-last m x b [] = ground arith
put_bytes-last m x b (a ∷ u) =
    let e : x + suc (length u) ≡ x + 1 + length u = omega arith in
    rw e (put_bytes-last (update m x a) (x + 1) b u)

-- The last byte of an entry's value is where its data ends.
entry-last :
    (m : Bytes) (xe : ℕ) (name u : List ℕ) (b : ℕ)
    → length name < 256
    → length u < 65535
    → entry m xe name (u ++ b ∷ []) (xe + 3 + length name + length u) ≡ b
entry-last m xe name u b short small =
    let n = length-append u (b ∷ []) in
    let p = xe + 3 + length name in
    get_bytes-at (entry m xe name (u ++ b ∷ [])) (put_bytes m p (u ++ b ∷ [])) p
      (length (u ++ b ∷ [])) (p + length u)
      (entry-get_bytes m xe name (u ++ b ∷ []) short (omega (arith, n))
        ∙ sym (get_bytes-put_bytes m p (u ++ b ∷ [])))
      (omega arith) (omega (arith, n))
    ∙ put_bytes-last m p b u

-- An attribute of a name that is not set yet and has fewer than 256 bytes, whose name and value just
-- fit by the test and whose value is not empty, is accepted and ends three bytes past its page.
pub do_setxattr-past_page :
    (m : Bytes) (name u : List ℕ) (b : ℕ)
    → find_xe m name ≡ none
    → first_free m ≤ 4096
    → length name < 256
    → first_free m + length name + length (u ++ b ∷ []) ≡ 4096
    → (k : Bytes) × (do_setxattr m name (u ++ b ∷ []) false false ≡ ok k) × (k 4098 ≡ b)
do_setxattr-past_page m name u b f le short full =
    let n = length-append u (b ∷ []) in
    let xe = first_free m in
    let e : xe + 3 + length name + length u ≡ 4098 = omega (arith, n) in
    (
      entry m xe name (u ++ b ∷ []),
      set-new m xe name (u ++ b ∷ []) false f refl le (omega arith),
      subst (λ z. entry m xe name (u ++ b ∷ []) z ≡ b) e
          (entry-last m xe name u b short (omega (arith, n))),
    )

enough :
    (m : Bytes) (name : List ℕ) (size len bytes : ℕ)
    → name_len m 0 ≡ len
    → value_size m 0 ≡ bytes
    → bytes ≤ size
    → (if ltb size (value_size m 0)
        then erange
        else ok (get_bytes m (0 + 3 + name_len m 0) (value_size m 0)))
      ≡ ok (get_bytes m (0 + 3 + len) bytes)
enough m name size len bytes e f h = rw (e, f) (ground arith)

-- The first attribute, `name` with the value `u` and a last byte 0, on a page with none.
module _ (m : Bytes) (name u : List ℕ) (lo : 0 < length name) (short : length name < 256)
    (long : 2 ≤ length u) (room : length name + length u < 4096) where
  abbrev pub value : List ℕ
  value = u ++ 0 ∷ []

  abbrev pub one : Bytes
  one = entry m 0 name value

  abbrev second : ℕ
  second = length name + length value

  lengths : length value ≡ length u + 1
  lengths = length-append u (0 ∷ [])

  next-one : next_of one 0 ≡ second
  unfolding next_of
  next-one =
      rw
        (
          entry-name_len m 0 name value short (omega (arith, lengths)),
          entry-value_size m 0 name value short (omega (arith, lengths)),
        )
        (omega arith)

  start : ℕ
  start = 0 + 3 + length name

  last_place : second + 2 ≡ start + length u
  unfolding start
  last_place = omega (arith, lengths)

  last-one : one (second + 2) ≡ 0
  unfolding start
  last-one = rw last_place (entry-last m 0 name u 0 short (omega arith))

  one-has : (has_data one 0 ≡ true) × (has_name one 0 name ≡ true)
  one-has = entry-has m 0 name value lo short (omega (arith, lengths))

  nothing_second : has_data one second ≡ false
  unfolding has_data
  nothing_second = ground (arith, last-one)

  -- Another name, `other`, is not found, and goes to where the data of the first is not over.
  module _ (other data2 : List ℕ) (differ : name ≢ other) (some_name : 0 < length other)
      (brief : length other < 256) (fits : second + length other + length data2 ≤ 4096) where
    no-other : has_name one 0 other ≡ false
    unfolding has_name
    no-other = elim (Bool-cases (has_bytes one (0 + 3) other)) [
      | inr h ↦ ground arith
      | inl h ↦ elim (Bool-cases (length name == length other)) [
        | inr e ↦ ground (arith, entry-name_len m 0 name value short (omega (arith, lengths)))
        | inl e ↦
            let held = entry-has_bytes m 0 name value short (omega (arith, lengths)) in
            absurd (differ (has_bytes_unique one (0 + 3) name other (ground arith) held h))
      ]
    ]

    find-other : find_xe one other ≡ none
    unfolding find_xe
    find-other =
        find-next 4096 one 0 other (omega arith) one-has.0 no-other
        ∙ find-end 4096 one (next_of one 0) other (rw next-one nothing_second)

    end-one : first_free one ≡ second
    unfolding first_free
    end-one =
        end-next 4096 one 0 (omega arith) one-has.0
        ∙ end-here 4096 one (next_of one 0) (rw next-one nothing_second)
        ∙ next-one

    abbrev two : Bytes
    two = entry one second other data2

    two-set : do_setxattr one other data2 false false ≡ ok two
    two-set = set-new one second other data2 false find-other end-one (omega arith) fits

    same_before : (i : ℕ) → i < second → two i ≡ one i
    same_before i h = entry-before one second other data2 i h

    two-fields : (name_len two 0 ≡ length name) × (value_size two 0 ≡ length value)
    unfolding name_len value_size
    two-fields = (
      same_before (0 + 2) (omega (arith, lengths))
          ∙ entry-name_len m 0 name value short (omega (arith, lengths)),
      rw (same_before 0 (omega (arith, lengths)), same_before (0 + 1) (omega (arith, lengths)))
          (entry-value_size m 0 name value short (omega (arith, lengths))),
    )

    two-has : (has_data two 0 ≡ true) × (has_name two 0 name ≡ true)
    unfolding has_data has_name
    two-has =
        let held =
          has_bytes-agree two one (0 + 3) name (λ i a b. same_before i (omega (arith, lengths)))
          ∙ entry-has_bytes m 0 name value short (omega (arith, lengths)) in
        (ground (arith, two-fields), ground (arith, two-fields))

    damaged : get_bytes two start (length value) ≢ value
    unfolding start name_len
    damaged h =
        let same =
          get_bytes-at two one start (length value) (second + 2)
            (h ∙ sym (entry-get_bytes m 0 name value short (omega (arith, lengths))))
            (omega (arith, last_place)) (omega (arith, last_place, lengths)) in
        ground (arith, same, last-one, entry-name_len one second other data2 brief (omega arith))

    -- The first attribute of a clear page has a value that ends with a byte 0. A second one of
    -- another name, which fits, takes the last three bytes of that value for its header: the first
    -- one is then got back as a value that is not the one that was set.
    pub do_setxattr-overwrites :
        (k : Bytes) × (do_setxattr one other data2 false false ≡ ok k)
        × ((size : ℕ)
            → length value ≤ size
            → (w : List ℕ) × (do_getxattr k name size ≡ ok w) × (w ≢ value))
    unfolding start
    do_setxattr-overwrites = (
      two,
      two-set,
      λ size h. (
        get_bytes two start (length value),
        get-some two 0 name size (find-first two name two-has.0 two-has.1)
            ∙ enough two name size (length name) (length value) two-fields.0 two-fields.1 h,
        damaged,
      ),
    )
