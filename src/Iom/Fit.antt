-- ===== src/Iom/Fit.antt =====
-- What fits in a map of iom_enc.h: runs of its encoders.
use zufs_zus.Common.{
  ℕ, ◌+◌, ◌-◌, ◌*◌, ◌≤◌, ◌<◌, ◌≡◌, refl, sym, subst, ap, ◌∙◌, ◌⊎◌, inl, inr, Option, none, some,
  List, [], ◌∷◌, ltb, if◌then◌else◌, arith, Bool-cases,
}
use zufs_zus.Toyfs.Errno.{Errno, enospc}
use zufs_zus.Iom.{
  Entry, wbinv, discard, unmap, t2_write, t2_read, t2_zusmem_write, t2_zusmem_read, t1_bn, Sizes,
  IomapBuild, iom_len, iom_start, iom_end, put_entry, enc_wbinv, enc_discard, enc_unmap,
  enc_t2_write, enc_t2_read, enc_t2_zusmem_write, enc_t2_zusmem_read, enc_t1_bn,
}

unfoldable pub words_of : Sizes → Entry → ℕ
words_of z wbinv = 1
words_of z (discard t2_bn num_pages) = z.io_len_words
words_of z (unmap index n ino) = z.unmap_words
words_of z (t2_write t2_bn t1_val) = z.t2_io_words
words_of z (t2_read t2_bn t1_val) = z.t2_io_words
words_of z (t2_zusmem_write t2_bn ptr len) = z.zusmem_words
words_of z (t2_zusmem_read t2_bn ptr len) = z.zusmem_words
words_of z (t1_bn bn pool) = 1

unfoldable pub total_words : Sizes → List Entry → ℕ
total_words z [] = 0
total_words z (e ∷ l) = words_of z e + total_words z l

-- The encoder for an entry; a caller encodes a block only while there is more room.
unfoldable pub encode : Sizes → IomapBuild → Entry → Option Errno × IomapBuild
unfolding enc_wbinv enc_discard enc_unmap enc_t2_write enc_t2_read enc_t2_zusmem_write
    enc_t2_zusmem_read enc_t1_bn
encode z b wbinv = enc_wbinv b
encode z b (discard t2_bn num_pages) = enc_discard z b t2_bn num_pages
encode z b (unmap index n ino) = enc_unmap z b index n ino
encode z b (t2_write t2_bn t1_val) = enc_t2_write z b t2_bn t1_val
encode z b (t2_read t2_bn t1_val) = enc_t2_read z b t2_bn t1_val
encode z b (t2_zusmem_write t2_bn ptr len) = enc_t2_zusmem_write z b t2_bn ptr len
encode z b (t2_zusmem_read t2_bn ptr len) = enc_t2_zusmem_read z b t2_bn ptr len
encode z b (t1_bn bn pool) =
    if ltb b.cur_iom_e b.end_iom_e then (none, (enc_t1_bn b bn pool).1) else (some enospc, b)

-- One entry after the other, until one is refused.
unfoldable pub encode_all : Sizes → IomapBuild → List Entry → Option Errno × IomapBuild
unfolding encode
encode_all z b [] = (none, b)
encode_all z b (e ∷ l) =
    let (r, t) = encode z b e in
    let rest = encode_all z t l in elim r [ none ↦ rest | some err ↦ (some err, t) ]

-- The entries, the last one first, lie one after the other from `lo` to `hi`.
abbrev pub Tiles : Sizes → List (ℕ × Entry) → ℕ → ℕ → Type 0
Tiles z [] lo hi = lo ≡ hi
Tiles z ((a, e) ∷ l) lo hi = (a + 8 * words_of z e ≡ hi) × Tiles z l lo a

-- The entry `e` put at the place of `b`.
record IsPut (b t : IomapBuild) (words : ℕ) (e : Entry) : Type 0 where
  pub cur_put : t.cur_iom_e ≡ b.cur_iom_e + 8 * words
  pub entries_put : t.entries ≡ (b.cur_iom_e, e) ∷ b.entries
  pub start_same : t.iom_e ≡ b.iom_e
  pub end_same : t.end_iom_e ≡ b.end_iom_e

abbrev Puts : IomapBuild → ℕ → ℕ → Entry → Option Errno × IomapBuild → Type 0
Puts b k words e r =
    ((words ≤ k) × (r.0 ≡ none) × IsPut b r.1 words e) ⊎ ((k < words) × (r ≡ (some enospc, b)))

put_entry-Puts :
    (b : IomapBuild) (words k : ℕ) (e : Entry)
    → b.end_iom_e ≡ b.cur_iom_e + 8 * k
    → Puts b k words e (put_entry b words e)
unfolding put_entry
put_entry-Puts b words k e room = elim (Bool-cases (ltb b.end_iom_e (b.cur_iom_e + 8 * words))) [
  | inl full ↦ inr (ground arith, rw full refl)
  | inr free ↦ rw free (
      inl (
        ground arith,
        refl,
        record { cur_put = refl; entries_put = refl; start_same = refl; end_same = refl },
      ))
]

encode-Puts :
    (z : Sizes) (b : IomapBuild) (e : Entry) (k : ℕ)
    → b.end_iom_e ≡ b.cur_iom_e + 8 * k
    → Puts b k (words_of z e) e (encode z b e)
unfolding encode words_of enc_wbinv enc_discard enc_unmap enc_t2_write enc_t2_read
    enc_t2_zusmem_write enc_t2_zusmem_read enc_t1_bn
encode-Puts z b wbinv k room = put_entry-Puts b 1 k wbinv room
encode-Puts z b (discard x n) k room = put_entry-Puts b z.io_len_words k (discard x n) room
encode-Puts z b (unmap i n ino) k room = put_entry-Puts b z.unmap_words k (unmap i n ino) room
encode-Puts z b (t2_write x v) k room = put_entry-Puts b z.t2_io_words k (t2_write x v) room
encode-Puts z b (t2_read x v) k room = put_entry-Puts b z.t2_io_words k (t2_read x v) room
encode-Puts z b (t2_zusmem_write x p n) k room =
    put_entry-Puts b z.zusmem_words k (t2_zusmem_write x p n) room
encode-Puts z b (t2_zusmem_read x p n) k room =
    put_entry-Puts b z.zusmem_words k (t2_zusmem_read x p n) room
encode-Puts z b (t1_bn bn pool) k room = elim (Bool-cases (ltb b.cur_iom_e b.end_iom_e)) [
  | inr full ↦ inr (ground arith, rw full refl)
  | inl free ↦ rw free (
      inl (
        ground arith,
        refl,
        record { cur_put = refl; entries_put = refl; start_same = refl; end_same = refl },
      ))
]

-- What a run of encoders with room for `k` words has done.
abbrev pub Fits : Sizes → IomapBuild → ℕ → List Entry → Option Errno × IomapBuild → Type 0
Fits z b k es r =
    Tiles z r.1.entries r.1.iom_e r.1.cur_iom_e
    × (r.1.cur_iom_e ≤ r.1.end_iom_e)
    × (r.1.end_iom_e ≡ b.end_iom_e)
    × (((total_words z es ≤ k)
          × (r.0 ≡ none)
          × (r.1.cur_iom_e ≡ b.cur_iom_e + 8 * total_words z es))
        ⊎ ((k < total_words z es) × (r.0 ≡ some enospc)))

encode_all_next :
    (z : Sizes) (b : IomapBuild) (e : Entry) (es : List Entry)
    → (encode z b e).0 ≡ none
    → encode_all z b (e ∷ es) ≡ encode_all z (encode z b e).1 es
unfolding encode_all
encode_all_next z b e es done = rw (done, encode_all) refl

encode_all_stop :
    (z : Sizes) (b : IomapBuild) (e : Entry) (es : List Entry)
    → encode z b e ≡ (some enospc, b)
    → encode_all z b (e ∷ es) ≡ (some enospc, b)
unfolding encode_all
encode_all_stop z b e es refused =
    rw (ap (λ r. r.0) refused, encode_all) (ap (λ r. (some enospc, r.1)) refused)

-- With entries one after the other from the start of the map and room for `k` words.
encode_all_lem :
    (z : Sizes) (b : IomapBuild) (k : ℕ) (es : List Entry)
    → Tiles z b.entries b.iom_e b.cur_iom_e
    → b.end_iom_e ≡ b.cur_iom_e + 8 * k
    → Fits z b k es (encode_all z b es)
unfolding encode_all total_words
encode_all_lem z b k [] tiles room =
    (tiles, omega (arith, room), refl, inl (omega arith, refl, omega arith))
encode_all_lem z b k (e ∷ es) tiles room = elim (encode-Puts z b e k room) [
  | inr (full, refused) ↦
      subst (λ r. Fits z b k (e ∷ es) r) (sym (encode_all_stop z b e es refused))
        (tiles, omega (arith, room), refl, inr (omega (arith, full), refl))
  | inl (fits, done, put) ↦
      let t = (encode z b e).1 in
      let placed : Tiles z t.entries t.iom_e t.cur_iom_e =
        subst (λ l. Tiles z l t.iom_e t.cur_iom_e) (sym put.entries_put)
          (
            sym put.cur_put,
            subst (λ x. Tiles z b.entries x b.cur_iom_e) (sym put.start_same) tiles,
          ) in
      let left : t.end_iom_e ≡ t.cur_iom_e + 8 * (k - words_of z e) =
        omega (arith, room, put.cur_put, put.end_same, fits) in
      let (tiles', within, end, how) = encode_all_lem z t (k - words_of z e) es placed left in
      subst (λ r. Fits z b k (e ∷ es) r) (sym (encode_all_next z b e es done))
        (
          tiles',
          within,
          end ∙ put.end_same,
          elim how [
            | inl (le, ok, cur) ↦ inl (omega (arith, le, fits), ok, omega (arith, cur, put.cur_put))
            | inr (lt, err) ↦ inr (omega (arith, lt, fits), err)
          ],
        )
]

Tiles-words :
    (z : Sizes) (l : List (ℕ × Entry)) (lo hi : ℕ) → Tiles z l lo hi → (n : ℕ) × (hi ≡ lo + 8 * n)
Tiles-words z [] lo hi h = (0, omega (arith, h))
Tiles-words z ((a, e) ∷ l) lo hi (here, rest) =
    let (n, h) = Tiles-words z l lo a rest in (n + words_of z e, omega (arith, h, here))

iom_end_lem :
    (z : Sizes) (b : IomapBuild)
    → Tiles z b.entries b.iom_e b.cur_iom_e
    → (b.iom_e + 8 * (iom_end b).iom_n ≡ b.cur_iom_e)
      × ((iom_end b).terminator
          ≡ (if ltb b.cur_iom_e b.end_iom_e then some b.cur_iom_e else b.terminator))
unfolding iom_end iom_len
iom_end_lem z b tiles =
    let (n, h) = Tiles-words z b.entries b.iom_e b.cur_iom_e tiles in
    (ground (arith, h), ground arith)

-- In a map whose buffer has room for `k` words, started and filled with entries one after the other
-- until one is refused, blocks only while there is more room, no entry is refused exactly if they
-- take at most `k` words. The entries, whether or not one is refused, lie one after the other from
-- the start of the map and within its end; ending the map sets its length to the words they take and
-- puts a word 0 behind them exactly if there is room.
pub iom_map_lem :
    (z : Sizes) (b : IomapBuild) (iomd k : ℕ) (es : List Entry)
    → b.end_iom_e ≡ b.iom_e + 8 * k
    → let r = encode_all z (iom_start b iomd) es in
      Fits z (iom_start b iomd) k es r
      × (r.1.iom_e + 8 * (iom_end r.1).iom_n ≡ r.1.cur_iom_e)
      × ((iom_end r.1).terminator
          ≡ (if ltb r.1.cur_iom_e r.1.end_iom_e then some r.1.cur_iom_e else r.1.terminator))
unfolding iom_start
iom_map_lem z b iomd k es room =
    let fits = encode_all_lem z (iom_start b iomd) k es refl room in
    let r = encode_all z (iom_start b iomd) es in
    let (len, null) = iom_end_lem z r.1 fits.0 in (fits, len, null)
