-- ===== src/Iom.antt =====
-- The I/O map encoder, iom_enc.h: entries put one after another between the start of the map and the
-- end of its buffer. Addresses are in bytes. The entries' structures and the encoding of a type and a
-- value are of a header outside the repository: the first have their sizes as parameters, in words
-- of 64 bits, and an entry is kept as what is encoded.
pub mod Fit
mod Tests
use zufs_zus.Common.{
  ℕ, suc, ◌+◌, ◌-◌, ◌*◌, ◌/◌, Bool, true, false, not, Option, none, some, List, [], ◌∷◌, ltb, ◌==◌,
  if◌then◌else◌,
}
use zufs_zus.Toyfs.Errno.{Errno, enospc}

-- what an entry of the map says
pub data Entry : Type 0 where
  wbinv : Entry
  discard : (t2_bn num_pages : ℕ) → Entry
  unmap : (index n ino : ℕ) → Entry
  t2_write : (t2_bn t1_val : ℕ) → Entry
  t2_read : (t2_bn t1_val : ℕ) → Entry
  t2_zusmem_write : (t2_bn ptr len : ℕ) → Entry
  t2_zusmem_read : (t2_bn ptr len : ℕ) → Entry
  t1_bn : (bn pool : ℕ) → Entry

-- The sizes of `struct zufs_iom_t2_io_len`, `zufs_iom_unmap`, `zufs_iom_t2_io` and
-- `zufs_iom_t2_zusmem_io`.
pub record Sizes : Type 0 where
  pub io_len_words : ℕ
  pub unmap_words : ℕ
  pub t2_io_words : ℕ
  pub zusmem_words : ℕ

-- `struct zus_iomap_build` with the map it points to: `iom_e` is the address of the first entry,
-- `entries` are the entries written, the last one first, each with its address, and `terminator` is
-- where the map was last ended by a word 0.
pub record IomapBuild : Type 0 where
  pub sbi : ℕ
  pub fd : ℕ
  pub submits : Bool
  pub iomd : ℕ
  pub iom_e : ℕ
  pub cur_iom_e : ℕ
  pub end_iom_e : ℕ
  pub iom_n : ℕ
  pub iom_max : ℕ
  pub entries : List (ℕ × Entry)
  pub terminator : Option ℕ

unfoldable pub iom_len : IomapBuild → ℕ
iom_len b = (b.cur_iom_e - b.iom_e) / 8

unfoldable pub iom_empty : IomapBuild → Bool
unfolding iom_len
iom_empty b = iom_len b == 0

-- `iom_e` is where the map at the end of the call's structure starts.
unfoldable pub common_init : (sbi iom_e end_ptr : ℕ) → IomapBuild
common_init sbi iom_e end_ptr = record {
  sbi = sbi;
  fd = 0;
  submits = false;
  iomd = 0;
  iom_e = iom_e;
  cur_iom_e = 0;
  end_iom_e = end_ptr;
  iom_n = 0;
  iom_max = (end_ptr - iom_e) / 8;
  entries = [];
  terminator = none;
}

unfoldable pub init_4_ioc_exec : (sbi fd ioc_exec iom_e max_bytes : ℕ) → IomapBuild
unfolding common_init
init_4_ioc_exec sbi fd ioc_exec iom_e max_bytes =
    record (common_init sbi iom_e (ioc_exec + max_bytes)) { fd = fd; submits = true }

unfoldable pub init_4_ioc_io : (sbi ioc_io iom_e max_bytes : ℕ) → IomapBuild
unfolding common_init
init_4_ioc_io sbi ioc_io iom_e max_bytes = common_init sbi iom_e (ioc_io + max_bytes)

unfoldable pub iom_start : IomapBuild → ℕ → IomapBuild
iom_start b iomd = record b {
  cur_iom_e = b.iom_e;
  iom_n = 0;
  iomd = iomd;
  entries = [];
  terminator = some b.iom_e;
}

unfoldable pub iom_end : IomapBuild → IomapBuild
unfolding iom_len
iom_end b =
    let t = if ltb b.cur_iom_e b.end_iom_e then record b { terminator = some b.cur_iom_e } else b in
    record t { iom_n = iom_len b }

-- What the encoders share: the test for room, the entry and the step past it.
unfoldable pub put_entry : IomapBuild → ℕ → Entry → Option Errno × IomapBuild
put_entry b words e =
    let next = b.cur_iom_e + 8 * words in
    if ltb b.end_iom_e next
    then (some enospc, b)
    else (none, record b { cur_iom_e = next; entries = (b.cur_iom_e, e) ∷ b.entries })

unfoldable pub enc_wbinv : IomapBuild → Option Errno × IomapBuild
unfolding put_entry
enc_wbinv b = put_entry b 1 wbinv

module _ (z : Sizes) where
  unfoldable pub enc_discard : IomapBuild → (t2_bn num_pages : ℕ) → Option Errno × IomapBuild
  unfolding put_entry
  enc_discard b t2_bn num_pages = put_entry b z.io_len_words (discard t2_bn num_pages)

  unfoldable pub enc_unmap : IomapBuild → (index n ino : ℕ) → Option Errno × IomapBuild
  unfolding put_entry
  enc_unmap b index n ino = put_entry b z.unmap_words (unmap index n ino)

  -- with `_zus_iom_enc_t2_io`
  unfoldable pub enc_t2_write : IomapBuild → (t2_bn t1_val : ℕ) → Option Errno × IomapBuild
  unfolding put_entry
  enc_t2_write b t2_bn t1_val = put_entry b z.t2_io_words (t2_write t2_bn t1_val)

  unfoldable pub enc_t2_read : IomapBuild → (t2_bn t1_val : ℕ) → Option Errno × IomapBuild
  unfolding put_entry
  enc_t2_read b t2_bn t1_val = put_entry b z.t2_io_words (t2_read t2_bn t1_val)

  -- with `_zus_iom_enc_t2_zusmem_io`
  unfoldable pub enc_t2_zusmem_write : IomapBuild → (t2_bn ptr len : ℕ) → Option Errno × IomapBuild
  unfolding put_entry
  enc_t2_zusmem_write b t2_bn ptr len = put_entry b z.zusmem_words (t2_zusmem_write t2_bn ptr len)

  unfoldable pub enc_t2_zusmem_read : IomapBuild → (t2_bn ptr len : ℕ) → Option Errno × IomapBuild
  unfolding put_entry
  enc_t2_zusmem_read b t2_bn ptr len = put_entry b z.zusmem_words (t2_zusmem_read t2_bn ptr len)

-- `_ziom_enc_t1_bn` does not test for room: it returns whether there is more after the entry.
unfoldable pub enc_t1_bn : IomapBuild → (bn pool : ℕ) → Bool × IomapBuild
enc_t1_bn b bn pool =
    let t : IomapBuild = record b {
      cur_iom_e = b.cur_iom_e + 8;
      entries = (b.cur_iom_e, t1_bn bn pool) ∷ b.entries;
      iom_n = b.iom_n + 1;
    } in
    (ltb t.cur_iom_e t.end_iom_e, t)
