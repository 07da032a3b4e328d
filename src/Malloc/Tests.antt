-- ===== src/Malloc/Tests.antt =====
-- The allocators of slab.c and pa.c run on small inputs.
use zufs_zus.Common.{
  ℕ, ◌+◌, ◌*◌, ◌%◌, ◌^◌, ◌≤◌, ◌<◌, ◌≡◌, refl, true, false, some, [], ◌∷◌, arith, numbers,
}
use zufs_zus.Pa.{pa_alloc}
use zufs_zus.Slab.{Gsa, slab_list_index, elem_bytes, slab_alloc, slab_size_valid}
use zufs_zus.Slab.Index.{slab_list_index_lem}
use zufs_zus.Slab.Inv.{IsGsa}
use zufs_zus.Malloc.{pool, Host, zus_malloc, zus_free, zus_slab_init}
use zufs_zus.Malloc.Blocks.{Block}
use zufs_zus.Malloc.Serve.{Malloced, NewBlock, Released, zus_malloc_lem, zus_free_lem}
use zufs_zus.Malloc.History.{
  State, Reach, malloc, start, later, start-IsGsa, held_after, Reach-blocks_apart,
}
use zufs_zus.Malloc.Copy.{Memory, Libc, zus_calloc}
use zufs_zus.Malloc.Copy.Laws.{zus_calloc_short}

abbrev env : Host
env = record {
  trylock = λ s. true;
  malloc = λ n. some 65536;
  memalign = λ n. some 65536;
  mlock_fails = λ bn n. false;
}

abbrev four_cpus : Gsa
four_cpus = zus_slab_init 4 1073741824

no_blocks : IsGsa four_cpus []
no_blocks = start-IsGsa 4 1073741824

first : (zus_malloc env four_cpus 1 100).0 ≡ some (pool 0)
unfolding zus_malloc zus_slab_init slab_alloc pa_alloc numbers
first = refl

zus_malloc_lem_example :
    Malloced env four_cpus [] 100
      (zus_malloc env four_cpus 1 100).0
      (zus_malloc env four_cpus 1 100).1
unfolding zus_slab_init
zus_malloc_lem_example = zus_malloc_lem env (start-IsGsa 4 1073741824) 1 100 (omega arith)

abbrev one_block : Gsa
one_block = (zus_malloc env four_cpus 1 100).1

one_nslabs : one_block.nslabs ≡ 4
unfolding zus_slab_init
one_nslabs = zus_malloc_lem_example.nslabs

known : 1 < four_cpus.nslabs
unfolding zus_slab_init
known = omega arith

first_wrapped : (zus_malloc env four_cpus 1 (1152921504606846977 * 16 % 2 ^ 64)).0 ≡ some (pool 0)
unfolding zus_malloc zus_slab_init slab_alloc pa_alloc numbers
first_wrapped = refl

new : NewBlock four_cpus [] 100 0 one_block
new = zus_malloc_lem_example.served 0 first

zus_free_lem_example : Released one_block (0 ∷ []) 0 (zus_free one_block (pool 0))
zus_free_lem_example = zus_free_lem 0 new.valid new.block

slab_list_index_lem_example :
    (slab_list_index 100 < 8)
    × (100 ≤ elem_bytes (slab_list_index 100))
    × (32 < 100 → elem_bytes (slab_list_index 100) < 2 * 100)
slab_list_index_lem_example = slab_list_index_lem 100 (omega arith) (omega arith)

abbrev begun : State
begun = record { gsa = four_cpus; live = [] }

abbrev then_malloc : State → ℕ → ℕ → State
then_malloc s cpu size = record {
  gsa = (zus_malloc env s.gsa cpu size).1;
  live = held_after (zus_malloc env s.gsa cpu size).0 s.live;
}

abbrev two_blocks : State
two_blocks = then_malloc (then_malloc begun 1 100) 1 100

two_held : two_blocks.live ≡ 128 ∷ 0 ∷ []
unfolding zus_malloc zus_slab_init slab_alloc pa_alloc numbers held_after
two_held = refl

reached : Reach 4 1073741824 two_blocks
unfolding zus_slab_init
reached =
    later (later start (malloc env 1 100 (omega arith)))
      (malloc env 1 100 (omega (arith, one_nslabs)))

Reach-blocks_apart_example :
    (m : ℕ) × (n : ℕ) × Block two_blocks.gsa two_blocks.live 0 m
    × Block two_blocks.gsa two_blocks.live 128 n
    × (0 + m ≤ 128)
    × (128 + n ≤ two_blocks.gsa.pa.size * 4096)
Reach-blocks_apart_example =
    Reach-blocks_apart reached 0 128 (rw two_held (omega arith)) (rw two_held (omega arith))
      (omega arith)

abbrev memory : Memory
memory = record { pooled = λ x. x % 256; hosted = λ x. 7 }

abbrev libc : Libc
libc = record { calloc = λ n e m. (some 65536, m); realloc = λ a n m. (some 65536, m) }

zus_calloc_short_example :
    ((zus_calloc env libc four_cpus memory 1 1152921504606846977 16).0 ≡ some (pool 0))
    × ((n : ℕ) × Block
          (zus_calloc env libc four_cpus memory 1 1152921504606846977 16).1
          (0 ∷ [])
          0
          n
        × (n < 1152921504606846977 * 16))
unfolding slab_size_valid
zus_calloc_short_example =
    zus_calloc_short env libc memory 1 1152921504606846977 16 no_blocks known refl 0 (omega arith)
      first_wrapped
