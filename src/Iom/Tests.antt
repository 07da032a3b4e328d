-- ===== src/Iom/Tests.antt =====
-- A map with room for six words.
use zufs_zus.Common.{◌+◌, ◌*◌, ◌≡◌, refl, some, List, [], ◌∷◌, ltb, if◌then◌else◌}
use zufs_zus.Iom.{
  Entry, wbinv, unmap, t1_bn, Sizes, IomapBuild, common_init, init_4_ioc_io, iom_start, iom_end,
}
use zufs_zus.Iom.Fit.{encode_all, Fits, iom_map_lem}

abbrev sizes : Sizes
sizes = record { io_len_words = 2; unmap_words = 3; t2_io_words = 2; zusmem_words = 3 }

abbrev io : IomapBuild
io = init_4_ioc_io 1 1000 1016 64

abbrev five_words : List Entry
five_words = t1_bn 5 0 ∷ unmap 1 2 3 ∷ wbinv ∷ []

six_words_left : io.end_iom_e ≡ io.iom_e + 8 * 6
unfolding init_4_ioc_io common_init
six_words_left = refl

iom_map_lem_example :
    let r = encode_all sizes (iom_start io 9) five_words in
    Fits sizes (iom_start io 9) 6 five_words r
    × (r.1.iom_e + 8 * (iom_end r.1).iom_n ≡ r.1.cur_iom_e)
    × ((iom_end r.1).terminator
        ≡ (if ltb r.1.cur_iom_e r.1.end_iom_e then some r.1.cur_iom_e else r.1.terminator))
iom_map_lem_example = iom_map_lem sizes io 9 6 five_words six_words_left
