-- ===== src/Reada/Hit.antt =====
-- What a hit in a readahead buffer copies, and what `lightfs_readpages` makes of one.
use kevin.Base.{
  ℕ, suc, ◌+◌, ◌-◌, ◌≤◌, ◌<◌, List, [], ◌∷◌, ◌++◌, some, true, false, Outcome, done, ◌==◌, ltb, leb,
  ◌≡◌, refl, ap, sym, ◌∙◌, arith, length, length-append, take, drop, append-nil, append_assoc,
}
use kevin.Key.{memcpy}
use kevin.Bstore.Scan.{Page, LightfsIo, page_to_block_num, lightfs_io_advance_page, write_page}
use kevin.Bstore.Pages.{AreFrom, memcpy_page, get_elem?-append}
use kevin.Bstore.Callbacks.{at_page, write_next}
use kevin.Reada.{
  ReadaEntry, LightfsInode, copy_pages, copy_when_done, lightfs_reada_buffer_get, search,
  search_readahead,
}

-- The pages with the bytes of a buffer from byte `idx` on, from the next byte on, and so forth.
unfoldable pub shifted : ℕ → List ℕ → List Page → List Page
shifted idx buf [] = []
shifted idx buf (p ∷ ps) = record p { bytes = take 4096 (drop idx buf) } ∷ shifted (suc idx) buf ps

copy_step :
    (e : ReadaEntry) (idx rounds : ℕ) (xs : List Page) (p : Page) (ys : List Page) (bytes : List ℕ)
    (out : Outcome LightfsIo)
    → lightfs_io_advance_page
        (write_page (at_page xs (p ∷ ys)) p (memcpy p.bytes 0 (drop idx e.buf) 4096))
      ≡ done (at_page (xs ++ (record p { bytes = bytes } ∷ [])) ys)
    → copy_pages rounds e (suc idx) (at_page (xs ++ (record p { bytes = bytes } ∷ [])) ys) ≡ out
    → copy_pages (suc rounds) e idx (at_page xs (p ∷ ys)) ≡ out
unfolding copy_pages
copy_step e idx rounds xs p ys bytes out wrote later =
    ground (arith, get_elem?-append xs p ys, wrote, later)

copy_pages-shifted :
    (e : ReadaEntry) (idx start : ℕ) (xs ys zs : List Page)
    → AreFrom start ys
    → copy_pages (length ys) e idx (at_page xs (ys ++ zs))
      ≡ done (at_page (xs ++ shifted idx e.buf ys) zs)
unfolding copy_pages shifted AreFrom
copy_pages-shifted e idx start xs [] zs are = ap (λ v. done (at_page v zs)) (sym (append-nil xs))
copy_pages-shifted e idx start xs (p ∷ ys) zs are =
    let q : Page = record p { bytes = take 4096 (drop idx e.buf) } in
    let wrote : lightfs_io_advance_page
          (write_page (at_page xs (p ∷ (ys ++ zs))) p (memcpy p.bytes 0 (drop idx e.buf) 4096))
        ≡ done (at_page (xs ++ (q ∷ [])) (ys ++ zs)) =
      ap (λ b. lightfs_io_advance_page (write_page (at_page xs (p ∷ (ys ++ zs))) p b))
        (memcpy_page p.bytes (drop idx e.buf) are.1)
      ∙ write_next xs p (ys ++ zs) (take 4096 (drop idx e.buf)) in
    let later = copy_pages-shifted e (suc idx) (start + 1) (xs ++ (q ∷ [])) ys zs are.2 in
    copy_step e idx (length ys) xs p (ys ++ zs) q.bytes
      (done (at_page (xs ++ (q ∷ shifted (suc idx) e.buf ys)) zs)) wrote
      (later
        ∙ ap (λ v. done (at_page v zs)) (append_assoc xs (q ∷ []) (shifted (suc idx) e.buf ys)))

module _ (e : ReadaEntry) (inode : LightfsInode) (start nr_pages : ℕ) (p : Page) (ys zs : List Page)
    (has_entry : inode.ra_entry ≡ some e.id) (ready : e.is_done ≡ true) (full : e.is_empty ≡ false)
    (enough : 64 ≤ nr_pages) (are : AreFrom start (p ∷ ys))
    (inside : e.reada_block_start ≤ start + 1) where
  abbrev idx : ℕ
  idx = start + 1 - e.reada_block_start

  abbrev fresh : LightfsIo
  fresh = at_page [] ((p ∷ ys) ++ zs)

  first_block : page_to_block_num p ≡ start + 1
  unfolding AreFrom
  first_block = omega (arith, are.0)

  copied :
      copy_when_done e idx (length (p ∷ ys)) fresh
      ≡ done (at_page (shifted idx e.buf (p ∷ ys)) zs, length (p ∷ ys))
  unfolding copy_when_done
  copied = ground (arith, ready, copy_pages-shifted e idx start [] (p ∷ ys) zs are)

  -- A hit of all the pages, for which there are none left.
  buffer_get_all :
      zs ≡ []
      → start + 1 + nr_pages ≤ e.reada_block_start + e.reada_block_len
      → lightfs_reada_buffer_get e inode fresh nr_pages
        ≡ done (at_page (shifted idx e.buf (p ∷ ys)) zs, length (p ∷ ys))
  unfolding lightfs_reada_buffer_get
  buffer_get_all last reach =
      let b1 : ltb nr_pages 64 ≡ false = ground (arith, enough) in
      let b2 : ltb (page_to_block_num p) e.reada_block_start ≡ false =
        ground (arith, first_block, inside) in
      let b3 : leb (page_to_block_num p + nr_pages) (e.reada_block_start + e.reada_block_len)
          ≡ true =
        ground (arith, first_block, reach) in
      let rounds : length ((p ∷ ys) ++ zs) - 0 ≡ length (p ∷ ys) =
        omega (arith, length-append (p ∷ ys) zs, ap length last) in
      let place : page_to_block_num p - e.reada_block_start ≡ idx = omega (arith, first_block) in
      cc (has_entry, full, b1, b2, b3, rounds, place, copied)

  buffer_get_part :
      start + 1 + length (p ∷ ys) ≡ e.reada_block_start + e.reada_block_len
      → length (p ∷ ys) < nr_pages
      → lightfs_reada_buffer_get e inode fresh nr_pages
        ≡ done (at_page (shifted idx e.buf (p ∷ ys)) zs, length (p ∷ ys))
  unfolding lightfs_reada_buffer_get
  buffer_get_part reach short =
      let b1 : ltb nr_pages 64 ≡ false = ground (arith, enough) in
      let b2 : ltb (page_to_block_num p) e.reada_block_start ≡ false =
        ground (arith, first_block, inside) in
      let b3 : leb (page_to_block_num p + nr_pages) (e.reada_block_start + e.reada_block_len)
          ≡ false =
        ground (arith, first_block, reach, short) in
      let b4 : ltb (page_to_block_num p) (e.reada_block_start + e.reada_block_len) ≡ true =
        ground (arith, first_block, reach) in
      let place : page_to_block_num p - e.reada_block_start ≡ idx = omega (arith, first_block) in
      let rounds : e.reada_block_len - (page_to_block_num p - e.reada_block_start)
          ≡ length (p ∷ ys) =
        omega (arith, first_block, reach, inside) in
      cc (has_entry, full, b1, b2, b3, b4, rounds, place, copied)

-- A readahead buffer that is done and holds the blocks of all of at least 64 pages serves them in
-- `lightfs_reada_buffer_get`: the return value is their number, none is left, and page `i` gets the 4096
-- bytes of the buffer from byte `block - reada_block_start + i` on, for the first page's block.
pub lightfs_reada_buffer_get-shifted :
    (e : ReadaEntry) (inode : LightfsInode) (start : ℕ) (p : Page) (ps : List Page)
    → inode.ra_entry ≡ some e.id
    → e.is_done ≡ true
    → e.is_empty ≡ false
    → 64 ≤ length (p ∷ ps)
    → AreFrom start (p ∷ ps)
    → e.reada_block_start ≤ start + 1
    → start + 1 + length (p ∷ ps) ≤ e.reada_block_start + e.reada_block_len
    → lightfs_reada_buffer_get e inode
        (record { lightfs_io_vec = p ∷ ps; lightfs_bvidx = 0 })
        (length (p ∷ ps))
      ≡ done
          (at_page (shifted (start + 1 - e.reada_block_start) e.buf (p ∷ ps)) [], length (p ∷ ps))
lightfs_reada_buffer_get-shifted e inode start p ps has_entry ready full enough are inside reach =
    ap
      (λ v.
        lightfs_reada_buffer_get e inode (record { lightfs_io_vec = v; lightfs_bvidx = 0 })
          (length (p ∷ ps)))
      (sym (append-nil (p ∷ ps)))
    ∙ buffer_get_all e inode start (length (p ∷ ps)) p ps [] has_entry ready full enough are inside
        refl reach

-- When the first entry is done and holds the blocks of exactly the first half of at least 64 and fewer
-- than 9999 pages, `lightfs_readpages` copies to these, leaves the pages behind them as they are, frees
-- no entry, and does not go on to read from the device.
pub search_readahead_half :
    (e : ReadaEntry) (es : List ReadaEntry) (inode : LightfsInode) (start nr_pages : ℕ) (p : Page)
    (ys zs : List Page)
    → inode.ra_entry ≡ some e.id
    → inode.ra_list ≡ e ∷ es
    → e.is_done ≡ true
    → e.is_empty ≡ false
    → (64 ≤ nr_pages) × (nr_pages < 9999)
    → AreFrom start (p ∷ ys)
    → e.reada_block_start ≤ start + 1
    → start + 1 + length (p ∷ ys) ≡ e.reada_block_start + e.reada_block_len
    → length (p ∷ ys) + length (p ∷ ys) ≡ nr_pages
    → search_readahead inode
        (record { lightfs_io_vec = (p ∷ ys) ++ zs; lightfs_bvidx = 0 })
        nr_pages
      ≡ done
          (at_page (shifted (start + 1 - e.reada_block_start) e.buf (p ∷ ys)) zs, inode, [], false)
unfolding search_readahead search
search_readahead_half e es inode start nr_pages p ys zs has_entry listed ready full size are inside
      reach half =
    let got =
      buffer_get_part e inode start nr_pages p ys zs has_entry ready full size.0 are inside reach
        (omega (arith, half)) in
    let b1 : (length (p ∷ ys) == 99999) ≡ false = ground (arith, half, size) in
    let b2 : (length (p ∷ ys) == 9999) ≡ false = ground (arith, half, size) in
    let b3 : (length (p ∷ ys) == 0) ≡ false = ground arith in
    let b4 : (length (p ∷ ys) + length (p ∷ ys) == nr_pages) ≡ true = ground (arith, half) in
    let b5 : (length (p ∷ ys) == nr_pages) ≡ false = ground (arith, half) in
    cc (listed, got, b1, b2, b3, b4, b5)
