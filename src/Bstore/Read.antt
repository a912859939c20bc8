-- ===== src/Bstore/Read.antt =====
-- A whole scan.
use kevin.Base.{
  ℕ, zero, suc, ◌+◌, ◌-◌, ◌*◌, ◌^◌, ◌≤◌, ◌<◌, List, [], ◌∷◌, ◌++◌, some, Bool, true, false, Outcome,
  done, ◌==◌, pos, ◌≡◌, refl, ap, sym, ◌∙◌, arith, length, get_elem?, replicate, append-nil,
  append_assoc,
}
use kevin.Key.{Dbt, dbt_setup}
use kevin.Key.Layout.{data_key, alloc_data_dbt_from_ino, lightfs_data_key_get_blocknum}
use kevin.Key.Data.{data_key_blocknum}
use kevin.Bstore.{lightfs_get_block_num_by_size}
use kevin.Bstore.Scan.{
  Page, LightfsIo, ScanInfo, Blocks, page_to_block_num, lightfs_io_job_done,
  lightfs_io_advance_page, write_page, zero_user_segment, lightfs_bstore_txn_get_multi, fill_rest,
  scan_loop, scan_count, scan_end, scan_from, lightfs_bstore_scan_pages,
}
use kevin.Bstore.Pages.{zero_tail, get_elem?-append, file_pages, zero_pages, AreFrom}
use kevin.Bstore.Callbacks.{at_page, info_at, each_page_lem, write_next, job_ends, job_goes_on}

fill_rest_done :
    (rounds : ℕ) (io : LightfsIo) → lightfs_io_job_done io ≡ true → fill_rest rounds io ≡ done io
unfolding fill_rest
fill_rest_done zero io e = refl
fill_rest_done (suc rounds) io e = ground (arith, e)

zero_whole :
    (bytes : List ℕ) → length bytes ≡ 4096 → zero_user_segment bytes 0 4096 ≡ replicate 4096 0
zero_whole bytes e = zero_tail 4096 bytes 0 e (omega arith)

fill_step :
    (rounds : ℕ) (xs : List Page) (p : Page) (ys : List Page) (zeros : List ℕ)
    (out : Outcome LightfsIo)
    → lightfs_io_advance_page
        (write_page (at_page xs (p ∷ ys)) p (zero_user_segment p.bytes 0 4096))
      ≡ done (at_page (xs ++ (record p { bytes = zeros } ∷ [])) ys)
    → fill_rest rounds (at_page (xs ++ (record p { bytes = zeros } ∷ [])) ys) ≡ out
    → fill_rest (suc rounds) (at_page xs (p ∷ ys)) ≡ out
unfolding fill_rest
fill_step rounds xs p ys zeros out wrote later =
    ground (arith, job_goes_on xs p ys, get_elem?-append xs p ys, wrote, later)

fill_rest_zero :
    (rounds start : ℕ) (xs ys : List Page)
    → AreFrom start ys
    → length ys ≤ rounds
    → fill_rest rounds (at_page xs ys) ≡ done (at_page (xs ++ zero_pages ys) [])
unfolding fill_rest zero_pages AreFrom
fill_rest_zero rounds start xs [] are le =
    fill_rest_done rounds (at_page xs []) (job_ends xs)
    ∙ ap (λ v. done (at_page v [])) (sym (append-nil xs))
fill_rest_zero zero start xs (p ∷ ys) are le = absurd (omega (arith, le))
fill_rest_zero (suc rounds) start xs (p ∷ ys) are le =
    let q : Page = record p { bytes = replicate 4096 0 } in
    let wrote =
      ap (λ b. lightfs_io_advance_page (write_page (at_page xs (p ∷ ys)) p b))
        (zero_whole p.bytes are.1)
      ∙ write_next xs p ys (replicate 4096 0) in
    let later = fill_rest_zero rounds (start + 1) (xs ++ (q ∷ [])) ys are.2 (omega (arith, le)) in
    fill_step rounds xs p ys (replicate 4096 0) (done (at_page (xs ++ (q ∷ zero_pages ys)) []))
      wrote (later ∙ ap (λ v. done (at_page v [])) (append_assoc xs (q ∷ []) (zero_pages ys)))

last_page :
    (start : ℕ) (p : Page) (ps : List Page)
    → AreFrom start (p ∷ ps)
    → (last : Page) × (get_elem? (p ∷ ps) (length ps) ≡ some last)
      × (last.index ≡ start + length ps)
unfolding AreFrom
last_page start p [] are = (p, refl, omega (arith, are.0))
last_page start p (q ∷ ps) are =
    let (last, found, at) = last_page (start + 1) q ps are.2 in (last, found, omega (arith, at))

module _ (blocks : Blocks) (rounds : ℕ) (mem : List ℕ) (ino size start : ℕ) (p : Page)
    (ps : List Page) (hi : ino < 2 ^ 64) (small : size < 2 ^ 63) (are : AreFrom start (p ∷ ps))
    (within : start + length (p ∷ ps) ≤ lightfs_get_block_num_by_size size) where
  abbrev pages : List Page
  pages = p ∷ ps

  abbrev asked : Dbt
  asked = dbt_setup (data_key mem ino (start + 1)) 17

  abbrev fresh : LightfsIo
  fresh = record { lightfs_io_vec = pages; lightfs_bvidx = 0 }

  few : lightfs_get_block_num_by_size size < 2 ^ 52
  few = ground (arith, small)

  count_lem :
      (last : Page)
      → last.index ≡ start + length ps
      → scan_count size (start + 1) (page_to_block_num last) ≡ length pages
  count_lem last at =
      let last_is : page_to_block_num last ≡ start + length pages = omega (arith, at) in
      ground (arith, last_is, within, few)

  -- The scan is its loop and its end.
  from_lem :
      (go : Bool) (info : ScanInfo) (io : LightfsIo) (last : Page)
      → last.index ≡ start + length ps
      → scan_loop blocks rounds (info_at fresh go ino size (length pages)) asked (length pages)
        ≡ done (info, pos 0)
      → scan_end (info, pos 0) ≡ done io
      → scan_from blocks rounds (some mem) go fresh ino size (record p { index = start }) last
        ≡ done (some io)
  unfolding scan_from alloc_data_dbt_from_ino
  from_lem go info io last at looped ended =
      let count = count_lem last at in
      let some_left : (length pages == 0) ≡ false = ground arith in
      ground (arith, count, some_left, looped, ended)

  begin_lem :
      (go : Bool) (info : ScanInfo) (io : LightfsIo)
      → scan_loop blocks rounds (info_at fresh go ino size (length pages)) asked (length pages)
        ≡ done (info, pos 0)
      → scan_end (info, pos 0) ≡ done io
      → lightfs_bstore_scan_pages blocks rounds (some mem) go fresh ino size ≡ done (some io)
  unfolding lightfs_bstore_scan_pages AreFrom
  begin_lem go info io looped ended =
      let (last, found, at) = last_page start p ps are in
      let begun = from_lem go info io last at looped ended in
      let first : record p { index = start } ≡ p = ap (λ i. record p { index = i }) (sym are.0) in
      let end_is : length pages - 1 ≡ length ps = omega arith in
      let last_is : get_elem? pages (length pages - 1) ≡ some last =
        ap (get_elem? pages) end_is ∙ found in
      let going : lightfs_io_job_done fresh ≡ false = ground arith in
      ground (arith, first, last_is, going, begun)

module _ (blocks : Blocks) (rounds : ℕ) (mem : List ℕ) (ino size start : ℕ) (p : Page)
    (ps : List Page) (hi : ino < 2 ^ 64) (small : size < 2 ^ 63) (are : AreFrom start (p ∷ ps))
    (within : start + length (p ∷ ps) ≤ lightfs_get_block_num_by_size size) where
  -- One answer of the device for all the pages.
  answered :
      (buf : List ℕ)
      → blocks (asked blocks rounds mem ino size start p ps hi small are within) (length (p ∷ ps))
        ≡ some buf
      → 4096 * length (p ∷ ps) ≤ length buf
      → (rest : ℕ) × (scan_loop blocks
            (suc (suc rounds))
            (info_at
              (record { lightfs_io_vec = p ∷ ps; lightfs_bvidx = 0 })
              true
              ino
              size
              (length (p ∷ ps)))
            (dbt_setup (data_key mem ino (start + 1)) 17)
            (length (p ∷ ps))
          ≡ done (info_at (at_page (file_pages size (p ∷ ps) buf) []) false ino size rest, pos 0))
  unfolding scan_loop lightfs_bstore_txn_get_multi
  answered buf got long =
      let bound : start + length (p ∷ ps) < 2 ^ 64 = ground (arith, within, small) in
      let (rest, each) =
        each_page_lem mem buf [] p ps true ino size (length (p ∷ ps)) start (start + 1) are long hi
          bound in
      let from : lightfs_data_key_get_blocknum (data_key mem ino (start + 1)) 17 ≡ start + 1 =
        data_key_blocknum mem ino (start + 1) (omega (arith, bound)) in
      (rest, ground (arith, got, from, each))

  -- Where the stack variable `info.do_continue` is not 0, a scan of consecutive whole pages inside a file,
  -- for which the device has the blocks from the first page's on, makes at most two rounds of its loop and
  -- fills every page with its block, with zeros behind the end of the file.
  pub lightfs_bstore_scan_pages_lem :
      (buf : List ℕ)
      → blocks (dbt_setup (data_key mem ino (start + 1)) 17) (length (p ∷ ps)) ≡ some buf
      → 4096 * length (p ∷ ps) ≤ length buf
      → lightfs_bstore_scan_pages blocks
          (suc (suc rounds))
          (some mem)
          true
          (record { lightfs_io_vec = p ∷ ps; lightfs_bvidx = 0 })
          ino
          size
        ≡ done (some (at_page (file_pages size (p ∷ ps) buf) []))
  unfolding scan_end
  lightfs_bstore_scan_pages_lem buf got long =
      let (rest, looped) = answered buf got long in
      let io = at_page (file_pages size (p ∷ ps) buf) [] in
      begin_lem blocks (suc (suc rounds)) mem ino size start p ps hi small are within true
        (info_at io false ino size rest) io looped
        (fill_rest_done (length io.lightfs_io_vec) io (job_ends (file_pages size (p ∷ ps) buf)))

  -- Where the stack variable `info.do_continue` is 0, the same scan does not ask the device: it fills
  -- every page with zeros and reports no error.
  pub lightfs_bstore_scan_pages_zero :
      lightfs_bstore_scan_pages blocks
        (suc rounds)
        (some mem)
        false
        (record { lightfs_io_vec = p ∷ ps; lightfs_bvidx = 0 })
        ino
        size
      ≡ done (some (at_page (zero_pages (p ∷ ps)) []))
  unfolding scan_loop scan_end
  lightfs_bstore_scan_pages_zero =
      let io : LightfsIo = record { lightfs_io_vec = p ∷ ps; lightfs_bvidx = 0 } in
      begin_lem blocks (suc rounds) mem ino size start p ps hi small are within false
        (info_at io false ino size (length (p ∷ ps))) (at_page (zero_pages (p ∷ ps)) []) refl
        (fill_rest_zero (length (p ∷ ps)) start [] (p ∷ ps) are (omega arith))
