-- ===== src/Bstore/Callbacks.antt =====
-- The callbacks of one answer of the device, page by page.
use kevin.Base.{
  ℕ, zero, suc, ◌+◌, ◌-◌, ◌*◌, ◌%◌, ◌^◌, ◌≤◌, ◌<◌, List, [], ◌∷◌, ◌++◌, Bool, true, false, not,
  done, ◌>>=◌, ◌==◌, ltb, leb, ◌≡◌, refl, ap, sym, ◌∙◌, arith, length, set, take, drop,
  length-append, length-drop, append_assoc,
}
use kevin.Key.{dbt_setup}
use kevin.Key.Layout.{data_key, lightfs_key_get_ino, lightfs_data_key_get_blocknum}
use kevin.Key.Data.{data_key_ino, data_key_blocknum, set_blocknum-data_key}
use kevin.Bstore.Scan.{
  Page, LightfsIo, ScanInfo, page_to_block_num, lightfs_io_job_done, lightfs_io_advance_page,
  write_page, skip_pages, fill_page, lightfs_scan_pages_cb, each_page,
}
use kevin.Bstore.Pages.{
  get_elem?-append, set-append, file_block, file_pages, AreFrom, fill_page-file_block,
}

-- The pages `xs` are filled and the pages `ys` are not.
abbrev pub at_page : List Page → List Page → LightfsIo
at_page xs ys = record { lightfs_io_vec = xs ++ ys; lightfs_bvidx = length xs }

abbrev pub filled : ℕ → Page → List ℕ → Page
filled size p buf = record p { bytes = file_block size (p.index + 1) (take 4096 buf) }

pub job_goes_on :
    (xs : List Page) (p : Page) (ps : List Page) → lightfs_io_job_done (at_page xs (p ∷ ps)) ≡ false
job_goes_on xs p ps = ground (arith, length-append xs (p ∷ ps))

pub job_ends : (xs : List Page) → lightfs_io_job_done (at_page xs []) ≡ true
job_ends xs = ground (arith, length-append xs [])

pub write_next :
    (xs : List Page) (p : Page) (ps : List Page) (q : List ℕ)
    → lightfs_io_advance_page (write_page (at_page xs (p ∷ ps)) p q)
      ≡ done (at_page (xs ++ (record p { bytes = q } ∷ [])) ps)
write_next xs p ps q =
    let q' : Page = record p { bytes = q } in
    let vec : set (xs ++ (p ∷ ps)) (length xs) q' ≡ (xs ++ (q' ∷ [])) ++ ps =
      set-append xs p ps q' ∙ sym (append_assoc xs (q' ∷ []) ps) in
    let idx : suc (length xs) ≡ length (xs ++ (q' ∷ [])) =
      omega (arith, length-append xs (q' ∷ [])) in
    let room : leb (length (set (xs ++ (p ∷ ps)) (length xs) q')) (length xs) ≡ false =
      ground (arith, ap length (set-append xs p ps q'), length-append xs (q' ∷ ps)) in
    ground (arith, room, vec, idx)

skip_none :
    (rounds : ℕ) (info : ScanInfo) (p : Page) (block : ℕ)
    → ltb (page_to_block_num p) block ≡ false
    → skip_pages rounds info p block ≡ done (info, p)
unfolding skip_pages
skip_none zero info p block e = refl
skip_none (suc rounds) info p block e = ground (arith, e)

abbrev pub info_at : LightfsIo → Bool → ℕ → ℕ → ℕ → ScanInfo
info_at io do_continue ino size cnt = record {
  lightfs_io = io;
  do_continue = do_continue;
  ino = ino;
  size = size;
  block_cnt = cnt;
}

abbrev one_less : ℕ → ℕ
one_less cnt = (cnt + 2 ^ 64 - 1) % 2 ^ 64

-- The callback at the next page's own block.
cb_lem :
    (mem buf : List ℕ) (xs : List Page) (p : Page) (ps : List Page) (go : Bool) (ino size cnt : ℕ)
    → length p.bytes ≡ 4096
    → 4096 ≤ length buf
    → ino < 2 ^ 64
    → p.index + 1 < 2 ^ 64
    → lightfs_scan_pages_cb
        (info_at (at_page xs (p ∷ ps)) go ino size cnt)
        (dbt_setup (data_key mem ino (p.index + 1)) 17)
        buf
        4096
      ≡ done (
          info_at
            (at_page (xs ++ (filled size p buf ∷ [])) ps)
            (not (lightfs_io_job_done (at_page (xs ++ (filled size p buf ∷ [])) ps)))
            ino
            size
            (one_less cnt))
unfolding lightfs_scan_pages_cb
cb_lem mem buf xs p ps go ino size cnt long have hi hb =
    let info = info_at (at_page xs (p ∷ ps)) go ino size cnt in
    let block = lightfs_data_key_get_blocknum (data_key mem ino (p.index + 1)) 17 in
    let block_is : block ≡ p.index + 1 = data_key_blocknum mem ino (p.index + 1) hb in
    let ino_is : (lightfs_key_get_ino (data_key mem ino (p.index + 1)) == ino) ≡ true =
      ground (arith, data_key_ino mem ino (p.index + 1) hi) in
    let in_front : ltb (page_to_block_num p) block ≡ false = ground (arith, block_is) in
    let here : (page_to_block_num p == block) ≡ true = ground (arith, block_is) in
    let wrote : lightfs_io_advance_page
          (write_page (at_page xs (p ∷ ps)) p (fill_page size p buf 4096))
        ≡ done (at_page (xs ++ (filled size p buf ∷ [])) ps) =
      ap (λ b. lightfs_io_advance_page (write_page (at_page xs (p ∷ ps)) p b))
        (fill_page-file_block size p buf long have)
      ∙ write_next xs p ps (file_block size (p.index + 1) (take 4096 buf)) in
    ground (
      arith,
      ino_is,
      get_elem?-append xs p ps,
      skip_none (length (xs ++ (p ∷ ps))) info p block in_front,
      here,
      wrote,
    )

-- One page of an answer.
page_step :
    (mem buf : List ℕ) (xs : List Page) (p : Page) (ps : List Page) (go : Bool)
    (ino size cnt start before n : ℕ)
    → p.index ≡ start
    → length p.bytes ≡ 4096
    → 4096 ≤ length buf
    → ino < 2 ^ 64
    → start + 1 < 2 ^ 64
    → each_page
        (suc n)
        (info_at (at_page xs (p ∷ ps)) go ino size cnt)
        (dbt_setup (data_key mem ino before) 17)
        (start + 1)
        buf
      ≡ each_page n
          (info_at
            (at_page (xs ++ (filled size p buf ∷ [])) ps)
            (not (lightfs_io_job_done (at_page (xs ++ (filled size p buf ∷ [])) ps)))
            ino
            size
            (one_less cnt))
          (dbt_setup (data_key mem ino (start + 1)) 17)
          (suc (start + 1))
          (drop 4096 buf)
unfolding each_page
page_step mem buf xs p ps go ino size cnt start before n is_start long have hi small =
    let info = info_at (at_page xs (p ∷ ps)) go ino size cnt in
    let called =
      ap (λ b. lightfs_scan_pages_cb info (dbt_setup (data_key mem ino (b + 1)) 17) buf 4096)
        (sym is_start)
      ∙ cb_lem mem buf xs p ps go ino size cnt long have hi (omega (arith, is_start, small)) in
    ap
      (λ k.
        lightfs_scan_pages_cb info (dbt_setup k 17) buf 4096
        >>= (λ info. each_page n info (dbt_setup k 17) (suc (start + 1)) (drop 4096 buf)))
      (set_blocknum-data_key mem ino before (start + 1))
    ∙ ap
        (λ o. o >>= (λ info.
          each_page n info (dbt_setup (data_key mem ino (start + 1)) 17) (suc (start + 1))
            (drop 4096 buf)))
        called

-- The callbacks of an answer for all the pages that are left.
pub each_page_lem :
    (mem buf : List ℕ) (xs : List Page) (p : Page) (ps : List Page) (go : Bool)
    (ino size cnt start before : ℕ)
    → AreFrom start (p ∷ ps)
    → 4096 * length (p ∷ ps) ≤ length buf
    → ino < 2 ^ 64
    → start + length (p ∷ ps) < 2 ^ 64
    → (rest : ℕ) × (each_page
          (length (p ∷ ps))
          (info_at (at_page xs (p ∷ ps)) go ino size cnt)
          (dbt_setup (data_key mem ino before) 17)
          (start + 1)
          buf
        ≡ done (
          info_at (at_page (xs ++ file_pages size (p ∷ ps) buf) []) false ino size rest,
          dbt_setup (data_key mem ino (start + length (p ∷ ps))) 17,
        ))
unfolding each_page AreFrom file_pages
each_page_lem mem buf xs p [] go ino size cnt start before are have hi small =
    let ended : not (lightfs_io_job_done (at_page (xs ++ (filled size p buf ∷ [])) [])) ≡ false =
      ap not (job_ends (xs ++ (filled size p buf ∷ []))) in
    (
      one_less cnt,
      page_step mem buf xs p [] go ino size cnt start before 0 are.0 are.1 (omega (arith, have)) hi
            (omega (arith, small))
          ∙ ap
              (λ g. done (
                info_at (at_page (xs ++ (filled size p buf ∷ [])) []) g ino size (one_less cnt),
                dbt_setup (data_key mem ino (start + 1)) 17,
              ))
              ended,
    )
each_page_lem mem buf xs p (q ∷ ps) go ino size cnt start before are have hi small =
    let xs' = xs ++ (filled size p buf ∷ []) in
    let (rest, later) =
      each_page_lem mem (drop 4096 buf) xs' q ps true ino size (one_less cnt) (start + 1)
        (start + 1) are.2 (omega (arith, have, length-drop 4096 buf)) hi (omega (arith, small)) in
    let goes : not (lightfs_io_job_done (at_page xs' (q ∷ ps))) ≡ true =
      ap not (job_goes_on xs' q ps) in
    let next_block : suc (start + 1) ≡ start + 1 + 1 = omega arith in
    let last_block : start + 1 + length (q ∷ ps) ≡ start + length (p ∷ q ∷ ps) = omega arith in
    let all : xs' ++ file_pages size (q ∷ ps) (drop 4096 buf)
        ≡ xs ++ file_pages size (p ∷ q ∷ ps) buf =
      append_assoc xs (filled size p buf ∷ []) (file_pages size (q ∷ ps) (drop 4096 buf)) in
    (
      rest,
      page_step mem buf xs p (q ∷ ps) go ino size cnt start before (length (q ∷ ps)) are.0 are.1
            (omega (arith, have)) hi (omega (arith, small))
          ∙ ap
              (λ g.
                each_page (length (q ∷ ps))
                  (info_at (at_page xs' (q ∷ ps)) g ino size (one_less cnt))
                  (dbt_setup (data_key mem ino (start + 1)) 17) (suc (start + 1)) (drop 4096 buf))
              goes
          ∙ ap
              (λ b.
                each_page (length (q ∷ ps))
                  (info_at (at_page xs' (q ∷ ps)) true ino size (one_less cnt))
                  (dbt_setup (data_key mem ino (start + 1)) 17) b (drop 4096 buf))
              next_block
          ∙ later
          ∙ ap
              (λ vec. done (
                info_at (at_page vec []) false ino size rest,
                dbt_setup (data_key mem ino (start + 1 + length (q ∷ ps))) 17,
              ))
              all
          ∙ ap
              (λ b. done (
                info_at (at_page (xs ++ file_pages size (p ∷ q ∷ ps) buf) []) false ino size rest,
                dbt_setup (data_key mem ino b) 17,
              ))
              last_block,
    )
