-- ===== src/Bstore/Scan.antt =====
-- Reading pages: `struct lightfs_io` of kevinfs/lightfs_fs.h, `lightfs_bstore_txn_get_multi` of
-- kevinfs/lightfs_txn_hdlr.c and the scans of kevinfs/lightfs_bstore.c. A page is its index and bytes.
use kevin.Base.{
  ℕ, zero, suc, ◌+◌, ◌-◌, ◌%◌, ◌^◌, List, Option, none, some, Bool, true, false, not, ◌&&◌, Outcome,
  done, blocked, bug, ◌>>=◌, ◌==◌, ltb, leb, if◌then◌else◌, ℤ, pos, length, get_elem?, set, drop,
}
use kevin.Key.{Dbt, memcpy, memset}
use kevin.Key.Layout.{
  alloc_data_dbt_from_ino, lightfs_key_get_ino, lightfs_data_key_get_blocknum,
  lightfs_data_key_set_blocknum,
}
use kevin.RbKv.{db_notfound}
use kevin.Bstore.{lightfs_get_block_num_by_size, block_get_off_by_position}

pub record Page : Type 0 where
  pub index : ℕ
  pub bytes : List ℕ

-- `struct lightfs_io`; `lightfs_vcnt` is the number of pages. It and the index are `unsigned short` in
-- the source and have no bound here, so the model differs from it above 65535 pages.
pub record LightfsIo : Type 0 where
  pub lightfs_io_vec : List Page
  pub lightfs_bvidx : ℕ

abbrev pub lightfs_io_current_page : LightfsIo → Outcome Page
lightfs_io_current_page io = elim (get_elem? io.lightfs_io_vec io.lightfs_bvidx) [
  | none ↦ bug
  | some p ↦ done p
]

abbrev pub lightfs_io_job_done : LightfsIo → Bool
lightfs_io_job_done io = leb (length io.lightfs_io_vec) io.lightfs_bvidx

abbrev pub lightfs_io_advance_page : LightfsIo → Outcome LightfsIo
lightfs_io_advance_page io =
    if lightfs_io_job_done io
    then bug
    else done (record io { lightfs_bvidx = suc io.lightfs_bvidx })

-- The current page's bytes are replaced.
abbrev pub write_page : LightfsIo → Page → List ℕ → LightfsIo
write_page io p bytes = record io {
  lightfs_io_vec = set io.lightfs_io_vec io.lightfs_bvidx (record p { bytes = bytes });
}

-- `zero_user_segment(page, start, end)`.
abbrev pub zero_user_segment : List ℕ → ℕ → ℕ → List ℕ
zero_user_segment bytes start end = memset bytes start 0 (end - start)

abbrev pub page_to_block_num : Page → ℕ
page_to_block_num p = p.index + 1

-- `struct lightfs_scan_pages_cb_info`, for an inode's number and size.
pub record ScanInfo : Type 0 where
  pub lightfs_io : LightfsIo
  pub do_continue : Bool
  pub ino : ℕ
  pub size : ℕ
  pub block_cnt : ℕ

-- The loop over the pages in front of a block, for the pages that are left: the state, and the page
-- where it stops.
unfoldable pub skip_pages : ℕ → ScanInfo → Page → ℕ → Outcome (ScanInfo × Page)
skip_pages zero info page block = done (info, page)
skip_pages (suc rounds) info page block = elim (ltb (page_to_block_num page) block) [
  | false ↦ done (info, page)
  | true ↦ do
    io ←
        lightfs_io_advance_page
          (write_page info.lightfs_io page (zero_user_segment page.bytes 0 4096))
    elim (lightfs_io_job_done io) [
      | true ↦ done (record info { lightfs_io = io }, page)
      | false ↦ do
        next ← lightfs_io_current_page io
        skip_pages rounds
            (record info { lightfs_io = io; block_cnt = (info.block_cnt + 2 ^ 64 - 1) % 2 ^ 64 })
            next block
    ]
]

-- A block's bytes in a page, with zeros behind the end of the file.
unfoldable pub fill_page : ℕ → Page → List ℕ → ℕ → List ℕ
fill_page size page val val_size =
    let bytes = memcpy page.bytes 0 val val_size in
    let block_off = block_get_off_by_position size in
    if page_to_block_num page == lightfs_get_block_num_by_size size && ltb 0 block_off
    then zero_user_segment bytes block_off 4096
    else bytes

-- `lightfs_scan_pages_cb`.
unfoldable pub lightfs_scan_pages_cb : ScanInfo → Dbt → List ℕ → ℕ → Outcome ScanInfo
lightfs_scan_pages_cb info key val val_size = elim (lightfs_key_get_ino key.buf == info.ino) [
  | false ↦ done (record info { do_continue = false })
  | true ↦ do
    let block = lightfs_data_key_get_blocknum key.buf key.size
    page ← lightfs_io_current_page info.lightfs_io
    (info, page) ← skip_pages (length info.lightfs_io.lightfs_io_vec) info page block
    elim (page_to_block_num page == block) [
      | false ↦ done (record info { do_continue = not (lightfs_io_job_done info.lightfs_io) })
      | true ↦ do
        io ←
            lightfs_io_advance_page
              (write_page info.lightfs_io page (fill_page info.size page val val_size))
        done (record info {
          lightfs_io = io;
          block_cnt = (info.block_cnt + 2 ^ 64 - 1) % 2 ^ 64;
          do_continue = not (lightfs_io_job_done io);
        })
    ]
]

-- The callbacks of `lightfs_bstore_txn_get_multi`, for the pages that are left of the answer.
unfoldable pub each_page : ℕ → ScanInfo → Dbt → ℕ → List ℕ → Outcome (ScanInfo × Dbt)
each_page zero info key block_num buf = done (info, key)
each_page (suc cnt) info key block_num buf = do
  let key' = record key { buf = lightfs_data_key_set_blocknum key.buf key.size block_num }
  info ← lightfs_scan_pages_cb info key' buf 4096
  each_page cnt info key' (suc block_num) (drop 4096 buf)

-- What the device has from a key on, by the count of blocks: `none` is DB_NOTFOUND.
abbrev pub Blocks : Type 0
Blocks = Dbt → ℕ → Option (List ℕ)

-- `lightfs_bstore_txn_get_multi`, with what the device answers: the state, the key, and the return value.
unfoldable pub lightfs_bstore_txn_get_multi :
    Blocks → ScanInfo → Dbt → ℕ → Outcome (ScanInfo × Dbt × ℤ)
lightfs_bstore_txn_get_multi blocks info key cnt = elim (blocks key cnt) [
  | none ↦ done (info, key, db_notfound)
  | some buf ↦ do
    (info, key) ← each_page cnt info key (lightfs_data_key_get_blocknum key.buf key.size) buf
    done (info, key, pos 0)
]

-- `lightfs_bstore_fill_rest_page`, for the pages that are left.
unfoldable pub fill_rest : ℕ → LightfsIo → Outcome LightfsIo
fill_rest zero io = done io
fill_rest (suc rounds) io = elim (lightfs_io_job_done io) [
  | true ↦ done io
  | false ↦ do
    page ← lightfs_io_current_page io
    io ← lightfs_io_advance_page (write_page io page (zero_user_segment page.bytes 0 4096))
    fill_rest rounds io
]

abbrev pub lightfs_bstore_fill_rest_page : LightfsIo → Outcome LightfsIo
lightfs_bstore_fill_rest_page io = fill_rest (length io.lightfs_io_vec) io

-- The loop of `lightfs_bstore_scan_pages`, for the rounds that are left; with none left it has not ended.
unfoldable pub scan_loop : Blocks → ℕ → ScanInfo → Dbt → ℕ → Outcome (ScanInfo × ℤ)
scan_loop blocks zero info key cnt = blocked
scan_loop blocks (suc rounds) info key cnt = elim info.do_continue [
  | false ↦ done (info, pos 0)
  | true ↦ do
    (info, key, r) ← lightfs_bstore_txn_get_multi blocks info key cnt
    elim r [ pos zero ↦ scan_loop blocks rounds info key cnt | other ↦ done (info, other) ]
]

-- The count of blocks that a scan asks for.
abbrev pub scan_count : ℕ → ℕ → ℕ → ℕ
scan_count size current last =
    let block_cnt = (lightfs_get_block_num_by_size size + 2 ^ 64 - current + 1) % 2 ^ 64 in
    let pages = (last + 2 ^ 64 - current + 1) % 2 ^ 64 in
    if ltb pages block_cnt then pages else block_cnt

-- What comes after the loop: a return value other than 0 ends in the BUG_ON.
unfoldable pub scan_end : ScanInfo × ℤ → Outcome LightfsIo
scan_end (info, pos zero) = lightfs_bstore_fill_rest_page info.lightfs_io
scan_end (info, _) = bug

-- The scan from a page on, with the value that `info.do_continue` has, which nothing sets.
unfoldable pub scan_from :
    Blocks
    → ℕ
    → Option (List ℕ)
    → Bool
    → LightfsIo
    → ℕ
    → ℕ
    → Page
    → Page
    → Outcome (Option LightfsIo)
scan_from blocks rounds mem do_continue io ino size first last = do
  let current = page_to_block_num first
  let cnt = scan_count size current (page_to_block_num last)
  io ← (if cnt == 0 then lightfs_bstore_fill_rest_page io else done io)
  elim (alloc_data_dbt_from_ino mem ino current) [
    | none ↦ done none
    | some key ↦ do
      out ←
          scan_loop blocks rounds
            (record {
              lightfs_io = io;
              do_continue = do_continue;
              ino = ino;
              size = size;
              block_cnt = cnt;
            })
            key cnt
      io ← scan_end out
      done (some io)
  ]

-- `lightfs_bstore_scan_pages`: the pages; `none` for -ENOMEM.
unfoldable pub lightfs_bstore_scan_pages :
    Blocks → ℕ → Option (List ℕ) → Bool → LightfsIo → ℕ → ℕ → Outcome (Option LightfsIo)
lightfs_bstore_scan_pages blocks rounds mem do_continue io ino size =
    elim (lightfs_io_job_done io) [
      | true ↦ done (some io)
      | false ↦ do
        first ← lightfs_io_current_page io
        last ← lightfs_io_current_page (record io { lightfs_bvidx = length io.lightfs_io_vec - 1 })
        scan_from blocks rounds mem do_continue io ino size first last
    ]
