-- ===== src/Reada.antt =====
-- Readahead: kevinfs/lightfs_reada.c, and the search of the readahead buffers in `lightfs_readpages` of
-- kevinfs/lightfs_super.c. An entry is known by a number of its own, its address in the source. The
-- spin lock is taken and released on every path, and is left out.
pub mod Flush
pub mod Hit
use kevin.Base.{
  ℕ, zero, suc, ◌+◌, ◌-◌, ◌%◌, ◌^◌, List, [], ◌∷◌, ◌++◌, Option, none, some, Bool, true, false, not,
  ◌&&◌, ◌||◌, Outcome, done, blocked, bug, ◌>>=◌, ◌==◌, ltb, leb, if◌then◌else◌, length, drop,
}
use kevin.Key.{memcpy}
use kevin.Bstore.Scan.{
  Page, LightfsIo, page_to_block_num, lightfs_io_current_page, lightfs_io_advance_page,
  lightfs_io_job_done, write_page,
}

abbrev pub enora : ℕ
enora = 99999

abbrev pub esmall : ℕ
esmall = 9999

abbrev pub reada_threshold : ℕ
reada_threshold = 64

abbrev pub reada_qd : ℕ
reada_qd = 4

-- `struct reada_entry`; `reada_state` as its bits READA_EMPTY and READA_DONE, the latter of which comes
-- with the completion.
pub record ReadaEntry : Type 0 where
  pub id : ℕ
  pub buf : List ℕ
  pub reada_block_start : ℕ
  pub reada_block_len : ℕ
  pub tag : ℕ
  pub is_empty : Bool
  pub is_done : Bool

-- The part of `struct lightfs_inode` that readahead uses; `ra_entry` points to an entry of the
-- list.
pub record LightfsInode : Type 0 where
  pub last_block_start : ℕ
  pub last_block_len : ℕ
  pub ra_entry : Option ℕ
  pub ra_list : List ReadaEntry
  pub ra_entry_cnt : ℕ

-- `lightfs_reada_alloc`, for a new entry of number `id`, whose buffer is not set yet.
unfoldable pub lightfs_reada_alloc : LightfsInode → ℕ → ℕ → ℕ → Outcome (LightfsInode × ReadaEntry)
lightfs_reada_alloc inode id current_block_num block_cnt =
    let entry : ReadaEntry = record {
      id = id;
      buf = [];
      reada_block_start = current_block_num;
      reada_block_len = block_cnt;
      tag = 0;
      is_empty = false;
      is_done = false;
    } in
    let cnt = (inode.ra_entry_cnt + 1) % 256 in
    let queued = record inode { ra_list = inode.ra_list ++ (entry ∷ []); ra_entry_cnt = cnt } in
    if cnt == 1
    then elim inode.ra_entry [
      | none ↦ done (record queued { ra_entry = some id }, entry)
      | some _ ↦ bug
    ]
    else done (queued, entry)

-- `list_del`, and the head of a list.
unfoldable pub remove : ℕ → List ReadaEntry → List ReadaEntry
remove id [] = []
remove id (e ∷ es) = let rest = remove id es in if id == e.id then es else e ∷ rest

abbrev pub head : List ReadaEntry → Option ℕ
head [] = none
head (e ∷ es) = some e.id

-- The entry that a pointer leads to.
unfoldable pub entry_at : Option ℕ → List ReadaEntry → Option ReadaEntry
entry_at none es = none
entry_at (some id) [] = none
entry_at (some id) (e ∷ es) =
    let rest = entry_at (some id) es in if id == e.id then some e else rest

-- `lightfs_io_get_multi_reada` gives an entry its slot and the slot's buffer.
unfoldable pub issued : ℕ → ℕ → List ℕ → List ReadaEntry → List ReadaEntry
issued id tag buf [] = []
issued id tag buf (e ∷ es) =
    (if id == e.id then record e { tag = tag; buf = buf } else e) ∷ issued id tag buf es

-- `lightfs_reada_free`: the inode, and the tag whose slot is given back, which is that of the inode's
-- `ra_entry`. An entry that is not done is waited for.
unfoldable pub lightfs_reada_free : ReadaEntry → LightfsInode → Outcome (LightfsInode × ℕ)
lightfs_reada_free entry inode = elim entry.is_done [
  | false ↦ blocked
  | true ↦ elim (entry_at inode.ra_entry inode.ra_list) [
    | none ↦ bug
    | some first ↦
        let rest = remove entry.id inode.ra_list in
        let cnt = (inode.ra_entry_cnt + 255) % 256 in
        done (
          record inode {
            ra_list = rest;
            ra_entry_cnt = cnt;
            ra_entry = if cnt == 0 then none else head rest;
          },
          first.tag,
        )
  ]
]

-- The loops of `lightfs_reada_all_flush`, and of `lightfs_reada_flush` up to a count: the tags that are
-- given back, in order.
unfoldable pub all_flush : List ReadaEntry → LightfsInode → Outcome (LightfsInode × List ℕ)
all_flush [] inode = done (inode, [])
all_flush (e ∷ es) inode = do
  (inode, tag) ← lightfs_reada_free e inode
  (inode, tags) ← all_flush es inode
  done (inode, tag ∷ tags)

abbrev pub lightfs_reada_all_flush : LightfsInode → Outcome (LightfsInode × List ℕ)
lightfs_reada_all_flush inode = all_flush inode.ra_list inode

unfoldable pub flush : ℕ → List ReadaEntry → LightfsInode → Outcome (LightfsInode × List ℕ)
flush cnt [] inode = done (inode, [])
flush zero (e ∷ es) inode = done (inode, [])
flush (suc cnt) (e ∷ es) inode = do
  (inode, tag) ← lightfs_reada_free e inode
  (inode, tags) ← flush cnt es inode
  done (inode, tag ∷ tags)

abbrev pub lightfs_reada_flush : LightfsInode → ℕ → Outcome (LightfsInode × List ℕ)
lightfs_reada_flush inode cnt = flush cnt inode.ra_list inode

-- `lightfs_reada_need`, for the number of the first page's block.
unfoldable pub lightfs_reada_need : LightfsInode → ℕ → ℕ → Bool → LightfsInode × Bool
lightfs_reada_need inode current_start_block nr_pages fg_read =
    let seen = record inode { last_block_start = current_start_block; last_block_len = nr_pages } in
    if ltb nr_pages reada_threshold
    then (inode, false)
    else if leb reada_qd inode.ra_entry_cnt
    then (seen, false)
    else if fg_read
    then (seen, current_start_block == inode.last_block_start + inode.last_block_len)
    else elim (entry_at inode.ra_entry inode.ra_list) [
      | none ↦ (seen, false)
      | some e ↦ (seen, current_start_block + nr_pages == e.reada_block_start + e.reada_block_len)
    ]

-- The loops that copy pages from `idx` on, for the rounds that are left: a page for every step of `idx`,
-- which is added to the `char *` as it is. The pages, and how many were copied.
unfoldable pub copy_pages : ℕ → ReadaEntry → ℕ → LightfsIo → Outcome LightfsIo
copy_pages zero e idx io = done io
copy_pages (suc rounds) e idx io = do
  page ← lightfs_io_current_page io
  io ← lightfs_io_advance_page (write_page io page (memcpy page.bytes 0 (drop idx e.buf) 4096))
  copy_pages rounds e (suc idx) io

-- A hit waits for an entry that is not done.
unfoldable pub copy_when_done : ReadaEntry → ℕ → ℕ → LightfsIo → Outcome (LightfsIo × ℕ)
copy_when_done e idx rounds io = elim e.is_done [
  | false ↦ blocked
  | true ↦ do io ← copy_pages rounds e idx io; done (io, rounds)
]

-- `lightfs_reada_buffer_get`: the pages and the return value.
unfoldable pub lightfs_reada_buffer_get :
    ReadaEntry → LightfsInode → LightfsIo → ℕ → Outcome (LightfsIo × ℕ)
lightfs_reada_buffer_get e inode io nr_pages = elim inode.ra_entry [
  | none ↦ done (io, enora)
  | some _ ↦
      if ltb nr_pages reada_threshold
      then done (io, esmall)
      else if e.is_empty
      then done (io, enora)
      else do
        page ← lightfs_io_current_page io
        let current_block_num = page_to_block_num page
        let end = e.reada_block_start + e.reada_block_len
        let idx = current_block_num - e.reada_block_start
        (if ltb current_block_num e.reada_block_start
            then done (io, 0)
            else if leb (current_block_num + nr_pages) end
            then copy_when_done e idx (length io.lightfs_io_vec - io.lightfs_bvidx) io
            else if ltb current_block_num end
            then copy_when_done e idx (e.reada_block_len - idx) io
            else done (io, 0))
]

-- The search of the entries in `lightfs_readpages`: the pages, the last return value,
-- `buffer_processed_pages` and `free_ra_entry_num`. Each round sets `buffer_processed_pages` to the
-- return value and then adds it once more.
unfoldable pub search :
    List ReadaEntry → LightfsInode → LightfsIo → ℕ → ℕ → ℕ → ℕ → Outcome (LightfsIo × ℕ × ℕ × ℕ)
search [] inode io nr_pages ret processed freed = done (io, ret, processed, freed)
search (e ∷ es) inode io nr_pages ret processed freed = do
  (io, ret) ← lightfs_reada_buffer_get e inode io nr_pages
  let processed = ret + ret
  (if ret == enora || ret == esmall || ret == nr_pages || not (ret == 0) && processed == nr_pages
      then done (io, ret, processed, freed)
      else search es inode io nr_pages ret processed (suc freed))

-- What `lightfs_readpages` does next: the pages, the inode, the tags given back, and whether it reads
-- the pages that are left from the device.
unfoldable pub search_readahead :
    LightfsInode → LightfsIo → ℕ → Outcome (LightfsIo × LightfsInode × List ℕ × Bool)
search_readahead inode io nr_pages = do
  (io, ret, processed, freed) ← search inode.ra_list inode io nr_pages 0 0 0
  (inode, tags) ←
      (if ret == esmall
        then lightfs_reada_all_flush inode
        else if freed == 0
        then done (inode, [])
        else lightfs_reada_flush inode freed)
  done (io, inode, tags, not (processed == nr_pages))
