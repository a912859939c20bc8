-- ===== src/Txn/Insert.antt =====
-- How a client fills a transaction: `__lightfs_bstore_txn_begin` and `lightfs_bstore_txn_insert` of
-- kevinfs/lightfs_txn_hdlr.c, without TXN_BUFFER, which the Makefile leaves out.
use kevin.Base.{
  ℕ, ◌-◌, ◌%◌, ◌^◌, ◌*◌, List, [], ◌∷◌, ◌++◌, Bool, true, false, Option, none, some, ◌==◌,
  if◌then◌else◌, take,
}
use kevin.Key.{Dbt, memcpy, memset}
use kevin.Txn.{
  ReqType, data_set_wb, txn_created, add32, page_size, TxnBuf, DbTxn, lightfs_txn_init,
  lightfs_txn_buf_init, calc_txn_buf_size,
}

-- The flags of `lightfs_bstore_txn_begin` that it tells apart.
pub data BeginFlags : Type 0 where
  readonly sync_write may_write : BeginFlags

-- `__lightfs_bstore_txn_begin`, for the handler's counter `txn_id`: the new transaction and the
-- counter.
unfoldable pub lightfs_bstore_txn_begin : ℕ → BeginFlags → DbTxn × ℕ
lightfs_bstore_txn_begin id readonly = (
  record lightfs_txn_init { state = record txn_created { read = true }; txn_id = id },
  add32 id 1,
)
lightfs_bstore_txn_begin id sync_write =
    (record lightfs_txn_init { state = record txn_created { sync = true } }, id)
lightfs_bstore_txn_begin id may_write = (lightfs_txn_init, id)

-- `alloc_txn_buf_key_from_dbt`.
abbrev pub with_key : TxnBuf → Dbt → TxnBuf
with_key b key = record b { key = take key.size key.buf; key_len = key.size % 2 ^ 16 }

abbrev pub is_wb : ReqType → Bool
is_wb data_set_wb = true
is_wb _ = false

-- The three ways to fill the buffer. `page` is the memory that `txn_buf->buf` points to: fresh from
-- the allocator, or the caller's page for LIGHTFS_DATA_SET_WB.
abbrev pub fill : TxnBuf → Dbt → List ℕ → ℕ → ReqType → TxnBuf
fill b value page off type =
    if value.size == 0
    then record b {
      type = type;
      off = off % 2 ^ 16;
      len = page_size;
      update = (page_size - off) % 2 ^ 16;
      buf = memset page off 0 (page_size - off);
    }
    else (if is_wb type then record b { type = type; off = 0; buf = page } else record b {
      off = off % 2 ^ 16;
      len = value.size;
      buf = memcpy page off value.buf value.size;
      type = type;
      update = value.size % 2 ^ 16;
    })

-- `txn->cnt++`, the size, and the end of the list.
abbrev pub enqueue : DbTxn → TxnBuf → DbTxn
enqueue t b = record t {
  cnt = add32 t.cnt 1;
  size = add32 t.size (calc_txn_buf_size b);
  txn_buf_list = t.txn_buf_list ++ (b ∷ []);
}

-- `lightfs_bstore_txn_insert`. Without a value `off` is the number of keys that are deleted.
unfoldable pub lightfs_bstore_txn_insert : DbTxn → Dbt → Option Dbt → List ℕ → ℕ → ReqType → DbTxn
lightfs_bstore_txn_insert t key none page off type =
    enqueue t (record (with_key lightfs_txn_buf_init key) {
      txn_id = t.txn_id;
      off = off % 2 ^ 16;
      len = page_size * off % 2 ^ 32;
      buf = [];
      type = type;
    })
lightfs_bstore_txn_insert t key (some value) page off type =
    enqueue t
      (record (fill (record (with_key lightfs_txn_buf_init key) { txn_id = t.txn_id }) value page
        off type) { len = 4096 })
