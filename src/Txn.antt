-- ===== src/Txn.antt =====
-- The transactions of kevinfs/lightfs_txn_hdlr.c, with their types from kevinfs/db.h and lightfs.h
-- and the size arithmetic of lightfs_txn_hdlr.h. The handler's state is in `Txn/State.antt`, its
-- loop in `Txn/Handler.antt`.
pub mod Insert
pub mod State
pub mod Handler
pub mod Run
pub mod Transfer
pub mod Passes
pub mod SyncPasses
pub mod Step
pub mod Fifo
pub mod Ends
pub mod Drain
pub mod Size
pub mod Filter
use kevin.Base.{
  ℕ, ◌+◌, ◌-◌, ◌%◌, ◌^◌, ◌*◌, List, [], Bool, true, false, Option, none, some, if◌then◌else◌, ltb,
  leb,
}
use kevin.Bloom.{Bloomfilter, bloomfilter_init}

-- `enum lightfs_req_type`, with the prefix LIGHTFS_ dropped.
pub data ReqType : Type 0 where
  meta_get meta_set meta_sync_set meta_del meta_cursor meta_update meta_rename : ReqType
  data_get data_set data_seq_set data_del data_del_multi data_cursor data_update : ReqType
  data_rename commit get_multi data_set_wb get_multi_real del_multi_real : ReqType
  txn_transfer get_multi_reada get_multi_reada_real : ReqType

-- The numbers that C gives to the constants.
abbrev pub type_code : ReqType → ℕ
type_code meta_get = 0
type_code meta_set = 1
type_code meta_sync_set = 2
type_code meta_del = 3
type_code meta_cursor = 4
type_code meta_update = 5
type_code meta_rename = 6
type_code data_get = 7
type_code data_set = 8
type_code data_seq_set = 9
type_code data_del = 10
type_code data_del_multi = 11
type_code data_cursor = 12
type_code data_update = 13
type_code data_rename = 14
type_code commit = 15
type_code get_multi = 16
type_code data_set_wb = 17
type_code get_multi_real = 18
type_code del_multi_real = 19
type_code txn_transfer = 20
type_code get_multi_reada = 21
type_code get_multi_reada_real = 22

-- The bits of `enum lightfs_txn_state` that the code reads or sets: `|= TXN_SYNC` sets `sync`, and
-- `& TXN_SYNC` reads it. TXN_CREATED is 0, no bit at all.
pub record TxnState : Type 0 where
  pub read : Bool
  pub sync : Bool
  pub committed : Bool
  pub transfering : Bool
  pub flush : Bool
  pub ordered : Bool
  pub orderless : Bool

abbrev pub txn_created : TxnState
txn_created = record {
  read = false;
  sync = false;
  committed = false;
  transfering = false;
  flush = false;
  ordered = false;
  orderless = false;
}

-- `uint32_t` arithmetic.
abbrev pub u32 : ℕ
u32 = 2 ^ 32

abbrev pub add32 : ℕ → ℕ → ℕ
add32 a b = (a + b) % u32

abbrev pub sub32 : ℕ → ℕ → ℕ
sub32 a b = (a + u32 - b % u32) % u32

abbrev pub page_size : ℕ
page_size = 4096

abbrev pub c_txn_limit_bytes : ℕ
c_txn_limit_bytes = 1569760

abbrev pub c_txn_committing_limit : ℕ
c_txn_committing_limit = 70

abbrev pub running_c_txn_limit : ℕ
running_c_txn_limit = 16

abbrev pub c_txn_bloom_m_bytes : ℕ
c_txn_bloom_m_bytes = 308

abbrev pub c_txn_bloom_k : ℕ
c_txn_bloom_k = 3

-- `DB_TXN_BUF`: one request of a transaction. `buf` holds the bytes that it points to.
pub record TxnBuf : Type 0 where
  pub txn_id : ℕ
  pub key : List ℕ
  pub key_len : ℕ
  pub off : ℕ
  pub len : ℕ
  pub update : ℕ
  pub type : ReqType
  pub buf : List ℕ

-- `DB_TXN`.
pub record DbTxn : Type 0 where
  pub txn_id : ℕ
  pub cnt : ℕ
  pub size : ℕ
  pub state : TxnState
  pub txn_buf_list : List TxnBuf

-- `DB_C_TXN`: a group of transactions that goes to the device as one.
pub record DbCTxn : Type 0 where
  pub txn_id : ℕ
  pub txn_list : List DbTxn
  pub size : ℕ
  pub state : TxnState
  pub filter : Bloomfilter
  pub workq_id : ℕ
  pub committing_cnt : ℕ
  pub cnt : ℕ

-- `lightfs_txn_init`.
abbrev pub lightfs_txn_init : DbTxn
lightfs_txn_init = record { txn_id = 0; cnt = 0; size = 8; state = txn_created; txn_buf_list = [] }

-- `lightfs_txn_buf_init`, which clears every field.
abbrev pub lightfs_txn_buf_init : TxnBuf
lightfs_txn_buf_init = record {
  txn_id = 0;
  key = [];
  key_len = 0;
  off = 0;
  len = 0;
  update = 0;
  type = meta_get;
  buf = [];
}

-- `lightfs_c_txn_init`.
unfoldable pub lightfs_c_txn_init : DbCTxn
lightfs_c_txn_init = record {
  txn_id = 0;
  txn_list = [];
  size = 0;
  state = txn_created;
  filter = bloomfilter_init (c_txn_bloom_m_bytes * 8) c_txn_bloom_k;
  workq_id = 0;
  committing_cnt = 0;
  cnt = 0;
}

-- `calc_txn_buf_size`: type, key_len, key, val_off, val_len and value.
abbrev pub calc_txn_buf_size : TxnBuf → ℕ
calc_txn_buf_size b = (1 + 2 + b.key_len + 2 + 2 + b.len) % u32

-- `diff_c_txn_and_txn`, in `uint32_t` arithmetic; the caller reads it as an `int`.
unfoldable pub diff_c_txn_and_txn : DbCTxn → DbTxn → ℕ
diff_c_txn_and_txn c t = sub32 (sub32 c_txn_limit_bytes c.size) t.size

-- The sign bit of a 32-bit `int`.
abbrev pub is_neg32 : ℕ → Bool
is_neg32 d = leb (2 ^ 31) d

-- `c_txn_is_available`.
unfoldable pub c_txn_is_available : DbCTxn → DbTxn → Bool
c_txn_is_available c t = if ltb c_txn_limit_bytes (add32 c.size t.size) then false else true
