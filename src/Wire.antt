-- ===== src/Wire.antt =====
-- kevinfs/lightfs_io.h and `lightfs_io_transfer` of kevinfs/lightfs_io.c: how a group transaction is
-- laid out in the buffer that the device reads. `cheeze_prepare_io` and `cheeze_io`, which hand out
-- and send the buffer, are outside: the buffer is an argument and a result.
pub mod Within
pub mod Bounds
pub mod Decode
pub mod Appends
pub mod Emits
pub mod Sends
pub mod Roundtrip
use kevin.Base.{
  ℕ, ◌+◌, ◌/◌, ◌%◌, ◌^◌, List, [], ◌∷◌, ◌++◌, Bool, true, false, ◌==◌, if◌then◌else◌, ◌||◌, ltb,
}
use kevin.Key.{memcpy}
use kevin.Txn.{
  ReqType, meta_set, data_set, data_seq_set, data_set_wb, meta_del, data_del, meta_update,
  data_update, data_del_multi, commit, type_code, TxnBuf, DbTxn, DbCTxn,
}

-- The buffer, the index behind the last byte written, and whether a BUG_ON was hit.
pub record Writer : Type 0 where
  pub buf : List ℕ
  pub idx : ℕ
  pub bug : Bool

-- Little-endian numbers, as the CPU stores them.
abbrev pub le16 : ℕ → List ℕ
le16 v = v % 256 ∷ v / 256 % 256 ∷ []

abbrev pub le32 : ℕ → List ℕ
le32 v = le16 (v % 65536) ++ le16 (v / 65536 % 65536)

abbrev pub lightfs_io_set_txn_id : Writer → ℕ → Writer
lightfs_io_set_txn_id w txn_id = record w {
  buf = memcpy w.buf w.idx (le32 txn_id) 4;
  idx = w.idx + 4;
}

abbrev pub lightfs_io_set_type : Writer → ReqType → Writer
lightfs_io_set_type w type = record w {
  buf = memcpy w.buf w.idx (type_code type ∷ []) 1;
  idx = w.idx + 1;
  bug = w.bug || ltb 16 (type_code type);
}

-- `lightfs_io_set_key_len`, `lightfs_io_set_off` and `lightfs_io_set_value_len`.
abbrev pub lightfs_io_set_u16 : Writer → ℕ → Writer
lightfs_io_set_u16 w v = record w { buf = memcpy w.buf w.idx (le16 v) 2; idx = w.idx + 2 }

-- `lightfs_io_set_key` and `lightfs_io_set_value`.
abbrev pub lightfs_io_set_value : Writer → ℕ → List ℕ → Writer
lightfs_io_set_value w len value = record w {
  buf = memcpy w.buf w.idx value len;
  idx = w.idx + len;
}

-- `lightfs_io_meta_set_value`: the index moves on by a page.
abbrev pub lightfs_io_meta_set_value : Writer → ℕ → List ℕ → Writer
lightfs_io_meta_set_value w len value = record w {
  buf = memcpy w.buf w.idx value len;
  idx = w.idx + 4096;
}

-- `lightfs_io_set_buf_del`: the three fields that every request begins with.
unfoldable pub lightfs_io_set_buf_del : Writer → ReqType → TxnBuf → Writer
lightfs_io_set_buf_del w type b =
    lightfs_io_set_value (lightfs_io_set_u16 (lightfs_io_set_type w type) b.key_len) b.key_len b.key

unfoldable pub lightfs_io_set_buf_del_multi : Writer → ReqType → TxnBuf → Writer
lightfs_io_set_buf_del_multi w type b = lightfs_io_set_u16 (lightfs_io_set_buf_del w type b) b.off

-- The length that `lightfs_io_set_buf_set` writes is the value's, in 16 bits, and so is the count of
-- bytes that it copies.
unfoldable pub lightfs_io_set_buf_set : Writer → ReqType → TxnBuf → Writer
lightfs_io_set_buf_set w type b =
    let len = b.len % 2 ^ 16 in
    lightfs_io_set_value (lightfs_io_set_u16 (lightfs_io_set_buf_del_multi w type b) len) len b.buf

unfoldable pub lightfs_io_set_buf_meta_set : Writer → ReqType → TxnBuf → Writer
lightfs_io_set_buf_meta_set w type b =
    lightfs_io_meta_set_value (lightfs_io_set_u16 (lightfs_io_set_buf_del_multi w type b) 152) 152
      b.buf

unfoldable pub lightfs_io_set_buf_update : Writer → ReqType → TxnBuf → Writer
lightfs_io_set_buf_update w type b =
    lightfs_io_set_value (lightfs_io_set_u16 (lightfs_io_set_buf_del_multi w type b) b.update) 4096
      b.buf

unfoldable pub lightfs_io_set_buf_get : Writer → ReqType → TxnBuf → Writer
lightfs_io_set_buf_get w type b = lightfs_io_set_u16 (lightfs_io_set_buf_del w type b) b.len

unfoldable pub lightfs_io_set_buf_iter : Writer → ReqType → TxnBuf → Writer
lightfs_io_set_buf_iter w type b = lightfs_io_set_u16 (lightfs_io_set_buf_del_multi w type b) b.len

unfoldable pub lightfs_io_set_buf_get_multi : Writer → ReqType → TxnBuf → Writer
lightfs_io_set_buf_get_multi w type b =
    lightfs_io_set_value (lightfs_io_set_u16 (lightfs_io_set_type w type) b.key_len) b.key_len b.key

-- The `switch` on the type of a request: the writer and the count. Other types are passed over.
unfoldable pub put_as : Writer × ℕ → TxnBuf → ReqType → Writer × ℕ
put_as (w, cnt) b meta_set = (lightfs_io_set_buf_meta_set w meta_set b, (cnt + 1) % 2 ^ 16)
put_as (w, cnt) b data_set = (lightfs_io_set_buf_set w data_set b, (cnt + 1) % 2 ^ 16)
put_as (w, cnt) b data_seq_set = (lightfs_io_set_buf_set w data_seq_set b, (cnt + 1) % 2 ^ 16)
put_as (w, cnt) b data_set_wb = (lightfs_io_set_buf_set w data_set b, (cnt + 1) % 2 ^ 16)
put_as (w, cnt) b meta_del = (lightfs_io_set_buf_del w meta_del b, (cnt + 1) % 2 ^ 16)
put_as (w, cnt) b data_del = (lightfs_io_set_buf_del w data_del b, (cnt + 1) % 2 ^ 16)
put_as (w, cnt) b meta_update = (lightfs_io_set_buf_update w meta_update b, (cnt + 1) % 2 ^ 16)
put_as (w, cnt) b data_update = (lightfs_io_set_buf_update w data_update b, (cnt + 1) % 2 ^ 16)
put_as (w, cnt) b data_del_multi =
    (lightfs_io_set_buf_del_multi w data_del_multi b, (cnt + 1) % 2 ^ 16)
put_as s b _ = s

-- One request of the loop, with its BUG_ON for a count of 0.
unfoldable pub put_request : Writer × ℕ → TxnBuf → Writer × ℕ
put_request s b = let (w, cnt) = put_as s b b.type in (record w { bug = w.bug || (cnt == 0) }, cnt)

unfoldable pub put_requests : Writer × ℕ → List TxnBuf → Writer × ℕ
put_requests s [] = s
put_requests s (b ∷ bs) = put_requests (put_request s b) bs

unfoldable pub put_txns : Writer × ℕ → List DbTxn → Writer × ℕ
put_txns s [] = s
put_txns s (t ∷ ts) = put_txns (put_requests s t.txn_buf_list) ts

-- The commit record that ends a group to be flushed, and an ordered one.
unfoldable pub put_commit : Writer × ℕ → Bool → Writer × ℕ
put_commit s false = s
put_commit (w, cnt) true = (lightfs_io_set_type w commit, (cnt + 1) % 2 ^ 16)

-- `lightfs_io_transfer`: the buffer that is sent, its length `buf_idx`, and whether a BUG_ON was hit.
unfoldable pub lightfs_io_transfer : List ℕ → DbCTxn → Writer
lightfs_io_transfer buf c =
    let start = lightfs_io_set_txn_id (record { buf = buf; idx = 0; bug = false }) c.txn_id in
    let body = put_txns (record start { idx = start.idx + 2 }, 0) c.txn_list in
    let (w, cnt) = put_commit body (c.state.flush || c.state.ordered) in
    record w { buf = memcpy w.buf 4 (le16 cnt) 2 }
