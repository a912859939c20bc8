-- ===== src/Wire/Bounds.antt =====
-- Where the transfer writes: inside the buffer, and no further than the group's size says.
use kevin.Base.{
  ℕ, ◌+◌, ◌%◌, ◌^◌, ◌≤◌, List, [], ◌∷◌, Bool, true, false, ◌||◌, ◌≡◌, refl, ap, arith, All, length,
}
use kevin.Txn.{
  ReqType, meta_set, data_set, data_seq_set, data_set_wb, meta_del, data_del, meta_update,
  data_update, data_del_multi, commit, meta_get, meta_sync_set, meta_cursor, meta_rename, data_get,
  data_cursor, data_rename, get_multi, get_multi_real, del_multi_real, txn_transfer,
  get_multi_reada, get_multi_reada_real, type_code, TxnBuf, DbTxn, DbCTxn,
}
use kevin.Txn.Size.{total_size}
use kevin.Wire.{
  Writer, le16, le32, lightfs_io_set_txn_id, lightfs_io_set_buf_set, lightfs_io_set_buf_meta_set,
  lightfs_io_set_buf_update, put_as, put_request, put_requests, put_txns, put_commit,
  lightfs_io_transfer,
}
use kevin.Wire.Within.{
  Within, memcpy-Within, IsRequest, has_value, del-Advances, del_multi-Advances, value-Advances,
}

-- What the sizes of transactions add up to: 8 bytes and their requests each.
unfoldable pub payload : List DbTxn → ℕ
payload [] = 0
payload (t ∷ ts) = 8 + total_size t.txn_buf_list + payload ts

module _ (old : List ℕ) (limit : ℕ) (room : limit ≤ length old) where
  -- The same at most: what the index moves by is bounded, not fixed.
  abbrev pub AtMost : Writer → Writer → ℕ → Type 0
  AtMost w w' n = w.idx + n ≤ limit → Within old limit w'.buf × (w'.idx ≤ w.idx + n)

  set-AtMost :
      (w : Writer) (type : ReqType) (b : TxnBuf)
      → Within old limit w.buf
      → IsRequest b
      → (b.len ≡ 4096) × (length b.buf ≡ 4096)
      → AtMost w (lightfs_io_set_buf_set w type b) (7 + b.key_len + b.len)
  unfolding lightfs_io_set_buf_set
  set-AtMost w type b inside r page h =
      let (i1, e1) =
        value-Advances old limit room w type b (b.len % 2 ^ 16) (b.len % 2 ^ 16) inside r
          (omega (arith, page)) (omega (arith, page)) (omega (arith, page)) in
      (i1, omega (arith, e1, page))

  meta_set-AtMost :
      (w : Writer) (type : ReqType) (b : TxnBuf)
      → Within old limit w.buf
      → IsRequest b
      → (b.len ≡ 4096) × (length b.buf ≡ 4096)
      → AtMost w (lightfs_io_set_buf_meta_set w type b) (7 + b.key_len + b.len)
  unfolding lightfs_io_set_buf_meta_set
  meta_set-AtMost w type b inside r page h =
      let (i1, e1) =
        value-Advances old limit room w type b 152 152 inside r (omega (arith, page)) (omega arith)
          (omega (arith, page)) in
      (i1, omega (arith, e1, page))

  update-AtMost :
      (w : Writer) (type : ReqType) (b : TxnBuf)
      → Within old limit w.buf
      → IsRequest b
      → (b.len ≡ 4096) × (length b.buf ≡ 4096)
      → AtMost w (lightfs_io_set_buf_update w type b) (7 + b.key_len + b.len)
  unfolding lightfs_io_set_buf_update
  update-AtMost w type b inside r page h =
      let (i1, e1) =
        value-Advances old limit room w type b b.update 4096 inside r (omega (arith, page))
          (omega arith) (omega (arith, page)) in
      (i1, omega (arith, e1, page))

  pub put_as-AtMost :
      (w : Writer) (cnt : ℕ) (b : TxnBuf) (type : ReqType)
      → Within old limit w.buf
      → IsRequest b
      → b.type ≡ type
      → AtMost w (put_as (w, cnt) b type).0 (7 + b.key_len + b.len)
  unfolding put_as
  put_as-AtMost w cnt b meta_get inside r e h = (inside, omega arith)
  put_as-AtMost w cnt b meta_set inside r e h =
      meta_set-AtMost w meta_set b inside r (r.page (ap has_value e)) h
  put_as-AtMost w cnt b meta_sync_set inside r e h = (inside, omega arith)
  put_as-AtMost w cnt b meta_del inside r e h =
      let (i, x) = del-Advances old limit room w meta_del b inside r (omega arith) in
      (i, omega (arith, x))
  put_as-AtMost w cnt b meta_cursor inside r e h = (inside, omega arith)
  put_as-AtMost w cnt b meta_update inside r e h =
      update-AtMost w meta_update b inside r (r.page (ap has_value e)) h
  put_as-AtMost w cnt b meta_rename inside r e h = (inside, omega arith)
  put_as-AtMost w cnt b data_get inside r e h = (inside, omega arith)
  put_as-AtMost w cnt b data_set inside r e h =
      set-AtMost w data_set b inside r (r.page (ap has_value e)) h
  put_as-AtMost w cnt b data_seq_set inside r e h =
      set-AtMost w data_seq_set b inside r (r.page (ap has_value e)) h
  put_as-AtMost w cnt b data_del inside r e h =
      let (i, x) = del-Advances old limit room w data_del b inside r (omega arith) in
      (i, omega (arith, x))
  put_as-AtMost w cnt b data_del_multi inside r e h =
      let (i, x) = del_multi-Advances old limit room w data_del_multi b inside r (omega arith) in
      (i, omega (arith, x))
  put_as-AtMost w cnt b data_cursor inside r e h = (inside, omega arith)
  put_as-AtMost w cnt b data_update inside r e h =
      update-AtMost w data_update b inside r (r.page (ap has_value e)) h
  put_as-AtMost w cnt b data_rename inside r e h = (inside, omega arith)
  put_as-AtMost w cnt b commit inside r e h = (inside, omega arith)
  put_as-AtMost w cnt b get_multi inside r e h = (inside, omega arith)
  put_as-AtMost w cnt b data_set_wb inside r e h =
      set-AtMost w data_set b inside r (r.page (ap has_value e)) h
  put_as-AtMost w cnt b get_multi_real inside r e h = (inside, omega arith)
  put_as-AtMost w cnt b del_multi_real inside r e h = (inside, omega arith)
  put_as-AtMost w cnt b txn_transfer inside r e h = (inside, omega arith)
  put_as-AtMost w cnt b get_multi_reada inside r e h = (inside, omega arith)
  put_as-AtMost w cnt b get_multi_reada_real inside r e h = (inside, omega arith)

  pub put_requests-AtMost :
      (w : Writer) (cnt : ℕ) (bs : List TxnBuf)
      → Within old limit w.buf
      → All IsRequest bs
      → AtMost w (put_requests (w, cnt) bs).0 (total_size bs)
  unfolding put_requests put_request total_size
  put_requests-AtMost w cnt [] inside rs h = (inside, omega arith)
  put_requests-AtMost w cnt (b ∷ bs) inside rs h =
      let (i1, e1) =
        put_as-AtMost w cnt b b.type inside rs.0 refl
          (omega (arith, rs.0.key_small, rs.0.len_small)) in
      let s = put_request (w, cnt) b in
      let (i2, e2) =
        put_requests-AtMost s.0 s.1 bs i1 rs.1
          (omega (arith, e1, rs.0.key_small, rs.0.len_small)) in
      (i2, omega (arith, e1, e2, rs.0.key_small, rs.0.len_small))

  pub put_txns-AtMost :
      (w : Writer) (cnt : ℕ) (ts : List DbTxn)
      → Within old limit w.buf
      → All (λ t. All IsRequest t.txn_buf_list) ts
      → AtMost w (put_txns (w, cnt) ts).0 (payload ts)
  unfolding put_txns payload
  put_txns-AtMost w cnt [] inside rs h = (inside, omega arith)
  put_txns-AtMost w cnt (t ∷ ts) inside rs h =
      let (i1, e1) = put_requests-AtMost w cnt t.txn_buf_list inside rs.0 (omega arith) in
      let s = put_requests (w, cnt) t.txn_buf_list in
      let (i2, e2) = put_txns-AtMost s.0 s.1 ts i1 rs.1 (omega (arith, e1)) in
      (i2, omega (arith, e1, e2))

  put_commit-AtMost :
      (w : Writer) (cnt : ℕ) (flush : Bool)
      → Within old limit w.buf
      → AtMost w (put_commit (w, cnt) flush).0 1
  unfolding put_commit
  put_commit-AtMost w cnt false inside h = (inside, omega arith)
  put_commit-AtMost w cnt true inside h = (
    memcpy-Within old limit w.buf w.idx (type_code commit ∷ []) 1 room inside (omega arith)
        (omega arith),
    omega arith,
  )

-- For a group of requests that are ready to be sent, whose transactions' sizes and seven bytes more
-- fit in the buffer, the transfer changes at most that many bytes at the buffer's start and nothing
-- behind them, and the length that it sends is no larger.
pub lightfs_io_transfer-Within :
    (buf : List ℕ) (c : DbCTxn)
    → All (λ t. All IsRequest t.txn_buf_list) c.txn_list
    → 7 + payload c.txn_list ≤ length buf
    → Within buf (7 + payload c.txn_list) (lightfs_io_transfer buf c).buf
      × ((lightfs_io_transfer buf c).idx ≤ 7 + payload c.txn_list)
unfolding lightfs_io_transfer
lightfs_io_transfer-Within buf c rs fits =
    let limit = 7 + payload c.txn_list in
    let room : limit ≤ length buf = fits in
    let start = lightfs_io_set_txn_id (record { buf = buf; idx = 0; bug = false }) c.txn_id in
    let i0 =
      memcpy-Within buf limit buf 0 (le32 c.txn_id) 4 room
        (record { same_length = refl; beyond = λ i le. refl }) (omega arith) (omega arith) in
    let (i1, e1) =
      put_txns-AtMost buf limit room (record start { idx = start.idx + 2 }) 0 c.txn_list i0 rs
        (omega arith) in
    let s = put_txns (record start { idx = start.idx + 2 }, 0) c.txn_list in
    let (i2, e2) =
      put_commit-AtMost buf limit room s.0 s.1 (c.state.flush || c.state.ordered) i1
        (omega (arith, e1)) in
    let t = put_commit s (c.state.flush || c.state.ordered) in
    (
      memcpy-Within buf limit t.0.buf 4 (le16 t.1) 2 room i2 (omega arith) (omega arith),
      omega (arith, e1, e2),
    )
