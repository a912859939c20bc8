-- ===== src/Io.antt =====
-- The commands of kevinfs/lightfs_io.c that read, put and commit through a slot of the device.
-- lightfs_io_transfer is in Wire.
pub mod Issue
pub mod Serve
pub mod SyncPut
use kevin.Base.{
  ℕ, ◌+◌, ◌%◌, ◌^◌, List, [], ◌∷◌, Option, none, some, Bool, true, false, Outcome, done, ◌>>=◌,
  ◌==◌, if◌then◌else◌, ℤ, pos, get_or, set,
}
use kevin.Key.{memcpy}
use kevin.Txn.{ReqType, get_multi, TxnBuf}
use kevin.Wire.{
  Writer, lightfs_io_set_txn_id, lightfs_io_set_u16, lightfs_io_set_type, lightfs_io_set_buf_get,
  lightfs_io_set_buf_meta_set, lightfs_io_set_buf_iter, lightfs_io_set_buf_get_multi,
}
use kevin.RbKv.{db_notfound}
use kevin.Cheeze.{ReqUser, cheeze_prepare_io}
use kevin.Shm.{Shm, Device, req_of, set_req, cheeze_free_io, cheeze_io}

-- `lightfs_io_set_cheeze_req`; the buffer is the slot's in every call.
abbrev pub lightfs_io_set_cheeze_req : ReqUser → ℕ → Bool → ℕ → ReqUser
lightfs_io_set_cheeze_req user buf_len ret_buf ubuf_len = record user {
  buf_len = buf_len;
  ret_buf = ret_buf;
  ubuf_len = ubuf_len;
}

-- The number and the count that every command begins with.
abbrev pub begun : List ℕ → ℕ → ℕ → Writer
begun buf txn_id cnt =
    lightfs_io_set_u16 (lightfs_io_set_txn_id (record { buf = buf; idx = 0; bug = false }) txn_id)
      cnt

-- The request as it is before `cheeze_io`: the slot's buffer has what `write` leaves.
abbrev pub filled : Shm → ℕ → (List ℕ → Writer) → Bool → ℕ → Shm
filled s id write ret_buf ubuf_len =
    let w = write (get_or s.bufs id []) in
    let r = req_of s id in
    set_req (record s { bufs = set s.bufs id w.buf }) id
      (record r { user = lightfs_io_set_cheeze_req r.user w.idx ret_buf ubuf_len })

-- The steps that the commands share: a slot, the request and the exchange. The state and the slot.
unfoldable pub issue :
    Device → Shm → ReqUser → Bool → Option ℕ → (List ℕ → Writer) → Bool → ℕ → Outcome (Shm × ℕ)
issue device s user sync extra write ret_buf ubuf_len = do
  (queue, id, seq) ← cheeze_prepare_io s.data_addr s.queue user sync extra false
  s ← cheeze_io device (filled (record s { queue = queue }) id write ret_buf ubuf_len) id seq
  done (s, id)

-- `lightfs_io_get`: the state, `txn_buf->ret` and the bytes of `txn_buf->buf`. `user` is the request on
-- the stack, not initialised.
unfoldable pub lightfs_io_get : Device → Shm → ReqUser → TxnBuf → Outcome (Shm × ℤ × List ℕ)
lightfs_io_get device s user b = do
  (s, id) ←
      issue device s user true none (λ buf. lightfs_io_set_buf_get (begun buf b.txn_id 1) b.type b)
        true b.len
  let len = (req_of s id).user.ubuf_len
  done (
      if len == 0
      then (cheeze_free_io s id, db_notfound, b.buf)
      else (cheeze_free_io s id, pos len, memcpy b.buf 0 (get_or s.bufs id []) len))

-- `lightfs_io_sync_put`, which wants no bytes back.
unfoldable pub lightfs_io_sync_put : Device → Shm → ReqUser → TxnBuf → Outcome Shm
lightfs_io_sync_put device s user b = do
  (s, id) ←
      issue device s user true none
        (λ buf. lightfs_io_set_buf_meta_set (begun buf b.txn_id 1) b.type b) false 0
  done (cheeze_free_io s id)

-- `lightfs_io_iter`: the state, `txn_buf->ret` and the slot, which the caller keeps.
unfoldable pub lightfs_io_iter : Device → Shm → ReqUser → TxnBuf → Outcome (Shm × ℤ × ℕ)
lightfs_io_iter device s user b = do
  (s, id) ←
      issue device s user true none (λ buf. lightfs_io_set_buf_iter (begun buf b.txn_id 1) b.type b)
        true 0
  let len = (req_of s id).user.ubuf_len
  done (s, (if len == 2 then db_notfound else pos len), id)

-- `lightfs_io_commit`.
unfoldable pub lightfs_io_commit : Device → Shm → ReqUser → TxnBuf → Outcome Shm
lightfs_io_commit device s user b = do
  (s, id) ←
      issue device s user true none (λ buf. lightfs_io_set_type (begun buf b.txn_id 1) b.type) true
        0
  done (cheeze_free_io s id)

-- `lightfs_io_get_multi`: the state and `txn_buf->ret`, the slot where there is an answer.
unfoldable pub lightfs_io_get_multi : Device → Shm → ReqUser → TxnBuf → Outcome (Shm × ℤ)
lightfs_io_get_multi device s user b = do
  (s, id) ←
      issue device s user true none
        (λ buf. lightfs_io_set_buf_get_multi (begun buf b.txn_id b.len) b.type b) true 0
  done
      (if (req_of s id).user.ubuf_len == 0 then (cheeze_free_io s id, db_notfound) else (s, pos id))

-- `lightfs_io_get_multi_reada`, for a readahead entry: the state and the entry's tag.
unfoldable pub lightfs_io_get_multi_reada : Device → Shm → ReqUser → TxnBuf → ℕ → Outcome (Shm × ℕ)
lightfs_io_get_multi_reada device s user b entry =
    issue device s user false (some entry)
      (λ buf. lightfs_io_set_buf_get_multi (begun buf b.txn_id b.len) get_multi b) true 0
