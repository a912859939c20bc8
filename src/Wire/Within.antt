-- ===== src/Wire/Within.antt =====
-- What one write of the transfer changes of the buffer.
use kevin.Base.{
  ℕ, ◌+◌, ◌^◌, ◌≤◌, ◌<◌, List, [], ◌∷◌, Bool, true, false, ◌≡◌, ◌∙◌, arith, length, get_or,
}
use kevin.Key.{memcpy}
use kevin.Key.Memory.{length-memcpy, get_or-memcpy_beyond}
use kevin.Txn.{
  ReqType, meta_set, data_set, data_seq_set, data_set_wb, meta_update, data_update, type_code,
  TxnBuf,
}
use kevin.Wire.{
  Writer, le16, lightfs_io_set_type, lightfs_io_set_u16, lightfs_io_set_value,
  lightfs_io_set_buf_del, lightfs_io_set_buf_del_multi,
}

-- A buffer that differs from `old` only below `limit`.
pub record Within (old : List ℕ) (limit : ℕ) (buf : List ℕ) : Type 0 where
  pub same_length : length buf ≡ length old
  pub beyond : (i : ℕ) → limit ≤ i → get_or buf i 0 ≡ get_or old i 0

pub memcpy-Within :
    (old : List ℕ) (limit : ℕ) (buf : List ℕ) (off : ℕ) (src : List ℕ) (n : ℕ)
    → limit ≤ length old
    → Within old limit buf
    → off + n ≤ limit
    → n ≤ length src
    → Within old limit (memcpy buf off src n)
memcpy-Within old limit buf off src n room w h k = record {
  same_length = length-memcpy buf off src n (omega (arith, w.same_length)) k ∙ w.same_length;
  beyond = λ i le.
      get_or-memcpy_beyond buf off src n i (omega (arith, w.same_length)) k (omega arith)
      ∙ w.beyond i le;
}

-- A request of a transaction that is ready to be sent: the key buffer holds the key, and where the
-- device gets a value, the value buffer is a page.
abbrev pub has_value : ReqType → Bool
has_value meta_set = true
has_value data_set = true
has_value data_seq_set = true
has_value data_set_wb = true
has_value meta_update = true
has_value data_update = true
has_value _ = false

pub record IsRequest (b : TxnBuf) : Type 0 where
  pub key_room : b.key_len ≤ length b.key
  pub key_small : b.key_len < 2 ^ 16
  pub len_small : b.len < 2 ^ 31
  pub page : has_value b.type ≡ true → (b.len ≡ 4096) × (length b.buf ≡ 4096)

module _ (old : List ℕ) (limit : ℕ) (room : limit ≤ length old) where
  -- The first `n` bytes from the index on may be written, and are behind the index afterwards.
  abbrev pub Advances : Writer → Writer → ℕ → Type 0
  Advances w w' n = w.idx + n ≤ limit → Within old limit w'.buf × (w'.idx ≡ w.idx + n)

  pub del-Advances :
      (w : Writer) (type : ReqType) (b : TxnBuf)
      → Within old limit w.buf
      → IsRequest b
      → Advances w (lightfs_io_set_buf_del w type b) (3 + b.key_len)
  unfolding lightfs_io_set_buf_del
  del-Advances w type b inside r h =
      let w1 = lightfs_io_set_type w type in
      let w2 = lightfs_io_set_u16 w1 b.key_len in
      let i1 =
        memcpy-Within old limit w.buf w.idx (type_code type ∷ []) 1 room inside (omega arith)
          (omega arith) in
      let i2 =
        memcpy-Within old limit w1.buf w1.idx (le16 b.key_len) 2 room i1 (omega arith)
          (omega arith) in
      (
        memcpy-Within old limit w2.buf w2.idx b.key b.key_len room i2 (omega arith) r.key_room,
        omega arith,
      )

  pub del_multi-Advances :
      (w : Writer) (type : ReqType) (b : TxnBuf)
      → Within old limit w.buf
      → IsRequest b
      → Advances w (lightfs_io_set_buf_del_multi w type b) (5 + b.key_len)
  unfolding lightfs_io_set_buf_del_multi
  del_multi-Advances w type b inside r h =
      let (i1, e1) = del-Advances w type b inside r (omega arith) in
      let w1 = lightfs_io_set_buf_del w type b in
      (
        memcpy-Within old limit w1.buf w1.idx (le16 b.off) 2 room i1 (omega (arith, e1))
            (omega arith),
        omega (arith, e1),
      )

  -- The value's length and the value behind the fields of the key.
  pub value-Advances :
      (w : Writer) (type : ReqType) (b : TxnBuf) (len n : ℕ)
      → Within old limit w.buf
      → IsRequest b
      → n ≤ length b.buf
      → n ≤ 4096
      → w.idx + (7 + b.key_len + 4096) ≤ limit
      → Within old limit
          (lightfs_io_set_value
            (lightfs_io_set_u16 (lightfs_io_set_buf_del_multi w type b) len)
            n
            b.buf).buf
        × ((lightfs_io_set_u16 (lightfs_io_set_buf_del_multi w type b) len).idx
            ≡ w.idx + (7 + b.key_len))
  value-Advances w type b len n inside r have small h =
      let (i1, e1) = del_multi-Advances w type b inside r (omega arith) in
      let w1 = lightfs_io_set_buf_del_multi w type b in
      let w2 = lightfs_io_set_u16 w1 len in
      let i2 =
        memcpy-Within old limit w1.buf w1.idx (le16 len) 2 room i1 (omega (arith, e1))
          (omega arith) in
      (
        memcpy-Within old limit w2.buf w2.idx b.buf n room i2 (omega (arith, e1)) have,
        omega (arith, e1),
      )
