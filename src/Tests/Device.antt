-- ===== src/Tests/Device.antt =====
-- The queue and the transfer on concrete input.
use kevin.Base.{
  ℕ, [], ◌∷◌, ◌++◌, none, some, ◌≡◌, ◌⊎◌, refl, ◌<◌, ◌≤◌, ◌+◌, arith, length, take, replicate,
  blocked,
}
use kevin.Txn.{TxnBuf, DbCTxn, lightfs_txn_init, lightfs_txn_buf_init, lightfs_c_txn_init, meta_del}
use kevin.Queue.{LightfsQueue, lightfs_queue_init, lightfs_queue_push, ids}
use kevin.Queue.Order.{occurs}
use kevin.Queue.Fifo.{
  IsValid, content, pushed, Ends, lightfs_queue_init-IsValid, pushed-IsValid,
  lightfs_queue_push-Fifo,
}
use kevin.Wire.{
  lightfs_io_transfer, lightfs_io_set_buf_del, put_as, put_request, put_requests, put_txns,
  put_commit,
}
use kevin.Wire.Within.{Within, IsRequest}
use kevin.Wire.Bounds.{payload, lightfs_io_transfer-Within}
use kevin.Txn.Size.{total_size}
use kevin.Base.{lt, ◌%◌, ◌^◌, false}
use kevin.Wire.Decode.{read_transfer}
use kevin.Wire.Sends.{IsSendable, group_images}
use kevin.Wire.Roundtrip.{request_count, read_transfer-lightfs_io_transfer}
use kevin.Key.{dbt_setup, env_keycmp}
use kevin.Key.Layout.{data_key}
use kevin.Key.Data.{data_key_order}

-- A queue of two places, and the same after a push.
abbrev two_places : LightfsQueue ℕ
two_places = record {
  free_tag_list = 0 ∷ 1 ∷ [];
  processing_tag_list = [];
  item_data = none ∷ none ∷ [];
  slots = 2;
  items = 0;
  cap = 2;
}

two_places-IsValid : IsValid two_places []
unfolding lightfs_queue_init ids
two_places-IsValid = lightfs_queue_init-IsValid 2

abbrev one_waits : LightfsQueue ℕ
one_waits = pushed two_places 7 0 (1 ∷ [])

one_waits-IsValid : IsValid one_waits []
one_waits-IsValid = pushed-IsValid two_places [] 7 0 (1 ∷ []) two_places-IsValid refl

lightfs_queue_push-Fifo_example :
    ((length (content one_waits) + 0 ≡ 2) × (lightfs_queue_push one_waits 8 ≡ blocked))
    ⊎ ((length (content one_waits) + 0 < 2)
        × (id : ℕ) × Ends
            (lightfs_queue_push one_waits 8)
            id
            []
            (content one_waits ++ (some 8 ∷ [])))
lightfs_queue_push-Fifo_example = lightfs_queue_push-Fifo one_waits [] 8 one_waits-IsValid

-- The second item was peeked and is given back.
abbrev one_taken : LightfsQueue ℕ
one_taken = record {
  free_tag_list = 0 ∷ [];
  processing_tag_list = [];
  item_data = none ∷ some 5 ∷ [];
  slots = 1;
  items = 0;
  cap = 2;
}

one_taken-IsValid : IsValid one_taken ([] ++ (1 ∷ []))
unfolding occurs
one_taken-IsValid = record {
  once = λ i h. ground (arith, h);
  never = λ i h. ground (arith, h);
  slots_are = refl;
  items_are = refl;
  room = refl;
  places = omega arith;
}

-- A group of one deletion, for a buffer of thirty bytes.
abbrev deletion : TxnBuf
deletion = record lightfs_txn_buf_init { key = 109 ∷ 47 ∷ []; key_len = 2; type = meta_del }

abbrev deleting : DbCTxn
deleting = record lightfs_c_txn_init {
  txn_id = 258;
  txn_list = record lightfs_txn_init { cnt = 1; size = 17; txn_buf_list = deletion ∷ [] } ∷ [];
}

deletion-IsRequest : IsRequest deletion
deletion-IsRequest = record {
  key_room = omega arith;
  key_small = omega arith;
  len_small = omega arith;
  page = λ e. absurd (ground (arith, e));
}

lightfs_io_transfer-Within_example :
    Within
      (replicate 30 0)
      (7 + payload deleting.txn_list)
      (lightfs_io_transfer (replicate 30 0) deleting).buf
    × ((lightfs_io_transfer (replicate 30 0) deleting).idx ≤ 7 + payload deleting.txn_list)
unfolding payload total_size lightfs_c_txn_init
lightfs_io_transfer-Within_example =
    lightfs_io_transfer-Within (replicate 30 0) deleting ((deletion-IsRequest, tt), tt)
      (omega arith)

deletion-IsSendable : IsSendable deletion
deletion-IsSendable = record { request = deletion-IsRequest; written = refl }

read_transfer-lightfs_io_transfer_example :
    (read_transfer (lightfs_io_transfer (replicate 30 0) deleting).buf
      ≡ (deleting.txn_id % 2 ^ 32, group_images deleting))
    × ((lightfs_io_transfer (replicate 30 0) deleting).bug ≡ false)
unfolding payload total_size lightfs_c_txn_init request_count
read_transfer-lightfs_io_transfer_example =
    read_transfer-lightfs_io_transfer (replicate 30 0) deleting ((deletion-IsSendable, tt), tt)
      (omega arith) (omega arith)

-- The bytes that are sent: the number, one request, and the deletion of the key "m/".
lightfs_io_transfer_bytes :
    take 11 (lightfs_io_transfer (replicate 30 0) deleting).buf
    ≡ 2 ∷ 1 ∷ 0 ∷ 0 ∷ 1 ∷ 0 ∷ 3 ∷ 2 ∷ 0 ∷ 109 ∷ 47 ∷ []
unfolding lightfs_io_transfer put_txns put_requests put_request put_as put_commit
    lightfs_io_set_buf_del lightfs_c_txn_init
lightfs_io_transfer_bytes = refl

-- Block 1 of inode 258 is before block 300 of the same inode.
data_key_order_example :
    env_keycmp (dbt_setup (data_key [] 258 1) 17) (dbt_setup (data_key [] 258 300) 17) ≡ lt
data_key_order_example =
    data_key_order [] [] 258 258 1 300 (omega arith) (omega arith) (omega arith) (omega arith)
