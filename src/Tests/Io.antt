-- ===== src/Tests/Io.antt =====
-- The commands on concrete input: two slots, of which the second is in use, and a device that answers
-- four bytes.
use kevin.Base.{replicate, [], ◌∷◌, ◌≡◌, ◌≢◌, ◌⊎◌, refl, arith, length, suc, done, blocked}
use kevin.Txn.{TxnBuf, meta_get, lightfs_txn_buf_init}
use kevin.Cheeze.{empty_user}
use kevin.Cheeze.Slots.{IsValid}
use kevin.Shm.{Shm, Device}
use kevin.Io.{lightfs_io_get, lightfs_io_get_multi, lightfs_io_sync_put}
use kevin.Io.Issue.{IsIdle}
use kevin.Io.Serve.{Gets, GetsMulti, lightfs_io_get_lem, lightfs_io_get_multi_lem}
use kevin.Io.SyncPut.{lightfs_io_sync_put_lem}
use kevin.Tests.Slots.{one_used, one_used-IsValid, page0, page1}

abbrev four_bytes : Device
four_bytes user buf = (4, 1 ∷ 2 ∷ 3 ∷ 4 ∷ [])

abbrev two_slots : Shm
two_slots = record {
  queue = one_used;
  data_addr = (page0, page1);
  send_event = 0 ∷ 0 ∷ [];
  recv_event = 0 ∷ 0 ∷ [];
  seq_addr = 0 ∷ 0 ∷ [];
  ureq_addr = empty_user ∷ empty_user ∷ [];
  bufs = replicate 64 0 ∷ replicate 64 0 ∷ [];
  ra_done = [];
}

two_slots-IsIdle : IsIdle 2 two_slots
two_slots-IsIdle = record {
  ready = record {
    few = omega arith;
    quiet = λ i. ground arith;
    recv_room = omega arith;
    ureq_room = omega arith;
    buf_room = omega arith;
    req_room = refl;
  };
  valid = one_used-IsValid;
}

abbrev wanted : TxnBuf
wanted = record lightfs_txn_buf_init {
  key = 109 ∷ 47 ∷ [];
  key_len = 2;
  type = meta_get;
  len = 4;
  buf = 0 ∷ 0 ∷ 0 ∷ 0 ∷ 0 ∷ [];
}

lightfs_io_get_lem_example :
    ((length two_slots.queue.processing_tag_list ≡ 2)
      × (lightfs_io_get four_bytes two_slots empty_user wanted ≡ blocked))
    ⊎ Gets four_bytes 2 two_slots empty_user two_slots-IsIdle wanted
        (lightfs_io_get four_bytes two_slots empty_user wanted)
lightfs_io_get_lem_example =
    lightfs_io_get_lem four_bytes 2 two_slots empty_user two_slots-IsIdle wanted

lightfs_io_get_multi_lem_example :
    ((length two_slots.queue.processing_tag_list ≡ 2)
      × (lightfs_io_get_multi four_bytes two_slots empty_user wanted ≡ blocked))
    ⊎ GetsMulti four_bytes 2 two_slots empty_user two_slots-IsIdle wanted
        (lightfs_io_get_multi four_bytes two_slots empty_user wanted)
lightfs_io_get_multi_lem_example =
    lightfs_io_get_multi_lem four_bytes 2 two_slots empty_user two_slots-IsIdle wanted

one_free : length two_slots.queue.processing_tag_list ≢ 2
one_free = λ e. absurd (omega (arith, e))

lightfs_io_sync_put_lem_example :
    (after : Shm) × (lightfs_io_sync_put four_bytes two_slots empty_user wanted ≡ done after)
    × (after.queue.processing_tag_list ≡ two_slots.queue.processing_tag_list)
    × (length after.queue.free_tag_list ≡ length two_slots.queue.free_tag_list)
    × (after.queue.slots ≡ suc (length after.queue.free_tag_list))
    × ¬ IsValid 2 after.queue
lightfs_io_sync_put_lem_example =
    lightfs_io_sync_put_lem four_bytes 2 two_slots empty_user two_slots-IsIdle wanted one_free
