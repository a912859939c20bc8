-- ===== src/Txn/State.antt =====
-- The handler's state (`struct __lightfs_txn_hdlr` of kevinfs/lightfs.h) and the operations of
-- kevinfs/lightfs_txn_hdlr.c on group transactions. What the work queues hold and what the device
-- got are part of the state. `ordered_c_txn_list` and `orderless_c_txn_list` are left out: the code
-- links and unlinks groups there and never reads the lists. `children` is always empty, since
-- `lightfs_c_txn_make_relation` is compiled out.
use kevin.Base.{
  ℕ, ◌+◌, ◌-◌, ◌%◌, ◌^◌, List, [], ◌∷◌, ◌++◌, Bool, true, false, Option, none, ◌==◌, ltb,
  if◌then◌else◌, ◌&&◌, ◌||◌, length,
}
use kevin.Bloom.{Bloomfilter, bloomfilter_set}
use kevin.Txn.{TxnState, TxnBuf, DbTxn, DbCTxn, lightfs_c_txn_init, add32, sub32}

-- Where the handler's thread stands in its loop: at `process_sync`, at `skip_sync` with the lock
-- held, in `wait_for_txn` or at the head of the loop, or past the loop.
pub data Label : Type 0 where
  process_sync skip_sync wait_for_txn stopped : Label

pub record Hdlr : Type 0 where
  pub txn_id : ℕ
  pub txn_cnt : ℕ
  pub ordered_c_txn_cnt : ℕ
  pub orderless_c_txn_cnt : ℕ
  pub committing_c_txn_cnt : ℕ
  pub running_c_txn_cnt : ℕ
  pub running_c_txn_id : ℕ
  pub current_workq_id : ℕ
  pub txn_list : List DbTxn
  pub sync_txn_list : List DbTxn
  pub syncing_cnt : ℕ
  pub running : Bool
  pub running_c_txn : Option DbCTxn
  pub sync_c_txn : Option DbCTxn
  -- Work that is queued: the transfer of `sync_c_txn` on `workqs[0]`, and finished groups on
  -- `commit_workq`.
  pub transfer_work : Bool
  pub commit_work : List DbCTxn
  -- The synchronous groups whose callback gave `txn_spin` back and has yet to flush their count.
  pub ending : List DbCTxn
  -- The groups that the device got, in order, and the transactions whose caller was woken up.
  pub transferred : List DbCTxn
  pub completed : List DbTxn
  pub label : Label
  -- A BUG_ON was hit.
  pub bug : Bool

-- `txn_hdlr_alloc` and `lightfs_txn_hdlr_init`.
unfoldable pub txn_hdlr_alloc : Hdlr
txn_hdlr_alloc = record {
  txn_id = 1;
  txn_cnt = 0;
  ordered_c_txn_cnt = 0;
  orderless_c_txn_cnt = 0;
  committing_c_txn_cnt = 0;
  running_c_txn_cnt = 0;
  running_c_txn_id = 0;
  current_workq_id = 0;
  txn_list = [];
  sync_txn_list = [];
  syncing_cnt = 0;
  running = true;
  running_c_txn = none;
  sync_c_txn = none;
  transfer_work = false;
  commit_work = [];
  ending = [];
  transferred = [];
  completed = [];
  label = wait_for_txn;
  bug = false;
}

-- A transaction as it is queued: with the handler's next number, and TXN_COMMITTED.
unfoldable pub queued : Hdlr → DbTxn → DbTxn
queued h t = record t { txn_id = h.txn_id; state = record t.state { committed = true } }

-- `lightfs_bstore_txn_commit`, up to the wait of a synchronous caller for its completion.
unfoldable pub lightfs_bstore_txn_commit : Hdlr → DbTxn → Hdlr
lightfs_bstore_txn_commit h t =
    if t.cnt == 0
    then h
    else (if t.state.read
        then h
        else (if t.state.sync
            then record h {
              txn_cnt = add32 h.txn_cnt 1;
              txn_id = add32 h.txn_id 1;
              sync_txn_list = h.sync_txn_list ++ (queued h t ∷ []);
              syncing_cnt = (h.syncing_cnt + 1) % 2 ^ 16;
            }
            else record h {
              txn_cnt = add32 h.txn_cnt 1;
              txn_id = add32 h.txn_id 1;
              txn_list = h.txn_list ++ (queued h t ∷ []);
            }))

-- `lightfs_c_txn_create`: the new group, for a handler whose counter is raised by `count_group`.
abbrev pub lightfs_c_txn_create : TxnState → ℕ → DbCTxn
lightfs_c_txn_create state workq_id = record lightfs_c_txn_init {
  state = state;
  workq_id = workq_id;
}

abbrev pub count_group : Hdlr → TxnState → Hdlr
count_group h state =
    if state.ordered
    then record h { ordered_c_txn_cnt = add32 h.ordered_c_txn_cnt 1 }
    else record h { orderless_c_txn_cnt = add32 h.orderless_c_txn_cnt 1 }

-- The keys of a transaction go into the group's filter.
unfoldable pub add_filter : Bloomfilter → List TxnBuf → Bloomfilter
add_filter f [] = f
add_filter f (b ∷ bs) = add_filter (bloomfilter_set f b.key b.key_len) bs

-- `lightfs_c_txn_insert`: the group, for a transaction that leaves the handler's lists. An empty
-- one is freed.
unfoldable pub lightfs_c_txn_insert : DbCTxn → DbTxn → DbCTxn
lightfs_c_txn_insert c t =
    if t.cnt == 0 then record c { filter = add_filter c.filter t.txn_buf_list } else record c {
      filter = add_filter c.filter t.txn_buf_list;
      txn_list = c.txn_list ++ (record t { state = record t.state { transfering = true } } ∷ []);
      size = add32 c.size t.size;
      cnt = add32 c.cnt t.cnt;
    }

-- The handler's part of `lightfs_c_txn_insert`: its counter, and the BUG_ON of the empty case.
abbrev pub take_txn : Hdlr → DbTxn → Hdlr
take_txn h t =
    let cnt = sub32 h.txn_cnt 1 in
    record h { txn_cnt = cnt; bug = h.bug || (t.cnt == 0) && ltb 10000000 cnt }

-- `lightfs_bstore_c_txn_commit_flush`.
unfoldable pub lightfs_bstore_c_txn_commit_flush : Hdlr → DbCTxn → Hdlr
lightfs_bstore_c_txn_commit_flush h c =
    if c.state.ordered
    then record h { ordered_c_txn_cnt = sub32 h.ordered_c_txn_cnt c.committing_cnt }
    else record h { orderless_c_txn_cnt = sub32 h.orderless_c_txn_cnt c.committing_cnt }

-- `lightfs_c_txn_transfer_cb`, which the transfer calls once the request is sent. For a synchronous
-- group it is the part up to the place where `txn_spin` is given back; `end_work` is the rest.
unfoldable pub lightfs_c_txn_transfer_cb : Hdlr → DbCTxn → Hdlr
lightfs_c_txn_transfer_cb h c =
    let h1 = if c.state.flush then lightfs_bstore_c_txn_commit_flush h c else h in
    if c.state.ordered
    then record h1 {
      completed = h1.completed ++ c.txn_list;
      syncing_cnt = (h1.syncing_cnt + 2 ^ 16 - length c.txn_list % 2 ^ 16) % 2 ^ 16;
      sync_c_txn = none;
      ending = h1.ending ++ (c ∷ []);
    }
    else (if h1.running then record h1 { commit_work = h1.commit_work ++ (c ∷ []) } else h1)

-- `lightfs_c_txn_transfer`: the group goes to the device, and the callback runs.
unfoldable pub lightfs_c_txn_transfer : Hdlr → DbCTxn → Hdlr
lightfs_c_txn_transfer h c =
    let sent : DbCTxn = record c { state = record c.state { transfering = true } } in
    lightfs_c_txn_transfer_cb
      (record h {
        committing_c_txn_cnt = add32 h.committing_c_txn_cnt 1;
        transferred = h.transferred ++ (sent ∷ []);
      })
      sent
