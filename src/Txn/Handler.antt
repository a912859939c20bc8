-- ===== src/Txn/Handler.antt =====
-- `lightfs_txn_hdlr_run` of kevinfs/lightfs_txn_hdlr.c: one step for each pass from label to label.
-- Other threads act between the steps; where the code drops the lock inside a pass, it goes on with
-- objects that only the handler's thread reads or unlinks.
use kevin.Base.{
  ℕ, zero, suc, get_elem?, List, [], ◌∷◌, Bool, true, false, not, Option, none, some, ◌==◌, ltb,
  leb, if◌then◌else◌, ◌&&◌,
}
use kevin.Txn.{
  TxnState, txn_created, DbTxn, DbCTxn, diff_c_txn_and_txn, is_neg32, add32, c_txn_committing_limit,
  running_c_txn_limit,
}
use kevin.Txn.State.{
  Label, process_sync, skip_sync, wait_for_txn, stopped, Hdlr, lightfs_c_txn_create, count_group,
  lightfs_c_txn_insert, take_txn, lightfs_c_txn_transfer, lightfs_bstore_c_txn_commit_flush,
}

abbrev pub txn_ordered : TxnState
txn_ordered = record txn_created { ordered = true }

abbrev pub txn_orderless : TxnState
txn_orderless = record txn_created { orderless = true }

-- From `process_sync` with a transaction at the head of the list: it joins the group that is being
-- filled (the last argument is `sync_c_txn`), or starts one.
unfoldable pub join_sync : Hdlr → DbTxn → List DbTxn → Option DbCTxn → Hdlr
join_sync h t rest (some c) =
    if c.state.transfering then record h { label = skip_sync } else record (take_txn h t) {
      sync_txn_list = rest;
      sync_c_txn = some (lightfs_c_txn_insert c t);
    }
join_sync h t rest none = record (take_txn (count_group h txn_ordered) t) {
  sync_txn_list = rest;
  sync_c_txn = some (
      lightfs_c_txn_insert
        (record (lightfs_c_txn_create txn_ordered h.current_workq_id) {
          committing_cnt = 1;
          txn_id = t.txn_id;
        })
        t);
}

-- `transfer_sync`, for `sync_c_txn`: a group that is not on its way yet is queued for the worker.
unfoldable pub transfer_sync : Hdlr → Option DbCTxn → Hdlr
transfer_sync h none = record h { label = skip_sync }
transfer_sync h (some c) =
    if c.state.transfering then record h { label = skip_sync } else record h {
      sync_c_txn = some (record c { state = record c.state { transfering = true } });
      transfer_work = true;
      label = skip_sync;
    }

-- A new running group for a transaction. The sixteenth one since the last flush is to flush.
unfoldable pub start_group : Hdlr → DbTxn → List DbTxn → Hdlr
start_group h t rest =
    let h1 = take_txn (count_group h txn_orderless) t in
    let id = if h.running_c_txn_id == 0 then t.txn_id else h.running_c_txn_id in
    let workq = if h.running_c_txn_id == 0 then 0 else h.current_workq_id in
    let c =
      lightfs_c_txn_insert
        (record (lightfs_c_txn_create txn_orderless h.current_workq_id) { txn_id = id }) t in
    let count = add32 h.running_c_txn_cnt 1 in
    if leb running_c_txn_limit count
    then record h1 {
      txn_list = rest;
      current_workq_id = workq;
      running_c_txn =
          some (record c { committing_cnt = count; state = record c.state { flush = true } });
      running_c_txn_id = 0;
      running_c_txn_cnt = 0;
    }
    else record h1 {
      txn_list = rest;
      current_workq_id = workq;
      running_c_txn = some c;
      running_c_txn_id = id;
      running_c_txn_cnt = count;
    }

-- A transaction for `running_c_txn`: the group is sent when the transaction does not fit.
unfoldable pub place_group : Hdlr → DbTxn → List DbTxn → Option DbCTxn → Hdlr
place_group h t rest none = start_group h t rest
place_group h t rest (some c) =
    if is_neg32 (diff_c_txn_and_txn c t)
    then record (lightfs_c_txn_transfer h c) { running_c_txn = none }
    else record (take_txn h t) { txn_list = rest; running_c_txn = some (lightfs_c_txn_insert c t) }

-- From `skip_sync` with a transaction at the head of the list.
unfoldable pub place_txn : Hdlr → DbTxn → List DbTxn → Hdlr
place_txn h t rest =
    if not t.state.committed
    then record h { label = wait_for_txn }
    else (if ltb c_txn_committing_limit (add32 h.ordered_c_txn_cnt h.orderless_c_txn_cnt)
        then record h { label = process_sync }
        else place_group h t rest h.running_c_txn)

-- `transfer_now`, for `running_c_txn`: the running group is flushed.
unfoldable pub transfer_now : Hdlr → Option DbCTxn → Hdlr
transfer_now h none = record h { label = wait_for_txn }
transfer_now h (some c) =
    let count = if c.committing_cnt == 0 then h.running_c_txn_cnt else c.committing_cnt in
    record (lightfs_c_txn_transfer (record h { running_c_txn_id = 0; running_c_txn_cnt = 0 })
      (record c { committing_cnt = count; state = record c.state { flush = true } })) {
        running_c_txn = none;
        label = wait_for_txn;
      }

-- `list_empty`.
abbrev pub list_empty : List DbTxn → Bool
list_empty [] = true
list_empty (t ∷ ts) = false

-- The head of the loop: the thread leaves it when it is told to stop and nothing is queued.
unfoldable pub loop_head : Bool → Hdlr → Hdlr
loop_head should_stop h =
    if should_stop
    then (if h.txn_cnt == 0 && list_empty h.sync_txn_list && list_empty h.txn_list
        then record h { running = false; label = stopped }
        else record h { running = false; label = process_sync })
    else record h { label = process_sync }

unfoldable pub at_process_sync : Hdlr → List DbTxn → Hdlr
at_process_sync h [] = transfer_sync h h.sync_c_txn
at_process_sync h (t ∷ rest) =
    if t.state.committed then join_sync h t rest h.sync_c_txn else record h { label = skip_sync }

unfoldable pub at_skip_sync : Hdlr → List DbTxn → Hdlr
at_skip_sync h [] = transfer_now h h.running_c_txn
at_skip_sync h (t ∷ rest) = place_txn h t rest

-- The pass that starts at a label.
unfoldable pub step_at : Bool → Hdlr → Label → Hdlr
step_at should_stop h process_sync = at_process_sync h h.sync_txn_list
step_at should_stop h skip_sync = at_skip_sync h h.txn_list
step_at should_stop h wait_for_txn = loop_head should_stop h
step_at should_stop h stopped = h

-- One pass of `lightfs_txn_hdlr_run`. `should_stop` is what `kthread_should_stop` says.
unfoldable pub hdlr_step : Bool → Hdlr → Hdlr
hdlr_step should_stop h = step_at should_stop h h.label

-- The worker runs the queued `lightfs_c_txn_transfer_work` of the synchronous group.
unfoldable pub transfer_work : Hdlr → Option DbCTxn → Hdlr
transfer_work h none = h
transfer_work h (some c) =
    if h.transfer_work then lightfs_c_txn_transfer (record h { transfer_work = false }) c else h

unfoldable pub transfer_work_step : Hdlr → Hdlr
transfer_work_step h = transfer_work h h.sync_c_txn

-- A list of groups without the one at a place.
unfoldable pub leave : ℕ → List DbCTxn → List DbCTxn
leave i [] = []
leave zero (c ∷ cs) = cs
leave (suc i) (c ∷ cs) = c ∷ leave i cs

-- One of the workers, which run beside each other, comes to the end of `lightfs_c_txn_transfer_cb` for
-- its synchronous group: the group's count is flushed, and `lightfs_c_txn_commit` frees the group.
unfoldable pub end_work : Hdlr → ℕ → Option DbCTxn → Hdlr
end_work h i none = h
end_work h i (some c) = lightfs_bstore_c_txn_commit_flush (record h { ending = leave i h.ending }) c

unfoldable pub end_work_step : ℕ → Hdlr → Hdlr
end_work_step i h = end_work h i (get_elem? h.ending i)

-- The worker runs the oldest queued `lightfs_c_txn_commit_work`, which frees the group.
unfoldable pub free_group : Hdlr → List DbCTxn → Hdlr
free_group h [] = h
free_group h (c ∷ rest) = record h { commit_work = rest }

unfoldable pub commit_work_step : Hdlr → Hdlr
commit_work_step h = free_group h h.commit_work

abbrev pub is_some : Option DbCTxn → Bool
is_some none = false
is_some (some c) = true

-- `lightfs_txn_hdlr_check_state`: whether the thread is to be woken up.
unfoldable pub lightfs_txn_hdlr_check_state : Hdlr → Bool
lightfs_txn_hdlr_check_state h =
    if ltb 320 h.txn_cnt
    then true
    else (if not (h.syncing_cnt == 0)
        then true
        else (if not (list_empty h.sync_txn_list) then true else is_some h.sync_c_txn))
