-- ===== src/Tests/Group.antt =====
-- The transactions and their handler on concrete input.
use kevin.Base.{ℕ, List, [], ◌∷◌, ◌++◌, some, ◌≡◌, refl, true, false, ◌≤◌, ◌+◌, ◌%◌, arith, length}
use kevin.Txn.{
  TxnBuf, DbTxn, DbCTxn, txn_created, lightfs_txn_init, lightfs_txn_buf_init, lightfs_c_txn_init,
  meta_set, u32,
}
use kevin.Txn.State.{Hdlr, txn_hdlr_alloc, lightfs_bstore_txn_commit, lightfs_c_txn_insert}
use kevin.Txn.Handler.{hdlr_step, place_txn, place_group, transfer_work_step}
use kevin.Txn.Run.{
  Run, start, commits, passes, transfers, add_plain, add_sync, sent, grouped, entries,
}
use kevin.Txn.Fifo.{plain_commits-Fifo, sync_commits-Fifo, handler_counts, place_txn-Run}
use kevin.Txn.Size.{RunningFits, place_group-fits}
use kevin.Txn.Filter.{IsCovered, lightfs_c_txn_init-IsCovered, lightfs_c_txn_insert-IsCovered}
use kevin.Txn.State.{skip_sync, queued}
use kevin.Base.{◌*◌, ap}
use kevin.Txn.Step.{group_count}
use kevin.Txn.Handler.{step_at, loop_head, at_process_sync, join_sync, transfer_sync}
use kevin.Txn.Ends.{run_ends}
use kevin.Txn.Drain.{IsDrained, run_passes, handler_drains}

-- One request, in a plain transaction and in a synchronous one.
abbrev request : TxnBuf
request = record lightfs_txn_buf_init { key = 1 ∷ 2 ∷ []; key_len = 2; len = 4096; type = meta_set }

abbrev plain_txn : DbTxn
plain_txn = record lightfs_txn_init { cnt = 1; size = 4113; txn_buf_list = request ∷ [] }

abbrev sync_txn : DbTxn
sync_txn = record plain_txn { state = record txn_created { sync = true } }

-- Both are committed, and the handler's thread comes to its first pass.
abbrev one : Hdlr
one = lightfs_bstore_txn_commit txn_hdlr_alloc plain_txn

abbrev two : Hdlr
two = lightfs_bstore_txn_commit one sync_txn

abbrev plain : List DbTxn
plain = add_plain (add_plain [] txn_hdlr_alloc plain_txn) one sync_txn

abbrev sync : List DbTxn
sync = add_sync (add_sync [] txn_hdlr_alloc plain_txn) one sync_txn

-- The loop head, the synchronous transaction joins a group, the group is queued, the worker sends it,
-- the plain transaction starts a group, and the group is flushed.
abbrev done_hdlr : Hdlr
done_hdlr =
    hdlr_step false (
      hdlr_step false
        (transfer_work_step (hdlr_step false (hdlr_step false (hdlr_step false two)))))

done_hdlr-Run : Run plain sync done_hdlr
done_hdlr-Run =
    passes
      (passes
        (transfers
          (passes (passes (passes (commits (commits start plain_txn) sync_txn) false) false) false))
        false)
      false

plain_commits-Fifo_example :
    sent false done_hdlr.transferred
      ++ (grouped done_hdlr.running_c_txn ++ entries done_hdlr.txn_list)
    ≡ entries plain
plain_commits-Fifo_example = plain_commits-Fifo plain sync done_hdlr done_hdlr-Run

sync_commits-Fifo_example :
    (sent true done_hdlr.transferred
        ++ (grouped done_hdlr.sync_c_txn ++ entries done_hdlr.sync_txn_list)
      ≡ entries sync)
    × (entries done_hdlr.completed ≡ sent true done_hdlr.transferred)
sync_commits-Fifo_example = sync_commits-Fifo plain sync done_hdlr done_hdlr-Run

handler_counts_example :
    (done_hdlr.txn_cnt ≡ (length done_hdlr.txn_list + length done_hdlr.sync_txn_list) % u32)
    × (done_hdlr.ordered_c_txn_cnt
        ≡ (length done_hdlr.ending + group_count done_hdlr.sync_c_txn) % u32)
    × (done_hdlr.orderless_c_txn_cnt ≤ 16)
    × (done_hdlr.bug ≡ false)
handler_counts_example = handler_counts plain sync done_hdlr done_hdlr-Run

abbrev committed_txn : DbTxn
committed_txn = record plain_txn { state = record txn_created { committed = true } }

two_ending : two.ending ≡ []
unfolding lightfs_bstore_txn_commit txn_hdlr_alloc queued
two_ending = refl

place_txn-Run_example :
    place_txn two committed_txn [] ≡ place_group two committed_txn [] two.running_c_txn
place_txn-Run_example =
    place_txn-Run plain sync two committed_txn [] (commits (commits start plain_txn) sync_txn) refl
      (omega (arith, ap length two_ending))

abbrev group : DbCTxn
group = record lightfs_c_txn_init { size = 1569000 }

place_group-fits_example : RunningFits (place_group one plain_txn [] (some group)).running_c_txn
unfolding RunningFits
place_group-fits_example =
    place_group-fits one plain_txn [] (some group) (omega arith) (omega arith)

lightfs_c_txn_insert-IsCovered_example :
    IsCovered (lightfs_c_txn_insert lightfs_c_txn_init plain_txn)
lightfs_c_txn_insert-IsCovered_example =
    lightfs_c_txn_insert-IsCovered lightfs_c_txn_init plain_txn lightfs_c_txn_init-IsCovered

-- The thread after its passes over the synchronous list.
abbrev at_skip : Hdlr
at_skip = hdlr_step false (hdlr_step false (hdlr_step false two))

at_skip-Run : Run plain sync at_skip
at_skip-Run =
    passes (passes (passes (commits (commits start plain_txn) sync_txn) false) false) false

at_skip_label : at_skip.label ≡ skip_sync
unfolding hdlr_step step_at loop_head at_process_sync join_sync transfer_sync
    lightfs_bstore_txn_commit txn_hdlr_alloc queued lightfs_c_txn_insert lightfs_c_txn_init
at_skip_label = refl

at_skip_ending : at_skip.ending ≡ []
unfolding hdlr_step step_at loop_head at_process_sync join_sync transfer_sync
    lightfs_bstore_txn_commit txn_hdlr_alloc queued lightfs_c_txn_insert lightfs_c_txn_init
at_skip_ending = refl

handler_drains_example :
    (n : ℕ) × (n ≤ 2 * length at_skip.txn_list + 2)
    × IsDrained (run_passes n (run_ends 1 at_skip))
    × (sent false (run_passes n (run_ends 1 at_skip)).transferred ≡ entries plain)
handler_drains_example =
    handler_drains plain sync at_skip 1 at_skip-Run at_skip_label
      (omega (arith, ap length at_skip_ending))
