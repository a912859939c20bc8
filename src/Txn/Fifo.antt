-- ===== src/Txn/Fifo.antt =====
-- The runs of the handler: the invariant holds in all of them, and the device gets the committed
-- transactions in the order of their commits.
use kevin.Base.{
  get_elem?, ◌+◌, ◌%◌, ◌≤◌, ◌^◌, List, [], ◌∷◌, ◌++◌, true, false, ◌==◌, ltb, ◌≡◌, refl, ap, ◌∙◌,
  inl, inr, length, length-append, All-append, arith, Bool-cases, append_assoc,
}
use kevin.Txn.{DbTxn, u32, add32, c_txn_committing_limit}
use kevin.Txn.State.{Hdlr, txn_hdlr_alloc, queued, lightfs_bstore_txn_commit}
use kevin.Txn.Handler.{
  place_group, place_txn, hdlr_step, transfer_work_step, end_work_step, commit_work_step,
}
use kevin.Txn.Run.{
  Run, start, commits, passes, transfers, ends, frees, add_plain, add_sync, IsValid, Keeps, entries,
  sent, grouped, plain_log, sync_log, IsFilled, RunningCount, SyncCount, Entry,
}
use kevin.Txn.Transfer.{entries-append}
use kevin.Txn.SyncPasses.{transfer_work-Keeps, end_work-Keeps, free_group-Keeps}
use kevin.Txn.Step.{group_count, sync_exact, running_few, groups_few, step_at-Keeps}

queued-IsFilled : (h : Hdlr) (t : DbTxn) → (t.cnt == 0) ≡ false → IsFilled (queued h t)
unfolding queued
queued-IsFilled h t e = (e, refl)

-- A commit keeps the invariant, and puts the transaction at the end of the log it belongs to.
sync_queued-IsValid :
    (h : Hdlr) (t : DbTxn)
    → IsValid h
    → (t.cnt == 0) ≡ false
    → IsValid (record h {
      txn_cnt = add32 h.txn_cnt 1;
      txn_id = add32 h.txn_id 1;
      sync_txn_list = h.sync_txn_list ++ (queued h t ∷ []);
      syncing_cnt = (h.syncing_cnt + 1) % 2 ^ 16;
    })
sync_queued-IsValid h t v e = record {
  filled = v.filled;
  sync_filled =
      All-append IsFilled h.sync_txn_list (queued h t ∷ []) v.sync_filled
        (queued-IsFilled h t e, tt);
  counted = ground (arith, v.counted, length-append h.sync_txn_list (queued h t ∷ []));
  running_count = v.running_count;
  sync_count = v.sync_count;
  woken = v.woken;
  ends = v.ends;
  no_bug = v.no_bug;
}

plain_queued-IsValid :
    (h : Hdlr) (t : DbTxn)
    → IsValid h
    → (t.cnt == 0) ≡ false
    → IsValid (record h {
      txn_cnt = add32 h.txn_cnt 1;
      txn_id = add32 h.txn_id 1;
      txn_list = h.txn_list ++ (queued h t ∷ []);
    })
plain_queued-IsValid h t v e = record {
  filled = All-append IsFilled h.txn_list (queued h t ∷ []) v.filled (queued-IsFilled h t e, tt);
  sync_filled = v.sync_filled;
  counted = ground (arith, v.counted, length-append h.txn_list (queued h t ∷ []));
  running_count = v.running_count;
  sync_count = v.sync_count;
  woken = v.woken;
  ends = v.ends;
  no_bug = v.no_bug;
}

-- A valid state whose logs are those of the commits so far.
pub record Agrees (plain sync : List DbTxn) (h : Hdlr) : Type 0 where
  pub valid : IsValid h
  pub plain_agrees : plain_log h ≡ entries plain
  pub sync_agrees : sync_log h ≡ entries sync

commit-Agrees :
    (plain sync : List DbTxn) (h : Hdlr) (t : DbTxn)
    → Agrees plain sync h
    → Agrees (add_plain plain h t) (add_sync sync h t) (lightfs_bstore_txn_commit h t)
unfolding lightfs_bstore_txn_commit plain_log sync_log
commit-Agrees plain sync h t a = elim (Bool-cases (t.cnt == 0)) [
  | inl empty ↦ simp (empty) a
  | inr full ↦ elim (Bool-cases t.state.read) [
    | inl reads ↦ simp (full, reads) a
    | inr writes ↦ elim (Bool-cases t.state.sync) [
      | inl syncs ↦
          simp (full, writes, syncs)
            (record {
              valid = sync_queued-IsValid h t a.valid full;
              plain_agrees = a.plain_agrees;
              sync_agrees =
                  logged sync (sent true h.transferred) (grouped h.sync_c_txn) h.sync_txn_list
                    a.sync_agrees;
            })
      | inr waits ↦
          simp (full, writes, waits)
            (record {
              valid = plain_queued-IsValid h t a.valid full;
              plain_agrees =
                  logged plain (sent false h.transferred) (grouped h.running_c_txn) h.txn_list
                    a.plain_agrees;
              sync_agrees = a.sync_agrees;
            })
    ]
  ]
]
  where
    logged :
        (ts : List DbTxn) (before group : List Entry) (us : List DbTxn)
        → before ++ (group ++ entries us) ≡ entries ts
        → before ++ (group ++ entries (us ++ (queued h t ∷ []))) ≡ entries (ts ++ (queued h t ∷ []))
    logged ts before group us e =
        ap (λ x. before ++ (group ++ x)) (entries-append us (queued h t ∷ []))
        ∙ ground (
          arith,
          e,
          append_assoc group (entries us) (entries (queued h t ∷ [])),
          append_assoc before (group ++ entries us) (entries (queued h t ∷ [])),
          entries-append ts (queued h t ∷ []),
        )

step-Agrees :
    (plain sync : List DbTxn) (h h' : Hdlr)
    → Agrees plain sync h
    → Keeps h h'
    → Agrees plain sync h'
step-Agrees plain sync h h' a k = record {
  valid = k.valid;
  plain_agrees = k.plain ∙ a.plain_agrees;
  sync_agrees = k.sync ∙ a.sync_agrees;
}

start-Agrees : Agrees [] [] txn_hdlr_alloc
unfolding txn_hdlr_alloc RunningCount SyncCount entries sent grouped plain_log sync_log
start-Agrees = record {
  valid = record {
    filled = tt;
    sync_filled = tt;
    counted = omega arith;
    running_count = (omega arith, refl);
    sync_count = refl;
    woken = refl;
    ends = tt;
    no_bug = refl;
  };
  plain_agrees = refl;
  sync_agrees = refl;
}

pub Run-Agrees : (plain sync : List DbTxn) (h : Hdlr) → Run plain sync h → Agrees plain sync h
unfolding hdlr_step transfer_work_step end_work_step commit_work_step
Run-Agrees _ _ _ start = start-Agrees
Run-Agrees _ _ _ (commits {plain} {sync} {h} r t) =
    commit-Agrees plain sync h t (Run-Agrees plain sync h r)
Run-Agrees _ _ _ (passes {plain} {sync} {h} r stop) =
    let a = Run-Agrees plain sync h r in
    step-Agrees plain sync h (hdlr_step stop h) a (step_at-Keeps stop h h.label a.valid)
Run-Agrees _ _ _ (transfers {plain} {sync} {h} r) =
    let a = Run-Agrees plain sync h r in
    step-Agrees plain sync h (transfer_work_step h) a
      (transfer_work-Keeps h h.sync_c_txn a.valid refl)
Run-Agrees _ _ _ (ends {plain} {sync} {h} r i) =
    let a = Run-Agrees plain sync h r in
    step-Agrees plain sync h (end_work_step i h) a
      (end_work-Keeps h i (get_elem? h.ending i) a.valid refl)
Run-Agrees _ _ _ (frees {plain} {sync} {h} r) =
    let a = Run-Agrees plain sync h r in
    step-Agrees plain sync h (commit_work_step h) a (free_group-Keeps h h.commit_work a.valid)

-- In every run the transactions of the plain commits are, in the order of their commits and each
-- once: those of the groups without order that were sent, those of the running group, and those that
-- wait.
pub plain_commits-Fifo :
    (plain sync : List DbTxn) (h : Hdlr)
    → Run plain sync h
    → sent false h.transferred ++ (grouped h.running_c_txn ++ entries h.txn_list) ≡ entries plain
unfolding plain_log
plain_commits-Fifo plain sync h r = (Run-Agrees plain sync h r).plain_agrees

-- In every run the transactions of the synchronous commits are, in the order of their commits and
-- each once: those that were sent, those of the synchronous group, and those that wait; and the ones
-- whose callers were woken up are the ones that were sent.
pub sync_commits-Fifo :
    (plain sync : List DbTxn) (h : Hdlr)
    → Run plain sync h
    → (sent true h.transferred ++ (grouped h.sync_c_txn ++ entries h.sync_txn_list) ≡ entries sync)
      × (entries h.completed ≡ sent true h.transferred)
unfolding sync_log
sync_commits-Fifo plain sync h r =
    let a = Run-Agrees plain sync h r in (a.sync_agrees, a.valid.woken)

-- In every run the counter of the queued transactions is the length of the two lists in 32 bits; the
-- counter of the ordered groups is, in 32 bits, the number of those whose callback has yet to flush
-- their count, and one more while there is a synchronous group; the other groups count at most
-- sixteen; and no BUG_ON was hit.
pub handler_counts :
    (plain sync : List DbTxn) (h : Hdlr)
    → Run plain sync h
    → (h.txn_cnt ≡ (length h.txn_list + length h.sync_txn_list) % u32)
      × (h.ordered_c_txn_cnt ≡ (length h.ending + group_count h.sync_c_txn) % u32)
      × (h.orderless_c_txn_cnt ≤ 16)
      × (h.bug ≡ false)
handler_counts plain sync h r =
    let v = (Run-Agrees plain sync h r).valid in
    (
      v.counted,
      sync_exact h.sync_c_txn (length h.ending) h.ordered_c_txn_cnt v.sync_count,
      running_few h.running_c_txn h.running_c_txn_cnt h.orderless_c_txn_cnt v.running_count,
      v.no_bug,
    )

-- In every run a committed transaction at the head of the plain list is placed, and the wait for
-- C_TXN_COMMITTING_LIMIT is not entered, while the callbacks of at most 53 synchronous groups have
-- yet to flush their count.
pub place_txn-Run :
    (plain sync : List DbTxn) (h : Hdlr) (t : DbTxn) (rest : List DbTxn)
    → Run plain sync h
    → t.state.committed ≡ true
    → length h.ending ≤ 53
    → place_txn h t rest ≡ place_group h t rest h.running_c_txn
unfolding place_txn
place_txn-Run plain sync h t rest r ready ending =
    let few = groups_few h (Run-Agrees plain sync h r).valid in
    let unlimited : ltb c_txn_committing_limit (add32 h.ordered_c_txn_cnt h.orderless_c_txn_cnt)
        ≡ false =
      ground (arith, few, ending) in
    simp (ready, unlimited) refl
