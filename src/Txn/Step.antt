-- ===== src/Txn/Step.antt =====
-- Each pass of the handler's thread keeps the invariant and the logs, and few groups count.
use kevin.Base.{
  ℕ, length, ◌+◌, ◌%◌, ◌≤◌, List, [], ◌∷◌, Bool, true, false, Option, none, some, ◌==◌, ltb, ◌&&◌,
  ◌≡◌, refl, inl, inr, arith, Bool-cases,
}
use kevin.Txn.{DbTxn, DbCTxn, u32, add32, diff_c_txn_and_txn, is_neg32, c_txn_committing_limit}
use kevin.Txn.State.{Label, process_sync, skip_sync, wait_for_txn, stopped, Hdlr}
use kevin.Txn.Handler.{
  place_group, place_txn, loop_head, list_empty, at_process_sync, at_skip_sync, step_at,
}
use kevin.Txn.Run.{IsValid, Keeps, plain_log, sync_log, RunningCount, SyncCount}
use kevin.Txn.Transfer.{same_label}
use kevin.Txn.Passes.{transfer_now-Keeps, place_full-Keeps, place_joins, start_group-Keeps}
use kevin.Txn.SyncPasses.{join_sync-Keeps, transfer_sync-Keeps}

place_group-Keeps :
    (h : Hdlr) (t : DbTxn) (rest : List DbTxn) (g : Option DbCTxn)
    → IsValid h
    → h.txn_list ≡ t ∷ rest
    → h.running_c_txn ≡ g
    → Keeps h (place_group h t rest g)
unfolding place_group
place_group-Keeps h t rest none v e n = start_group-Keeps h t rest v e n
place_group-Keeps h t rest (some c) v e n = elim (Bool-cases (is_neg32 (diff_c_txn_and_txn c t))) [
  | inl full ↦ rw (full) (place_full-Keeps h c v n)
  | inr fits ↦ rw (fits) (place_joins h t rest v e c n)
]

loop_head-Keeps : (h : Hdlr) (stop : Bool) → IsValid h → Keeps h (loop_head stop h)
unfolding loop_head plain_log sync_log
loop_head-Keeps h false v = same_label h process_sync v
loop_head-Keeps h true v =
    elim (Bool-cases (h.txn_cnt == 0 && list_empty h.sync_txn_list && list_empty h.txn_list)) [
      | inl idle ↦ simp (idle) (labelled stopped)
      | inr busy ↦ simp (busy) (labelled process_sync)
    ]
  where
    labelled : (l : Label) → Keeps h (record h { running = false; label = l })
    labelled l = record {
      valid = record {
        filled = v.filled;
        sync_filled = v.sync_filled;
        counted = v.counted;
        running_count = v.running_count;
        sync_count = v.sync_count;
        woken = v.woken;
        ends = v.ends;
        no_bug = v.no_bug;
      };
      plain = refl;
      sync = refl;
    }

abbrev pub group_count : Option DbCTxn → ℕ
group_count none = 0
group_count (some c) = 1

pub sync_exact :
    (g : Option DbCTxn) (ended n : ℕ) → SyncCount g ended n → n ≡ (ended + group_count g) % u32
unfolding SyncCount
sync_exact none ended n counts = ground (arith, counts)
sync_exact (some c) ended n counts = counts.3

sync_few : (g : Option DbCTxn) (ended n : ℕ) → SyncCount g ended n → n ≤ ended + 1
unfolding SyncCount
sync_few none ended n counts = ground (arith, counts)
sync_few (some c) ended n counts = ground (arith, counts)

pub running_few : (g : Option DbCTxn) (n m : ℕ) → RunningCount g n m → m ≤ 16
unfolding RunningCount
running_few none n m counts = ground (arith, counts)
running_few (some c) n m counts = ground (arith, counts)

-- In a valid state at most seventeen groups count against C_TXN_COMMITTING_LIMIT beside those that
-- are ending.
pub groups_few :
    (h : Hdlr) → IsValid h → h.ordered_c_txn_cnt + h.orderless_c_txn_cnt ≤ 17 + length h.ending
groups_few h v =
    let few = sync_few h.sync_c_txn (length h.ending) h.ordered_c_txn_cnt v.sync_count in
    let few_running =
      running_few h.running_c_txn h.running_c_txn_cnt h.orderless_c_txn_cnt v.running_count in
    omega arith

at_skip_sync-Keeps :
    (h : Hdlr) (ts : List DbTxn) → IsValid h → h.txn_list ≡ ts → Keeps h (at_skip_sync h ts)
unfolding at_skip_sync place_txn
at_skip_sync-Keeps h [] v e = transfer_now-Keeps h h.running_c_txn v refl
at_skip_sync-Keeps h (t ∷ rest) v e = elim (Bool-cases t.state.committed) [
  | inr open_txn ↦ simp (open_txn) (same_label h wait_for_txn v)
  | inl ready ↦
      elim (Bool-cases
        (ltb c_txn_committing_limit (add32 h.ordered_c_txn_cnt h.orderless_c_txn_cnt))) [
          | inl many ↦ simp (ready, many) (same_label h process_sync v)
          | inr few ↦ simp (ready, few) (place_group-Keeps h t rest h.running_c_txn v e refl)
        ]
]

at_process_sync-Keeps :
    (h : Hdlr) (ts : List DbTxn) → IsValid h → h.sync_txn_list ≡ ts → Keeps h (at_process_sync h ts)
unfolding at_process_sync
at_process_sync-Keeps h [] v e = transfer_sync-Keeps h h.sync_c_txn v refl
at_process_sync-Keeps h (t ∷ rest) v e = elim (Bool-cases t.state.committed) [
  | inr open_txn ↦ simp (open_txn) (same_label h skip_sync v)
  | inl ready ↦ simp (ready) (join_sync-Keeps h t rest v e h.sync_c_txn refl)
]

pub step_at-Keeps : (stop : Bool) (h : Hdlr) (l : Label) → IsValid h → Keeps h (step_at stop h l)
unfolding step_at
step_at-Keeps stop h process_sync v = at_process_sync-Keeps h h.sync_txn_list v refl
step_at-Keeps stop h skip_sync v = at_skip_sync-Keeps h h.txn_list v refl
step_at-Keeps stop h wait_for_txn v = loop_head-Keeps h stop v
step_at-Keeps stop h stopped v = record { valid = v; plain = refl; sync = refl }
