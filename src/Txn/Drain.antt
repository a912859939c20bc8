-- ===== src/Txn/Drain.antt =====
-- The handler's thread, when it runs alone from `skip_sync`, sends everything that is queued.
use kevin.Base.{
  ℕ, zero, suc, ◌+◌, ◌*◌, ◌≤◌, ◌<◌, List, [], ◌∷◌, ◌++◌, false, Option, none, some, ◌≡◌, refl, sym,
  ap, ◌∙◌, subst, inl, inr, length, arith, Bool-cases, leb, ltb, ◌⊎◌, append-nil, All,
}
use kevin.Txn.{
  DbTxn, DbCTxn, add32, running_c_txn_limit, diff_c_txn_and_txn, is_neg32, c_txn_committing_limit,
}
use kevin.Txn.State.{
  skip_sync, wait_for_txn, Hdlr, lightfs_c_txn_transfer, lightfs_c_txn_transfer_cb,
  lightfs_bstore_c_txn_commit_flush,
}
use kevin.Txn.Handler.{
  start_group, place_group, place_txn, transfer_now, at_skip_sync, step_at, hdlr_step,
}
use kevin.Txn.Run.{Run, IsValid, Keeps, IsFilled, entries, sent, grouped, plain_log}
use kevin.Txn.Step.{group_count, groups_few, step_at-Keeps}
use kevin.Txn.Fifo.{Run-Agrees}
use kevin.Txn.Ends.{place_ending, run_ends, run_ends-Run}

-- `n` passes of the thread in a row.
unfoldable pub run_passes : ℕ → Hdlr → Hdlr
run_passes zero h = h
run_passes (suc n) h = run_passes n (hdlr_step false h)

-- What is left to do: a pass takes a transaction off the list or sends the running group.
abbrev pub work_left : Hdlr → ℕ
work_left h = 2 * length h.txn_list + group_count h.running_c_txn

group_few : (g : Option DbCTxn) → group_count g ≤ 1
group_few none = omega arith
group_few (some c) = omega arith

transfer_txn_list : (h : Hdlr) (c : DbCTxn) → (lightfs_c_txn_transfer h c).txn_list ≡ h.txn_list
unfolding lightfs_c_txn_transfer lightfs_c_txn_transfer_cb lightfs_bstore_c_txn_commit_flush
transfer_txn_list h c = ground arith

transfer_label : (h : Hdlr) (c : DbCTxn) → (lightfs_c_txn_transfer h c).label ≡ h.label
unfolding lightfs_c_txn_transfer lightfs_c_txn_transfer_cb lightfs_bstore_c_txn_commit_flush
transfer_label h c = ground arith

start_group_lem :
    (h : Hdlr) (t : DbTxn) (rest : List DbTxn)
    → ((start_group h t rest).label ≡ h.label)
      × ((start_group h t rest).txn_list ≡ rest)
      × (group_count (start_group h t rest).running_c_txn ≡ 1)
unfolding start_group
start_group_lem h t rest =
    elim (Bool-cases (leb running_c_txn_limit (add32 h.running_c_txn_cnt 1))) [
      | inl full ↦ simp (full) (refl, refl, refl)
      | inr few ↦ simp (few) (refl, refl, refl)
    ]

-- A pass that places a transaction stays at `skip_sync` and leaves less work.
place_group_lem :
    (h : Hdlr) (t : DbTxn) (rest : List DbTxn) (g : Option DbCTxn)
    → h.txn_list ≡ t ∷ rest
    → h.running_c_txn ≡ g
    → ((place_group h t rest g).label ≡ h.label)
      × (work_left (place_group h t rest g) < work_left h)
unfolding place_group
place_group_lem h t rest none e n =
    let (l, ts, one) = start_group_lem h t rest in
    let before : work_left h ≡ 2 * suc (length rest) + 0 =
      ap (λ us. 2 * length us + group_count h.running_c_txn) e
      ∙ ap (λ g. 2 * suc (length rest) + group_count g) n in
    let after : work_left (start_group h t rest) ≡ 2 * length rest + 1 =
      ap (λ us. 2 * length us + group_count (start_group h t rest).running_c_txn) ts
      ∙ ap (λ k. 2 * length rest + k) one in
    (l, omega arith)
place_group_lem h t rest (some c) e n =
    let before : work_left h ≡ 2 * suc (length rest) + 1 =
      ap (λ us. 2 * length us + group_count h.running_c_txn) e
      ∙ ap (λ g. 2 * suc (length rest) + group_count g) n in
    elim (Bool-cases (is_neg32 (diff_c_txn_and_txn c t))) [
      | inl full ↦
          simp (full) (transfer_label h c, omega (arith, ap length (transfer_txn_list h c ∙ e)))
      | inr fits ↦ simp (fits) (refl, omega arith)
    ]

-- In a valid state the pass at `skip_sync` places the head of the list.
at_skip_sync_lem :
    (h : Hdlr) (t : DbTxn) (rest : List DbTxn)
    → IsValid h
    → length h.ending ≤ 53
    → h.txn_list ≡ t ∷ rest
    → at_skip_sync h (t ∷ rest) ≡ place_group h t rest h.running_c_txn
unfolding at_skip_sync place_txn
at_skip_sync_lem h t rest v ending e =
    let ready = (subst (All IsFilled) e v.filled).0.1 in
    let few = groups_few h v in
    let unlimited : ltb c_txn_committing_limit (add32 h.ordered_c_txn_cnt h.orderless_c_txn_cnt)
        ≡ false =
      ground (arith, few, ending) in
    simp (ready, unlimited) refl

-- The thread waits, and nothing is left for it to do but synchronous work.
pub record IsDrained (h : Hdlr) : Type 0 where
  pub waits : h.label ≡ wait_for_txn
  pub empty : h.txn_list ≡ []
  pub no_group : h.running_c_txn ≡ none

transfer_now-IsDrained :
    (h : Hdlr) (g : Option DbCTxn)
    → h.txn_list ≡ []
    → h.running_c_txn ≡ g
    → IsDrained (transfer_now h g)
unfolding transfer_now
transfer_now-IsDrained h none e n = record { waits = refl; empty = e; no_group = n }
transfer_now-IsDrained h (some c) e n = record {
  waits = refl;
  empty = transfer_txn_list _ _ ∙ e;
  no_group = refl;
}

-- One pass at `skip_sync`, for the list `ts`.
step_at-skip_sync :
    (h : Hdlr) (ts : List DbTxn)
    → IsValid h
    → length h.ending ≤ 53
    → h.label ≡ skip_sync
    → h.txn_list ≡ ts
    → IsDrained (at_skip_sync h ts)
      ⊎ (((at_skip_sync h ts).label ≡ skip_sync)
          × (work_left (at_skip_sync h ts) < work_left h)
          × ((at_skip_sync h ts).ending ≡ h.ending))
unfolding at_skip_sync
step_at-skip_sync h [] v ending l e = inl (transfer_now-IsDrained h h.running_c_txn e refl)
step_at-skip_sync h (t ∷ rest) v ending l e =
    let (same, less) = place_group_lem h t rest h.running_c_txn e refl in
    subst
      (λ h'.
        IsDrained h'
        ⊎ ((h'.label ≡ skip_sync) × (work_left h' < work_left h) × (h'.ending ≡ h.ending)))
      (sym (at_skip_sync_lem h t rest v ending e))
      (inr (same ∙ l, less, place_ending h t rest h.running_c_txn v refl))

hdlr_step-skip_sync :
    (h : Hdlr) → h.label ≡ skip_sync → hdlr_step false h ≡ at_skip_sync h h.txn_list
unfolding hdlr_step step_at
hdlr_step-skip_sync h l = ap (step_at false h) l

-- A number of passes within a bound after which the thread has drained, and the logs are as before.
pub record Drains (h : Hdlr) (bound : ℕ) : Type 0 where
  pub count : ℕ
  pub within : count ≤ bound
  pub drained : IsDrained (run_passes count h)
  pub plain : plain_log (run_passes count h) ≡ plain_log h

step-Keeps : (h : Hdlr) → IsValid h → Keeps h (hdlr_step false h)
unfolding hdlr_step
step-Keeps h v = step_at-Keeps false h h.label v

drain :
    (fuel : ℕ) (h : Hdlr)
    → IsValid h
    → length h.ending ≤ 53
    → h.label ≡ skip_sync
    → work_left h ≤ fuel
    → Drains h (suc fuel)
unfolding run_passes
drain zero h v few l le = elim (step_at-skip_sync h h.txn_list v few l refl) [
  | inl drained ↦ record {
    count = 1;
    within = omega arith;
    drained = subst IsDrained (sym (hdlr_step-skip_sync h l)) drained;
    plain = (step-Keeps h v).plain;
  }
  | inr (at, less, _) ↦ absurd (omega arith)
]
drain (suc fuel) h v few l le = elim (step_at-skip_sync h h.txn_list v few l refl) [
  | inl drained ↦ record {
    count = 1;
    within = omega arith;
    drained = subst IsDrained (sym (hdlr_step-skip_sync h l)) drained;
    plain = (step-Keeps h v).plain;
  }
  | inr (at, less, same) ↦
      let next = hdlr_step-skip_sync h l in
      let kept = step-Keeps h v in
      let rest =
        drain fuel (hdlr_step false h) kept.valid
          (omega (arith, few, ap (λ h'. length h'.ending) next, ap length same))
          (ap (λ h'. h'.label) next ∙ at) (omega (arith, ap work_left next)) in
      record {
        count = suc rest.count;
        within = omega (arith, rest.within);
        drained = rest.drained;
        plain = rest.plain ∙ kept.plain;
      }
]

drained-sent : (h : Hdlr) → IsDrained h → plain_log h ≡ sent false h.transferred
unfolding plain_log entries grouped
drained-sent h d =
    ap (λ g. sent false h.transferred ++ (grouped g ++ entries h.txn_list)) d.no_group
    ∙ ap (λ ts. sent false h.transferred ++ entries ts) d.empty
    ∙ append-nil (sent false h.transferred)

-- In every run, when the handler's thread stands at `skip_sync`, and then any number of the callbacks
-- of synchronous groups that have yet to flush their count come to their ends, so that at most 53 are
-- left, and after that the thread runs alone, it comes to wait within two passes for each transaction
-- of the plain list and two more. The list is empty then, there
-- is no running group, and the device got exactly the transactions of the plain commits, in order.
pub handler_drains :
    (plain sync : List DbTxn) (h : Hdlr) (k : ℕ)
    → Run plain sync h
    → h.label ≡ skip_sync
    → length h.ending ≤ k + 53
    → (n : ℕ) × (n ≤ 2 * length h.txn_list + 2)
      × IsDrained (run_passes n (run_ends k h))
      × (sent false (run_passes n (run_ends k h)).transferred ≡ entries plain)
handler_drains plain sync h k r l left =
    let (r', label, ts, fewer) = run_ends-Run plain sync k h r in
    let h' = run_ends k h in
    let a = Run-Agrees plain sync h' r' in
    let few : group_count h'.running_c_txn ≤ 1 = group_few h'.running_c_txn in
    let d =
      drain (work_left h') h' a.valid (omega (arith, left, fewer)) (label ∙ l) (omega arith) in
    (
      d.count,
      omega (arith, d.within, ap length ts),
      d.drained,
      sym (drained-sent (run_passes d.count h') d.drained) ∙ d.plain ∙ a.plain_agrees,
    )
