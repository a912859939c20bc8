-- ===== src/Txn/Ends.antt =====
-- The synchronous groups that are ending: what the passes of the thread do to them, and the workers that
-- end them.
use kevin.Base.{
  ℕ, zero, suc, ◌-◌, List, [], ◌∷◌, false, Option, none, some, ◌≡◌, refl, ap, ◌∙◌, subst, inl, inr,
  length, arith, Bool-cases, leb,
}
use kevin.Txn.{DbTxn, DbCTxn, add32, running_c_txn_limit, diff_c_txn_and_txn, is_neg32}
use kevin.Txn.State.{Hdlr, lightfs_c_txn_transfer, lightfs_bstore_c_txn_commit_flush}
use kevin.Txn.Handler.{end_work, end_work_step, leave, start_group, place_group}
use kevin.Txn.Run.{ends, Run, RunningCount, IsValid}
use kevin.Txn.Transfer.{transfer_plain}

-- A group without order is sent without a group coming to its end.
transfer_ending :
    (h : Hdlr) (c : DbCTxn)
    → c.state.ordered ≡ false
    → (lightfs_c_txn_transfer h c).ending ≡ h.ending
transfer_ending h c e = ap (λ h'. h'.ending) (transfer_plain h c e)

running_ordered :
    (g : Option DbCTxn) (n m : ℕ) (c : DbCTxn)
    → RunningCount g n m
    → g ≡ some c
    → c.state.ordered ≡ false
unfolding RunningCount
running_ordered none n m c counts e = absurd (ground (arith, e))
running_ordered (some d) n m c counts e =
    let same : d ≡ c = ground (arith, e) in subst (λ c. c.state.ordered ≡ false) same counts.0

start_ending : (h : Hdlr) (t : DbTxn) (rest : List DbTxn) → (start_group h t rest).ending ≡ h.ending
unfolding start_group
start_ending h t rest = elim (Bool-cases (leb running_c_txn_limit (add32 h.running_c_txn_cnt 1))) [
  | inl full ↦ simp (full) refl
  | inr few ↦ simp (few) refl
]

pub place_ending :
    (h : Hdlr) (t : DbTxn) (rest : List DbTxn) (g : Option DbCTxn)
    → IsValid h
    → h.running_c_txn ≡ g
    → (place_group h t rest g).ending ≡ h.ending
unfolding place_group
place_ending h t rest none v n = start_ending h t rest
place_ending h t rest (some c) v n =
    let plain =
      running_ordered h.running_c_txn h.running_c_txn_cnt h.orderless_c_txn_cnt c v.running_count
        n in
    elim (Bool-cases (is_neg32 (diff_c_txn_and_txn c t))) [
      | inl full ↦ simp (full) (transfer_ending h c plain)
      | inr fits ↦ simp (fits) refl
    ]

-- The oldest `k` callbacks of synchronous groups come to their ends.
unfoldable pub run_ends : ℕ → Hdlr → Hdlr
run_ends zero h = h
run_ends (suc k) h = run_ends k (end_work_step 0 h)

abbrev EndsOne : Hdlr → Hdlr → Type 0
EndsOne h h' =
    (h'.label ≡ h.label) × (h'.txn_list ≡ h.txn_list) × (length h'.ending ≡ length h.ending - 1)

end_work_lem : (h : Hdlr) (cs : List DbCTxn) → h.ending ≡ cs → EndsOne h (end_work_step 0 h)
unfolding end_work_step end_work leave lightfs_bstore_c_txn_commit_flush
end_work_lem h [] e = rw (e) (refl, refl, refl)
end_work_lem h (c ∷ cs) e = elim (Bool-cases c.state.ordered) [
  | inl o ↦ rw (e, o) (refl, refl, omega arith)
  | inr o ↦ rw (e, o) (refl, refl, omega arith)
]

pub run_ends-Run :
    (plain sync : List DbTxn) (k : ℕ) (h : Hdlr)
    → Run plain sync h
    → Run plain sync (run_ends k h)
      × ((run_ends k h).label ≡ h.label)
      × ((run_ends k h).txn_list ≡ h.txn_list)
      × (length (run_ends k h).ending ≡ length h.ending - k)
unfolding run_ends
run_ends-Run plain sync zero h r = (r, refl, refl, omega arith)
run_ends-Run plain sync (suc k) h r =
    let (l, ts, n) = end_work_lem h h.ending refl in
    let (r', l', ts', n') = run_ends-Run plain sync k (end_work_step 0 h) (ends r 0) in
    (r', l' ∙ l, ts' ∙ ts, omega (arith, n, n'))
