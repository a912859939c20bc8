-- ===== src/Txn/Run.antt =====
-- The runs of the handler: clients commit, and the handler's thread and the workers act, in any
-- order. What a state keeps of the committed transactions, and the invariant of every run.
use kevin.Base.{
  ℕ, ◌+◌, ◌%◌, ◌<◌, List, [], ◌∷◌, ◌++◌, Bool, true, false, not, Option, none, some, ◌==◌,
  if◌then◌else◌, ◌≡◌, ◌⊎◌, length, All, ◌&&◌,
}
use kevin.Txn.{TxnBuf, DbTxn, DbCTxn, u32}
use kevin.Txn.State.{Hdlr, txn_hdlr_alloc, queued, lightfs_bstore_txn_commit}
use kevin.Txn.Handler.{hdlr_step, transfer_work_step, end_work_step, commit_work_step}

-- A transaction that the handler takes over when it is committed, and the queue it goes to.
abbrev pub is_queued : DbTxn → Bool
is_queued t = not (t.cnt == 0) && not t.state.read

-- The commits that go to the plain list, and those that go to the synchronous one.
abbrev pub add_plain : List DbTxn → Hdlr → DbTxn → List DbTxn
add_plain ts h t = if is_queued t && not t.state.sync then ts ++ (queued h t ∷ []) else ts

abbrev pub add_sync : List DbTxn → Hdlr → DbTxn → List DbTxn
add_sync ts h t = if is_queued t && t.state.sync then ts ++ (queued h t ∷ []) else ts

-- A state that a run reaches, with the transactions that were committed, in order: those of the
-- plain commits and those of the synchronous ones.
pub data Run : List DbTxn → List DbTxn → Hdlr → Type 0 where
  start : Run [] [] txn_hdlr_alloc
  commits :
      {plain sync : List DbTxn} {h : Hdlr}
      → Run plain sync h
      → (t : DbTxn) → Run (add_plain plain h t) (add_sync sync h t) (lightfs_bstore_txn_commit h t)
  passes :
      {plain sync : List DbTxn} {h : Hdlr}
      → Run plain sync h
      → (should_stop : Bool) → Run plain sync (hdlr_step should_stop h)
  transfers :
      {plain sync : List DbTxn} {h : Hdlr}
      → Run plain sync h
      → Run plain sync (transfer_work_step h)
  ends :
      {plain sync : List DbTxn} {h : Hdlr}
      → Run plain sync h
      → (i : ℕ) → Run plain sync (end_work_step i h)
  frees :
      {plain sync : List DbTxn} {h : Hdlr} → Run plain sync h → Run plain sync (commit_work_step h)

-- What the device gets of a transaction: its number and its requests.
abbrev pub Entry : Type 0
Entry = ℕ × List TxnBuf

unfoldable pub entries : List DbTxn → List Entry
entries [] = []
entries (t ∷ ts) = (t.txn_id, t.txn_buf_list) ∷ entries ts

-- The transactions of the groups that were sent: of the ordered (synchronous) ones or the others.
unfoldable pub sent : Bool → List DbCTxn → List Entry
sent ordered [] = []
sent ordered (c ∷ cs) =
    let rest = sent ordered cs in
    if ordered
    then (if c.state.ordered then entries c.txn_list ++ rest else rest)
    else (if c.state.ordered then rest else entries c.txn_list ++ rest)

unfoldable pub grouped : Option DbCTxn → List Entry
grouped none = []
grouped (some c) = entries c.txn_list

-- All that was sent, is in the group that is being filled, or waits.
unfoldable pub plain_log : Hdlr → List Entry
plain_log h = sent false h.transferred ++ (grouped h.running_c_txn ++ entries h.txn_list)

unfoldable pub sync_log : Hdlr → List Entry
sync_log h = sent true h.transferred ++ (grouped h.sync_c_txn ++ entries h.sync_txn_list)

-- A queued transaction has requests, and is committed.
abbrev pub IsFilled : DbTxn → Type 0
IsFilled t = ((t.cnt == 0) ≡ false) × (t.state.committed ≡ true)

-- The running group against the counters: it counts once in `running_c_txn_cnt` until it is marked
-- for a flush, and then carries the whole count itself.
unfoldable pub RunningCount : Option DbCTxn → ℕ → ℕ → Type 0
RunningCount none running orderless = (running < 16) × (orderless ≡ running)
RunningCount (some c) running orderless =
    (c.state.ordered ≡ false)
    × (((c.state.flush ≡ false) × (c.committing_cnt ≡ 0) × (running < 16) × (orderless ≡ running))
        ⊎ ((c.state.flush ≡ true) × (c.committing_cnt ≡ 16) × (running ≡ 0) × (orderless ≡ 16)))

-- The synchronous group and the number of groups that are ending, against `ordered_c_txn_cnt`.
unfoldable pub SyncCount : Option DbCTxn → ℕ → ℕ → Type 0
SyncCount none ended ordered = ordered ≡ ended % u32
SyncCount (some c) ended ordered =
    (c.state.ordered ≡ true)
    × (c.state.flush ≡ false)
    × (c.committing_cnt ≡ 1)
    × (ordered ≡ (ended + 1) % u32)

-- A group that is ending counts once.
abbrev pub IsEnding : DbCTxn → Type 0
IsEnding c = (c.state.ordered ≡ true) × (c.committing_cnt ≡ 1)

-- The invariant.
pub record IsValid (h : Hdlr) : Type 0 where
  pub filled : All IsFilled h.txn_list
  pub sync_filled : All IsFilled h.sync_txn_list
  pub counted : h.txn_cnt ≡ (length h.txn_list + length h.sync_txn_list) % u32
  pub running_count : RunningCount h.running_c_txn h.running_c_txn_cnt h.orderless_c_txn_cnt
  pub sync_count : SyncCount h.sync_c_txn (length h.ending) h.ordered_c_txn_cnt
  pub ends : All IsEnding h.ending
  pub woken : entries h.completed ≡ sent true h.transferred
  pub no_bug : h.bug ≡ false

-- A step inside the handler: the invariant holds after it, and both logs are what they were.
pub record Keeps (h h' : Hdlr) : Type 0 where
  pub valid : IsValid h'
  pub plain : plain_log h' ≡ plain_log h
  pub sync : sync_log h' ≡ sync_log h
