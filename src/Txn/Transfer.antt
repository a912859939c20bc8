-- ===== src/Txn/Transfer.antt =====
-- What the inserts and transfers of kevinfs/lightfs_txn_hdlr.c change, and the logs of lists that are
-- put together.
use kevin.Base.{
  ◌+◌, ◌%◌, ◌^◌, List, [], ◌∷◌, ◌++◌, Bool, true, false, none, if◌then◌else◌, ◌≡◌, refl, ap, ◌-◌,
  inl, inr, length, arith, Bool-cases, append_assoc,
}
use kevin.Txn.{DbTxn, DbCTxn, sub32, add32}
use kevin.Txn.State.{
  Label, Hdlr, lightfs_c_txn_insert, lightfs_bstore_c_txn_commit_flush, lightfs_c_txn_transfer_cb,
  lightfs_c_txn_transfer,
}
use kevin.Txn.Run.{IsValid, Keeps, entries, sent, plain_log, sync_log, IsFilled}

pub entries-append : (ts us : List DbTxn) → entries (ts ++ us) ≡ entries ts ++ entries us
unfolding entries
entries-append [] us = refl
entries-append (t ∷ ts) us = ap (λ rest. (t.txn_id, t.txn_buf_list) ∷ rest) (entries-append ts us)

pub sent-append :
    (o : Bool) (cs : List DbCTxn) (c : DbCTxn)
    → sent o (cs ++ (c ∷ [])) ≡ sent o cs ++ sent o (c ∷ [])
unfolding sent
sent-append o [] c = refl
sent-append o (d ∷ cs) c =
    ground
      (arith, sent-append o cs c, append_assoc (entries d.txn_list) (sent o cs) (sent o (c ∷ [])))

pub insert-entries :
    (c : DbCTxn) (t : DbTxn)
    → IsFilled t
    → entries (lightfs_c_txn_insert c t).txn_list ≡ entries c.txn_list ++ entries (t ∷ [])
unfolding lightfs_c_txn_insert entries
insert-entries c t e = rw (e.0) (entries-append c.txn_list _)

pub insert_state : (c : DbCTxn) (t : DbTxn) → (lightfs_c_txn_insert c t).state ≡ c.state
unfolding lightfs_c_txn_insert
insert_state c t = ground arith

pub insert_committing :
    (c : DbCTxn) (t : DbTxn) → (lightfs_c_txn_insert c t).committing_cnt ≡ c.committing_cnt
unfolding lightfs_c_txn_insert
insert_committing c t = ground arith

abbrev pub marked : DbCTxn → DbCTxn
marked c = record c { state = record c.state { transfering = true } }

-- What a transfer changes, for a group without order and for a synchronous one.
pub transfer_plain :
    (h : Hdlr) (d : DbCTxn)
    → d.state.ordered ≡ false
    → lightfs_c_txn_transfer h d ≡ record h {
      committing_c_txn_cnt = add32 h.committing_c_txn_cnt 1;
      orderless_c_txn_cnt =
          if d.state.flush
          then sub32 h.orderless_c_txn_cnt d.committing_cnt
          else h.orderless_c_txn_cnt;
      transferred = h.transferred ++ (marked d ∷ []);
      commit_work = if h.running then h.commit_work ++ (marked d ∷ []) else h.commit_work;
    }
unfolding lightfs_c_txn_transfer lightfs_c_txn_transfer_cb lightfs_bstore_c_txn_commit_flush
transfer_plain h d e = elim (Bool-cases d.state.flush) [
  | inl f ↦ elim (Bool-cases h.running) [ inl r ↦ rw (e, f, r) refl | inr r ↦ rw (e, f, r) refl ]
  | inr f ↦ elim (Bool-cases h.running) [ inl r ↦ rw (e, f, r) refl | inr r ↦ rw (e, f, r) refl ]
]

pub transfer_ordered :
    (h : Hdlr) (d : DbCTxn)
    → d.state.ordered ≡ true
    → d.state.flush ≡ false
    → lightfs_c_txn_transfer h d ≡ record h {
      committing_c_txn_cnt = add32 h.committing_c_txn_cnt 1;
      transferred = h.transferred ++ (marked d ∷ []);
      completed = h.completed ++ d.txn_list;
      syncing_cnt = (h.syncing_cnt + 2 ^ 16 - length d.txn_list % 2 ^ 16) % 2 ^ 16;
      sync_c_txn = none;
      ending = h.ending ++ (marked d ∷ []);
    }
unfolding lightfs_c_txn_transfer lightfs_c_txn_transfer_cb lightfs_bstore_c_txn_commit_flush
transfer_ordered h d e f = rw (e, f) refl

pub same_label : (h : Hdlr) (l : Label) → IsValid h → Keeps h (record h { label = l })
unfolding plain_log sync_log
same_label h l v = record {
  valid = record {
    filled = v.filled;
    sync_filled = v.sync_filled;
    counted = v.counted;
    running_count = v.running_count;
    sync_count = v.sync_count;
    woken = v.woken;
    ends = v.ends;
    no_bug = v.no_bug;
  };
  plain = refl;
  sync = refl;
}
