-- ===== src/Txn/Size.antt =====
-- The size arithmetic of kevinfs/lightfs_txn_hdlr.h and .c against sums without wrap-around.
use kevin.Base.{
  ℕ, ◌+◌, ◌%◌, ◌≤◌, List, [], ◌∷◌, ◌++◌, Option, none, some, ◌==◌, ◌≡◌, length, length-append,
  arith, Bool-cases, inl, inr, leb, ltb, if◌then◌else◌,
}
use kevin.Key.{Dbt}
use kevin.Txn.{
  ReqType, u32, add32, c_txn_limit_bytes, TxnBuf, DbTxn, DbCTxn, lightfs_c_txn_init,
  running_c_txn_limit, calc_txn_buf_size, diff_c_txn_and_txn, is_neg32, c_txn_is_available,
}
use kevin.Txn.Insert.{
  BeginFlags, readonly, sync_write, may_write, lightfs_bstore_txn_begin, enqueue,
  lightfs_bstore_txn_insert,
}
use kevin.Txn.State.{Hdlr, lightfs_c_txn_insert, lightfs_c_txn_create}
use kevin.Txn.Handler.{txn_orderless, start_group, place_group}

-- The sum of what the requests of a list take, without wrap-around.
unfoldable pub total_size : List TxnBuf → ℕ
total_size [] = 0
total_size (b ∷ bs) = calc_txn_buf_size b + total_size bs

total_size-append : (xs bs : List TxnBuf) → total_size (xs ++ bs) ≡ total_size xs + total_size bs
unfolding total_size
total_size-append [] bs = omega arith
total_size-append (x ∷ xs) bs = omega (arith, total_size-append xs bs)

-- The counters of a transaction against its requests; 8 bytes are the header.
pub record IsSized (t : DbTxn) : Type 0 where
  pub cnt_is : t.cnt ≡ length t.txn_buf_list % u32
  pub size_is : t.size ≡ (8 + total_size t.txn_buf_list) % u32

pub lightfs_bstore_txn_begin-IsSized :
    (id : ℕ) (flags : BeginFlags) → IsSized (lightfs_bstore_txn_begin id flags).0
unfolding lightfs_bstore_txn_begin total_size
lightfs_bstore_txn_begin-IsSized id readonly = record {
  cnt_is = omega arith;
  size_is = omega arith;
}
lightfs_bstore_txn_begin-IsSized id sync_write = record {
  cnt_is = omega arith;
  size_is = omega arith;
}
lightfs_bstore_txn_begin-IsSized id may_write = record {
  cnt_is = omega arith;
  size_is = omega arith;
}

enqueue-IsSized : (t : DbTxn) (b : TxnBuf) → IsSized t → IsSized (enqueue t b)
unfolding total_size
enqueue-IsSized t b s = record {
  cnt_is = omega (arith, s.cnt_is, length-append t.txn_buf_list (b ∷ []));
  size_is = omega (arith, s.size_is, total_size-append t.txn_buf_list (b ∷ []));
}

-- When a transaction has the number of its requests in `cnt`, and 8 bytes and what they take in
-- `size`, both in 32 bits, it has them after `lightfs_bstore_txn_insert`, on every branch.
lightfs_bstore_txn_insert-IsSized :
    (t : DbTxn) (key : Dbt) (value : Option Dbt) (page : List ℕ) (off : ℕ) (type : ReqType)
    → IsSized t
    → IsSized (lightfs_bstore_txn_insert t key value page off type)
unfolding lightfs_bstore_txn_insert
lightfs_bstore_txn_insert-IsSized t key none page off type s = enqueue-IsSized t _ s
lightfs_bstore_txn_insert-IsSized t key (some value) page off type s = enqueue-IsSized t _ s

-- For a group and a transaction that each fit in C_TXN_LIMIT_BYTES, the `int` that
-- `diff_c_txn_and_txn` returns is negative exactly when the two do not fit together, and
-- `c_txn_is_available` says the same.
diff_c_txn_and_txn-is_neg32 :
    (c : DbCTxn) (t : DbTxn)
    → c.size ≤ c_txn_limit_bytes
    → t.size ≤ c_txn_limit_bytes
    → (is_neg32 (diff_c_txn_and_txn c t) ≡ ltb c_txn_limit_bytes (c.size + t.size))
      × (c_txn_is_available c t ≡ leb (c.size + t.size) c_txn_limit_bytes)
unfolding diff_c_txn_and_txn c_txn_is_available
diff_c_txn_and_txn-is_neg32 c t hc ht = (ground (arith, hc, ht), ground (arith, hc, ht))

-- The running group's size stays in the limit.
unfoldable pub RunningFits : Option DbCTxn → Type 0
RunningFits none = Unit
RunningFits (some c) = c.size ≤ c_txn_limit_bytes

insert_fits :
    (c : DbCTxn) (t : DbTxn)
    → c.size + t.size ≤ c_txn_limit_bytes
    → (lightfs_c_txn_insert c t).size ≤ c_txn_limit_bytes
unfolding lightfs_c_txn_insert
insert_fits c t h = ground (arith, h)

start_group-fits :
    (h : Hdlr) (t : DbTxn) (rest : List DbTxn)
    → t.size ≤ c_txn_limit_bytes
    → RunningFits (start_group h t rest).running_c_txn
unfolding start_group RunningFits lightfs_c_txn_init
start_group-fits h t rest fits =
    let id = if h.running_c_txn_id == 0 then t.txn_id else h.running_c_txn_id in
    let c = record (lightfs_c_txn_create txn_orderless h.current_workq_id) { txn_id = id } in
    elim (Bool-cases (leb running_c_txn_limit (add32 h.running_c_txn_cnt 1))) [
      | inl full ↦ simp (full) (insert_fits c t (omega arith))
      | inr few ↦ simp (few) (insert_fits c t (omega arith))
    ]

-- When the running group and a transaction each fit in C_TXN_LIMIT_BYTES, the running group fits
-- after the transaction was placed: it was added, or it started a group, or the group was sent.
pub place_group-fits :
    (h : Hdlr) (t : DbTxn) (rest : List DbTxn) (g : Option DbCTxn)
    → RunningFits g
    → t.size ≤ c_txn_limit_bytes
    → RunningFits (place_group h t rest g).running_c_txn
unfolding place_group RunningFits
place_group-fits h t rest none hg ht = start_group-fits h t rest ht
place_group-fits h t rest (some c) hg ht =
    let sign = (diff_c_txn_and_txn-is_neg32 c t hg ht).0 in
    elim (Bool-cases (is_neg32 (diff_c_txn_and_txn c t))) [
      | inl full ↦ simp (full) tt
      | inr fits ↦ simp (fits) (insert_fits c t (ground (arith, sign, fits)))
    ]
