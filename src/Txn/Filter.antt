-- ===== src/Txn/Filter.antt =====
-- The filter of a group against the keys of its transactions.
use kevin.Base.{
  ◌*◌, List, [], ◌∷◌, ◌==◌, ◌≡◌, All, All-append, All-imp, arith, Bool-cases, inl, inr,
}
use kevin.Bloom.{Bloomfilter, bloomfilter_set, bloomfilter_get}
use kevin.Bloom.Members.{
  IsValid, bloomfilter_set-IsValid, bloomfilter_get-set_self, bloomfilter_get-set_keeps,
  bloomfilter_init-IsValid,
}
use kevin.Txn.{TxnBuf, DbTxn, DbCTxn, lightfs_c_txn_init}
use kevin.Txn.State.{add_filter, lightfs_c_txn_insert}

-- A request that the filter knows, and a transaction all of whose requests it knows.
abbrev pub IsKnown : Bloomfilter → TxnBuf → Type 0
IsKnown f b = bloomfilter_get f b.key b.key_len ≡ 1

abbrev pub AllKnown : Bloomfilter → DbTxn → Type 0
AllKnown f t = All (IsKnown f) t.txn_buf_list

-- The filter of a group is well formed and knows the requests of all its transactions.
pub record IsCovered (c : DbCTxn) : Type 0 where
  pub valid : IsValid c.filter
  pub known : All (AllKnown c.filter) c.txn_list

add_filter-IsValid : (f : Bloomfilter) (bs : List TxnBuf) → IsValid f → IsValid (add_filter f bs)
unfolding add_filter
add_filter-IsValid f [] v = v
add_filter-IsValid f (b ∷ bs) v =
    add_filter-IsValid (bloomfilter_set f b.key b.key_len) bs
      (bloomfilter_set-IsValid f b.key b.key_len v)

add_filter_keeps :
    (f : Bloomfilter) (bs : List TxnBuf) (b : TxnBuf)
    → IsValid f
    → IsKnown f b
    → IsKnown (add_filter f bs) b
unfolding add_filter
add_filter_keeps f [] b v h = h
add_filter_keeps f (x ∷ bs) b v h =
    add_filter_keeps (bloomfilter_set f x.key x.key_len) bs b
      (bloomfilter_set-IsValid f x.key x.key_len v)
      (bloomfilter_get-set_keeps f b.key b.key_len x.key x.key_len v h)

add_filter-IsKnown :
    (f : Bloomfilter) (bs : List TxnBuf) → IsValid f → All (IsKnown (add_filter f bs)) bs
unfolding add_filter
add_filter-IsKnown f [] v = tt
add_filter-IsKnown f (b ∷ bs) v =
    let w = bloomfilter_set-IsValid f b.key b.key_len v in
    (
      add_filter_keeps (bloomfilter_set f b.key b.key_len) bs b w
          (bloomfilter_get-set_self f b.key b.key_len v),
      add_filter-IsKnown (bloomfilter_set f b.key b.key_len) bs w,
    )

pub lightfs_c_txn_init-IsCovered : IsCovered lightfs_c_txn_init
unfolding lightfs_c_txn_init
lightfs_c_txn_init-IsCovered = record {
  valid = bloomfilter_init-IsValid (308 * 8) 3 (omega arith) (omega arith);
  known = tt;
}

-- When the filter of a group is well formed and finds every key of every transaction in the group, it
-- is and does so after `lightfs_c_txn_insert` let another transaction join.
pub lightfs_c_txn_insert-IsCovered :
    (c : DbCTxn) (t : DbTxn) → IsCovered c → IsCovered (lightfs_c_txn_insert c t)
unfolding lightfs_c_txn_insert
lightfs_c_txn_insert-IsCovered c t = joins
  where
    kept : IsCovered c → All (AllKnown (add_filter c.filter t.txn_buf_list)) c.txn_list
    kept v =
        All-imp (AllKnown c.filter) (AllKnown (add_filter c.filter t.txn_buf_list))
          (λ u hs.
            All-imp (IsKnown c.filter) (IsKnown (add_filter c.filter t.txn_buf_list))
              (λ b. add_filter_keeps c.filter t.txn_buf_list b v.valid) u.txn_buf_list hs)
          c.txn_list v.known

    joins : IsCovered c → IsCovered (lightfs_c_txn_insert c t)
    joins v = elim (Bool-cases (t.cnt == 0)) [
      | inl empty ↦
          simp (empty)
            (record { valid = add_filter-IsValid c.filter t.txn_buf_list v.valid; known = kept v })
      | inr full ↦ simp (full) (record {
        valid = add_filter-IsValid c.filter t.txn_buf_list v.valid;
        known =
            All-append (AllKnown (add_filter c.filter t.txn_buf_list)) c.txn_list (_ ∷ []) (kept v)
              (add_filter-IsKnown c.filter t.txn_buf_list v.valid, tt);
      })
    ]
