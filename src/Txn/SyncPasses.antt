-- ===== src/Txn/SyncPasses.antt =====
-- The passes of the handler's thread over the synchronous transactions, and the work of the workers,
-- keep the invariant and the logs.
use kevin.Base.{
  ℕ, zero, get_elem?, length-append, All-append, ◌+◌, ◌%◌, List, [], ◌∷◌, ◌++◌, true, false, Option,
  none, some, ◌≡◌, refl, sym, ap, subst, ◌∙◌, inl, inr, length, All, arith, Bool-cases,
  append_assoc, append-nil, suc,
}
use kevin.Txn.{DbTxn, DbCTxn, u32, sub32, add32, lightfs_c_txn_init}
use kevin.Txn.State.{
  skip_sync, Hdlr, take_txn, lightfs_c_txn_create, lightfs_c_txn_insert,
  lightfs_bstore_c_txn_commit_flush,
}
use kevin.Txn.Handler.{
  txn_ordered, join_sync, transfer_sync, transfer_work, leave, end_work, free_group,
}
use kevin.Txn.Run.{
  IsValid, Keeps, entries, sent, grouped, plain_log, sync_log, IsFilled, SyncCount, IsEnding,
}
use kevin.Txn.Transfer.{
  entries-append, sent-append, insert-entries, insert_state, insert_committing, marked,
  transfer_ordered, same_label,
}

counted_less_sync : (cnt n m : ℕ) → cnt ≡ (n + suc m) % u32 → sub32 cnt 1 ≡ (n + m) % u32
counted_less_sync cnt n m e = omega arith

-- A transaction of the synchronous list is now in the synchronous group.
module _ (h : Hdlr) (t : DbTxn) (rest : List DbTxn) (v : IsValid h)
    (e : h.sync_txn_list ≡ t ∷ rest) where
  rest-IsFilled : All IsFilled (t ∷ rest)
  rest-IsFilled = subst (All IsFilled) e v.sync_filled

  sync_counted : sub32 h.txn_cnt 1 ≡ (length h.txn_list + length rest) % u32
  sync_counted =
      counted_less_sync h.txn_cnt (length h.txn_list) (length rest)
        (v.counted ∙ ap (λ ts. (length h.txn_list + length ts) % u32) e)

  places_sync :
      (g : DbCTxn) (n : ℕ)
      → entries g.txn_list ≡ grouped h.sync_c_txn ++ entries (t ∷ [])
      → SyncCount (some g) (length h.ending) n
      → Keeps h (record (take_txn h t) {
        sync_txn_list = rest;
        sync_c_txn = some g;
        ordered_c_txn_cnt = n;
      })
  unfolding plain_log sync_log grouped entries
  places_sync g n joined counts = record {
    valid = record {
      filled = v.filled;
      sync_filled = rest-IsFilled.1;
      counted = sync_counted;
      running_count = v.running_count;
      sync_count = counts;
      woken = v.woken;
      ends = v.ends;
      no_bug = ground (arith, v.no_bug, rest-IsFilled.0);
    };
    plain = refl;
    sync =
        ground
          (arith, e, joined, append_assoc (grouped h.sync_c_txn) (entries (t ∷ [])) (entries rest));
  }

  pub join_sync-Keeps : (g : Option DbCTxn) → h.sync_c_txn ≡ g → Keeps h (join_sync h t rest g)
  unfolding join_sync SyncCount grouped entries lightfs_c_txn_init
  join_sync-Keeps none n =
      let counts = subst (λ g. SyncCount g (length h.ending) h.ordered_c_txn_cnt) n v.sync_count in
      let c = record (lightfs_c_txn_create txn_ordered h.current_workq_id) {
        committing_cnt = 1;
        txn_id = t.txn_id;
      } in
      places_sync (lightfs_c_txn_insert c t) (add32 h.ordered_c_txn_cnt 1)
        (insert-entries c t rest-IsFilled.0 ∙ ap (λ g. grouped g ++ entries (t ∷ [])) (sym n))
        (
          ground (arith, counts, insert_state c t),
          ground (arith, insert_state c t),
          insert_committing c t,
          ground (arith, counts),
        )
  join_sync-Keeps (some c) n =
      let counts = subst (λ g. SyncCount g (length h.ending) h.ordered_c_txn_cnt) n v.sync_count in
      elim (Bool-cases c.state.transfering) [
        | inl busy ↦ rw (busy) (same_label h skip_sync v)
        | inr idle ↦ simp (idle) (
            places_sync (lightfs_c_txn_insert c t) h.ordered_c_txn_cnt
              (insert-entries c t rest-IsFilled.0 ∙ ap (λ g. grouped g ++ entries (t ∷ [])) (sym n))
              (
                ap (λ s. s.ordered) (insert_state c t) ∙ counts.0,
                ap (λ s. s.flush) (insert_state c t) ∙ counts.1,
                insert_committing c t ∙ counts.2,
                counts.3,
              ))
      ]

pub transfer_sync-Keeps :
    (h : Hdlr) (g : Option DbCTxn) → IsValid h → h.sync_c_txn ≡ g → Keeps h (transfer_sync h g)
unfolding transfer_sync SyncCount grouped plain_log sync_log
transfer_sync-Keeps h none v n = same_label h skip_sync v
transfer_sync-Keeps h (some c) v n =
    let counts = subst (λ g. SyncCount g (length h.ending) h.ordered_c_txn_cnt) n v.sync_count in
    elim (Bool-cases c.state.transfering) [
      | inl busy ↦ rw (busy) (same_label h skip_sync v)
      | inr idle ↦ rw (idle) (record {
        valid = record {
          filled = v.filled;
          sync_filled = v.sync_filled;
          counted = v.counted;
          running_count = v.running_count;
          sync_count = counts;
          woken = v.woken;
          ends = v.ends;
          no_bug = v.no_bug;
        };
        plain = refl;
        sync = ap (λ g. sent true h.transferred ++ (grouped g ++ entries h.sync_txn_list)) (sym n);
      })
    ]

pub transfer_work-Keeps :
    (h : Hdlr) (g : Option DbCTxn) → IsValid h → h.sync_c_txn ≡ g → Keeps h (transfer_work h g)
unfolding transfer_work SyncCount grouped plain_log sync_log sent
transfer_work-Keeps h none v n = record { valid = v; plain = refl; sync = refl }
transfer_work-Keeps h (some c) v n =
    let counts = subst (λ g. SyncCount g (length h.ending) h.ordered_c_txn_cnt) n v.sync_count in
    let woken = sent-append true h.transferred (marked c) in
    let logged = sent-append false h.transferred (marked c) in
    elim (Bool-cases h.transfer_work) [
      | inr idle ↦ simp (idle) (record { valid = v; plain = refl; sync = refl })
      | inl queued ↦ simp (queued) (
          subst (Keeps h)
            (sym (transfer_ordered (record h { transfer_work = false }) c counts.0 counts.1))
            (record {
              valid = record {
                filled = v.filled;
                sync_filled = v.sync_filled;
                counted = v.counted;
                running_count = v.running_count;
                sync_count = ground (arith, counts, length-append h.ending (marked c ∷ []));
                woken =
                    entries-append h.completed c.txn_list
                    ∙ ground (arith, v.woken, woken, counts.0, append-nil (entries c.txn_list));
                ends =
                    All-append IsEnding h.ending (marked c ∷ []) v.ends ((counts.0, counts.2), tt);
                no_bug = v.no_bug;
              };
              plain = ground (arith, logged, counts.0, append-nil (sent false h.transferred));
              sync = ground (
                arith,
                n,
                woken,
                counts.0,
                append-nil (entries c.txn_list),
                append_assoc (sent true h.transferred) (entries c.txn_list)
                    (entries h.sync_txn_list),
              );
            }))
    ]

-- A group that ends is one of those that are ending.
get_elem-IsEnding :
    (i : ℕ) (cs : List DbCTxn) (c : DbCTxn)
    → All IsEnding cs
    → get_elem? cs i ≡ some c
    → IsEnding c × All IsEnding (leave i cs) × (length cs ≡ suc (length (leave i cs)))
unfolding leave
get_elem-IsEnding i [] c a e = absurd (ground (arith, e))
get_elem-IsEnding zero (d ∷ cs) c a e =
    let same : d ≡ c = ground (arith, e) in (subst IsEnding same a.0, a.1, refl)
get_elem-IsEnding (suc i) (d ∷ cs) c a e =
    let (p, q, l) = get_elem-IsEnding i cs c a.1 e in (p, (a.0, q), ap suc l)

count_less : (g : Option DbCTxn) (n cnt : ℕ) → SyncCount g (suc n) cnt → SyncCount g n (sub32 cnt 1)
unfolding SyncCount
count_less none n cnt e = ground (arith, e)
count_less (some c) n cnt e = (e.0, e.1, e.2, ground (arith, e))

pub end_work-Keeps :
    (h : Hdlr) (i : ℕ) (g : Option DbCTxn)
    → IsValid h
    → get_elem? h.ending i ≡ g
    → Keeps h (end_work h i g)
unfolding end_work lightfs_bstore_c_txn_commit_flush plain_log sync_log
end_work-Keeps h i none v e = record { valid = v; plain = refl; sync = refl }
end_work-Keeps h i (some c) v e =
    let (p, q, l) = get_elem-IsEnding i h.ending c v.ends e in
    let counts =
      count_less h.sync_c_txn (length (leave i h.ending)) h.ordered_c_txn_cnt
        (subst (λ n. SyncCount h.sync_c_txn n h.ordered_c_txn_cnt) l v.sync_count) in
    rw (p.0, p.1)
      (record {
        valid = record {
          filled = v.filled;
          sync_filled = v.sync_filled;
          counted = v.counted;
          running_count = v.running_count;
          sync_count = counts;
          woken = v.woken;
          ends = q;
          no_bug = v.no_bug;
        };
        plain = refl;
        sync = refl;
      })

pub free_group-Keeps : (h : Hdlr) (cs : List DbCTxn) → IsValid h → Keeps h (free_group h cs)
unfolding free_group plain_log sync_log
free_group-Keeps h [] v = record { valid = v; plain = refl; sync = refl }
free_group-Keeps h (c ∷ cs) v = record {
  valid = record {
    filled = v.filled;
    sync_filled = v.sync_filled;
    counted = v.counted;
    running_count = v.running_count;
    sync_count = v.sync_count;
    woken = v.woken;
    ends = v.ends;
    no_bug = v.no_bug;
  };
  plain = refl;
  sync = refl;
}
