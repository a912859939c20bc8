-- ===== src/Txn/Passes.antt =====
-- The passes of the handler's thread over the plain transactions keep the invariant and the logs.
use kevin.Base.{
  ℕ, ◌+◌, ◌%◌, ◌<◌, List, [], ◌∷◌, ◌++◌, true, false, Option, none, some, ◌==◌, if◌then◌else◌, ◌≡◌,
  refl, sym, ap, subst, ◌∙◌, inl, inr, length, All, arith, Bool-cases, append_assoc, append-nil,
  suc, leb,
}
use kevin.Txn.{running_c_txn_limit, DbTxn, DbCTxn, u32, sub32, add32, lightfs_c_txn_init}
use kevin.Txn.State.{
  Label, wait_for_txn, Hdlr, take_txn, lightfs_c_txn_create, lightfs_c_txn_insert,
  lightfs_c_txn_transfer,
}
use kevin.Txn.Handler.{txn_orderless, start_group, transfer_now}
use kevin.Txn.Run.{
  IsValid, Keeps, entries, sent, grouped, plain_log, sync_log, IsFilled, RunningCount,
}
use kevin.Txn.Transfer.{
  sent-append, insert-entries, insert_state, insert_committing, marked, transfer_plain, same_label,
}

-- A group without order is sent, and there is no running group then.
module _ (h : Hdlr) (v : IsValid h) (c d : DbCTxn) (running : h.running_c_txn ≡ some c)
    (same : d.txn_list ≡ c.txn_list) (plain : d.state.ordered ≡ false) (id n : ℕ) (l : Label)
    (small : n < 16)
    (paid : (if d.state.flush
        then sub32 h.orderless_c_txn_cnt d.committing_cnt
        else h.orderless_c_txn_cnt)
      ≡ n) where
  sends :
      Keeps h
        (record (lightfs_c_txn_transfer
          (record h { running_c_txn_id = id; running_c_txn_cnt = n })
          d) { running_c_txn = none; label = l })
  unfolding RunningCount plain_log sync_log grouped sent
  sends =
      subst (λ h'. Keeps h (record h' { running_c_txn = none; label = l }))
        (sym (transfer_plain (record h { running_c_txn_id = id; running_c_txn_cnt = n }) d plain))
        (record {
          valid = record {
            filled = v.filled;
            sync_filled = v.sync_filled;
            counted = v.counted;
            running_count = (small, paid);
            sync_count = v.sync_count;
            woken =
                v.woken
                ∙ ground (
                  arith,
                  plain,
                  append-nil (sent true h.transferred),
                  sent-append true h.transferred (marked d),
                );
            ends = v.ends;
            no_bug = v.no_bug;
          };
          plain = ground (
            arith,
            running,
            same,
            plain,
            sent-append false h.transferred (marked d),
            append_assoc (sent false h.transferred) (entries c.txn_list) (entries h.txn_list),
            append-nil (entries c.txn_list),
          );
          sync = ground (
            arith,
            plain,
            append-nil (sent true h.transferred),
            sent-append true h.transferred (marked d),
          );
        })

pub transfer_now-Keeps :
    (h : Hdlr) (g : Option DbCTxn) → IsValid h → h.running_c_txn ≡ g → Keeps h (transfer_now h g)
unfolding transfer_now RunningCount
transfer_now-Keeps h none v n = same_label h wait_for_txn v
transfer_now-Keeps h (some c) v n =
    let counts =
      subst (λ g. RunningCount g h.running_c_txn_cnt h.orderless_c_txn_cnt) n v.running_count in
    sends h v c
      (record c {
        committing_cnt = if c.committing_cnt == 0 then h.running_c_txn_cnt else c.committing_cnt;
        state = record c.state { flush = true };
      })
      n refl counts.0 0 0 wait_for_txn (omega arith) (ground (arith, counts.1))

pub place_full-Keeps :
    (h : Hdlr) (c : DbCTxn)
    → IsValid h
    → h.running_c_txn ≡ some c
    → Keeps h (record (lightfs_c_txn_transfer h c) { running_c_txn = none })
unfolding RunningCount
place_full-Keeps h c v n =
    let counts =
      subst (λ g. RunningCount g h.running_c_txn_cnt h.orderless_c_txn_cnt) n v.running_count in
    let kept =
      sends h v c c n refl counts.0 h.running_c_txn_id h.running_c_txn_cnt h.label
        (ground (arith, counts.1)) (ground (arith, counts.1)) in
    subst (λ h'. Keeps h (record h' { running_c_txn = none })) (sym (transfer_plain h c counts.0))
      (subst (λ h'. Keeps h (record h' { running_c_txn = none; label = h.label }))
        (transfer_plain h c counts.0) kept)

-- One transaction leaves a list that the counter counts.
counted_less : (cnt n m : ℕ) → cnt ≡ (suc n + m) % u32 → sub32 cnt 1 ≡ (n + m) % u32
counted_less cnt n m e = omega arith

-- A transaction of the plain list is now in the running group.
module _ (h : Hdlr) (t : DbTxn) (rest : List DbTxn) (v : IsValid h)
    (e : h.txn_list ≡ t ∷ rest) where
  filled : All IsFilled (t ∷ rest)
  filled = subst (All IsFilled) e v.filled

  counted : sub32 h.txn_cnt 1 ≡ (length rest + length h.sync_txn_list) % u32
  counted =
      counted_less h.txn_cnt (length rest) (length h.sync_txn_list)
        (v.counted ∙ ap (λ ts. (length ts + length h.sync_txn_list) % u32) e)

  places :
      (g : DbCTxn) (workq id n m : ℕ)
      → entries g.txn_list ≡ grouped h.running_c_txn ++ entries (t ∷ [])
      → RunningCount (some g) n m
      → Keeps h (record (take_txn h t) {
        txn_list = rest;
        current_workq_id = workq;
        running_c_txn = some g;
        running_c_txn_id = id;
        running_c_txn_cnt = n;
        orderless_c_txn_cnt = m;
      })
  unfolding plain_log sync_log grouped entries
  places g workq id n m joined counts = record {
    valid = record {
      filled = filled.1;
      sync_filled = v.sync_filled;
      counted = counted;
      running_count = counts;
      sync_count = v.sync_count;
      woken = v.woken;
      ends = v.ends;
      no_bug = ground (arith, v.no_bug, filled.0);
    };
    plain = ground (
      arith,
      e,
      joined,
      append_assoc (grouped h.running_c_txn) (entries (t ∷ [])) (entries rest),
    );
    sync = refl;
  }

  pub place_joins :
      (c : DbCTxn)
      → h.running_c_txn ≡ some c
      → Keeps h (record (take_txn h t) {
        txn_list = rest;
        running_c_txn = some (lightfs_c_txn_insert c t);
      })
  unfolding RunningCount grouped
  place_joins c n =
      let counts =
        subst (λ g. RunningCount g h.running_c_txn_cnt h.orderless_c_txn_cnt) n v.running_count in
      places (lightfs_c_txn_insert c t) h.current_workq_id h.running_c_txn_id h.running_c_txn_cnt
        h.orderless_c_txn_cnt
        (insert-entries c t filled.0 ∙ ap (λ g. grouped g ++ entries (t ∷ [])) (sym n))
        (
          ap (λ s. s.ordered) (insert_state c t) ∙ counts.0,
          ground (arith, counts.1, insert_state c t, insert_committing c t),
        )

  pub start_group-Keeps : h.running_c_txn ≡ none → Keeps h (start_group h t rest)
  unfolding start_group RunningCount grouped entries lightfs_c_txn_init
  start_group-Keeps n =
      let counts =
        subst (λ g. RunningCount g h.running_c_txn_cnt h.orderless_c_txn_cnt) n v.running_count in
      let id = if h.running_c_txn_id == 0 then t.txn_id else h.running_c_txn_id in
      let workq = if h.running_c_txn_id == 0 then 0 else h.current_workq_id in
      let c =
        lightfs_c_txn_insert
          (record (lightfs_c_txn_create txn_orderless h.current_workq_id) { txn_id = id }) t in
      let count = add32 h.running_c_txn_cnt 1 in
      let joined : entries c.txn_list ≡ grouped h.running_c_txn ++ entries (t ∷ []) =
        insert-entries
          (record (lightfs_c_txn_create txn_orderless h.current_workq_id) { txn_id = id }) t
          filled.0
        ∙ ap (λ g. grouped g ++ entries (t ∷ [])) (sym n) in
      elim (Bool-cases (leb running_c_txn_limit count)) [
        | inl full ↦ rw (full) (
            places (record c { committing_cnt = count; state = record c.state { flush = true } })
              workq 0 0 (add32 h.orderless_c_txn_cnt 1) joined
              (ground (
                arith,
                counts,
                full,
                insert_state
                    (record (lightfs_c_txn_create txn_orderless h.current_workq_id) { txn_id = id })
                    t,
              )))
        | inr full ↦ rw (full) (
            places c workq id count (add32 h.orderless_c_txn_cnt 1) joined (
              ground (
                arith,
                counts,
                full,
                insert_state
                    (record (lightfs_c_txn_create txn_orderless h.current_workq_id) { txn_id = id })
                    t,
                insert_committing
                    (record (lightfs_c_txn_create txn_orderless h.current_workq_id) { txn_id = id })
                    t,
              )))
      ]
