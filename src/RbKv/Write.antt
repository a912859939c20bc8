-- ===== src/RbKv/Write.antt =====
-- The calls of rbtreekv.c that change the store, each as a change of the map at one key.
use kevin.Base.{
  List, Option, none, some, true, false, eq, ℤ, pos, Outcome, done, ◌≡◌, refl, sym, ap, ◌∙◌, arith,
  Option-cases, inl, inr, subst, ℕ,
}
use kevin.Key.{Dbt, IsKey, key_bytes}
use kevin.Key.Order.{lex, eq_of_lex}
use kevin.RbTree.{Tree, inorder, link, modify, RbLib}
use kevin.RbTree.Search.{insert_list, modify_list, erase_list, link-list}
use kevin.RbTree.Cong.{Agree, IsCut-cong, find_list-cong, insert_list-cong}
use kevin.RbKv.{
  RbKvNode, Db, db_notfound, mutex_unlock, probe, dbt_copy, find_val_with_key, rb_kv_insert, db_put,
  db_del, updated, updated_fresh, db_update,
}
use kevin.RbKv.Order.{
  IsOrdered, view, bytes_cmp, IsOrdered-IsCut, view-find_list, view-insert_list, view-modify_list,
  view-erase_list, insert_list-IsOrdered, modify_list-IsOrdered, erase_list-IsOrdered,
}
use kevin.RbKv.Store.{
  IsValid, contents, dbt_copy-IsKey, key_bytes-dbt_copy, agree, find-view, found-locked,
  contents-find, split, absent, inorder-modify,
}

-- The call ends, returns `r` and leaves a valid store, in which the value under `q` is `new` and
-- every other key reads as before.
pub record Writes (db : Db) (q : List ℕ) (new : Option Dbt) (r : ℤ) (out : Outcome (Db × ℤ))
    : Type 0 where
  pub after : Db
  pub returns : out ≡ done (after, r)
  pub valid : IsValid after
  pub reads : (p : List ℕ) → contents after p ≡ elim (lex p q) [ eq ↦ new | _ ↦ contents db p ]

same_outcome :
    {db : Db} {q : List ℕ} {new : Option Dbt} {r : ℤ} {out out' : Outcome (Db × ℤ)}
    → Writes db q new r out'
    → out ≡ out'
    → Writes db q new r out
same_outcome w e = record {
  after = w.after;
  returns = e ∙ w.returns;
  valid = w.valid;
  reads = w.reads;
}

module _ (lib : RbLib RbKvNode) (key : Dbt) (is_key : IsKey key) (db : Db) (v : IsValid db) where
  abbrev q : List ℕ
  q = key_bytes key

  abbrev locked : Db
  locked = record db { rb_lock = true }

  modified :
      (n : RbKvNode) (g : Dbt → Dbt)
      → find_val_with_key db key ≡ some n
      → Writes db q (some (g n.val)) (pos 0) (
          done (
            record db {
              kv = modify (probe key) (λ m. record m { val = g m.val }) db.kv;
              rb_lock = false;
            },
            pos 0,
          ))
  modified n g e = record {
    after = record db {
      kv = modify (probe key) (λ m. record m { val = g m.val }) db.kv;
      rb_lock = false;
    };
    returns = refl;
    valid = record {
      ordered = subst IsOrdered (sym nodes) (modify_list-IsOrdered q g (inorder db.kv) v.ordered);
      unlocked = refl;
    };
    reads = λ p.
        ap (λ ns. view ns p) nodes
        ∙ ground (
          arith,
          view-modify_list q p g (inorder db.kv),
          view-find_list q (inorder db.kv),
          find-view key is_key db v.ordered,
        );
  }
    where
      nodes :
          inorder (modify (probe key) (λ m. record m { val = g m.val }) db.kv)
          ≡ modify_list (bytes_cmp q) (λ m. record m { val = g m.val }) (inorder db.kv)
      nodes = inorder-modify key is_key db (λ m. record m { val = g m.val }) v.ordered

  copied : (ns : List RbKvNode) → IsOrdered ns → Agree (probe (dbt_copy key)) (bytes_cmp q) ns
  copied ns h =
      subst (λ b. Agree (probe (dbt_copy key)) (bytes_cmp b) ns) (key_bytes-dbt_copy key)
        (agree (dbt_copy key) (dbt_copy-IsKey key is_key) ns h)

  linked :
      (val : Dbt)
      → find_val_with_key db key ≡ none
      → let new : RbKvNode = record { key = dbt_copy key; val = val } in
        (t : Tree RbKvNode) × (link (probe (dbt_copy key)) new db.kv ≡ some t)
        × (inorder t ≡ insert_list (bytes_cmp q) new (inorder db.kv))
  linked val e =
      let new : RbKvNode = record { key = dbt_copy key; val = val } in
      let ns = inorder db.kv in
      let agrees = copied ns v.ordered in
      let (t, made, nodes) =
        link-list (probe (dbt_copy key)) new db.kv
          (IsCut-cong (probe (dbt_copy key)) (bytes_cmp q) ns agrees
            (IsOrdered-IsCut q ns v.ordered))
          (find_list-cong (probe (dbt_copy key)) (bytes_cmp q) ns agrees
            ∙ absent key is_key db v.ordered e) in
      (t, made, nodes ∙ insert_list-cong (probe (dbt_copy key)) (bytes_cmp q) new ns agrees)

  inserted :
      (val : Dbt)
      → find_val_with_key db key ≡ none
      → (db' : Db) × (rb_kv_insert lib locked (record { key = dbt_copy key; val = val }) ≡ some db')
        × Writes db q (some val) (pos 0) (done (mutex_unlock db', pos 0))
  unfolding rb_kv_insert
  inserted val e =
      let new : RbKvNode = record { key = dbt_copy key; val = val } in
      let (t, made, nodes) = linked val e in
      let order = lib.insert_color_keeps t new ∙ nodes in
      let missing = absent key is_key db v.ordered e in
      (
        record locked { kv = lib.rb_insert_color t new },
        rw (made, rb_kv_insert),
        record {
          after = record db { kv = lib.rb_insert_color t new; rb_lock = false };
          returns = refl;
          valid = record {
            ordered = subst IsOrdered (sym order) (
                insert_list-IsOrdered q new (inorder db.kv) (dbt_copy-IsKey key is_key)
                  (key_bytes-dbt_copy key) missing v.ordered);
            unlocked = refl;
          };
          reads = λ p.
              ap (λ ns. view ns p) order
              ∙ view-insert_list q p new (inorder db.kv) (key_bytes-dbt_copy key) missing;
        },
      )

  read :
      {o : Option RbKvNode}
      → find_val_with_key db key ≡ o
      → contents db q ≡ elim o [ none ↦ none | some n ↦ some n.val ]
  read e = rw (← e) (contents-find key is_key db v.ordered)

  erased :
      (n : RbKvNode)
      → find_val_with_key db key ≡ some n
      → Writes db q none
          (pos 0)
          (done (record db { kv = lib.rb_erase db.kv n; rb_lock = false }, pos 0))
  erased n e = record {
    after = record db { kv = lib.rb_erase db.kv n; rb_lock = false };
    returns = refl;
    valid = record {
      ordered = subst IsOrdered (sym nodes) (erase_list-IsOrdered q (inorder db.kv) v.ordered);
      unlocked = refl;
    };
    reads = λ p. ap (λ ns. view ns p) nodes ∙ view-erase_list q p (inorder db.kv) v.ordered;
  }
    where
      nodes : inorder (lib.rb_erase db.kv n) ≡ erase_list (bytes_cmp q) (inorder db.kv)
      nodes =
          let s = split key is_key db n v.ordered e in
          lib.erase_removes db.kv n s.before s.after s.whole s.first ∙ sym s.erased

  unchanged :
      find_val_with_key db key ≡ none
      → Writes db q none db_notfound (done (record db { rb_lock = false }, db_notfound))
  unchanged e = record {
    after = record db { rb_lock = false };
    returns = refl;
    valid = record { ordered = v.ordered; unlocked = refl };
    reads = λ p. ground (arith, read e, eq_of_lex p q);
  }

  -- On a valid store, whose tree is in order and whose lock is free, `db_put` with a key in bounds
  -- ends and returns 0. The store is valid after it, the copied value is the one under the key, and
  -- every other key reads as before.
  pub db_put_lem :
      (value : Dbt) → Writes db q (some (dbt_copy value)) (pos 0) (db_put lib db key value)
  unfolding db_put
  db_put_lem value = elim (Option-cases (find_val_with_key db key)) [
    | inl e ↦
        let (db', made, w) = inserted (dbt_copy value) e in
        same_outcome w (ground (arith, v.unlocked, found-locked key is_key db, made))
    | inr (n, e) ↦
        same_outcome (modified n (λ _. dbt_copy value) e)
          (ground (arith, v.unlocked, found-locked key is_key db))
  ]

  -- On a valid store `db_update` with a key in bounds ends and returns 0. Where the key is there, `ulen`
  -- bytes of its value from `offset` on are overwritten; where it is not, the key gets a new value,
  -- zeroed up to `offset` and from the end of the update to the end of the page.
  db_update_lem :
      (value : Dbt) (offset : ℕ)
      → Writes db q
          (some (elim (contents db q) [
            | none ↦ updated_fresh lib value offset
            | some old ↦ updated lib value offset old
          ]))
          (pos 0)
          (db_update lib db key value offset)
  unfolding db_update
  db_update_lem value offset = elim (Option-cases (find_val_with_key db key)) [
    | inl e ↦
        let (db', made, w) = inserted (updated_fresh lib value offset) e in
        rw (read e) (same_outcome w (ground (arith, v.unlocked, found-locked key is_key db, made)))
    | inr (n, e) ↦ rw (read e) (
        same_outcome (modified n (updated lib value offset) e)
          (ground (arith, v.unlocked, found-locked key is_key db)))
  ]

  -- On a valid store, whose tree is in order and whose lock is free, `db_del` with a key in bounds
  -- ends. It takes the key out and returns 0, or returns DB_NOTFOUND where the map has no value
  -- under the key. The store is valid after it, and every other key reads as before.
  pub db_del_lem :
      Writes db q none
        (elim (contents db q) [ none ↦ db_notfound | some _ ↦ pos 0 ])
        (db_del lib db key)
  unfolding db_del
  db_del_lem = elim (Option-cases (find_val_with_key db key)) [
    | inl e ↦
        rw (read e)
          (same_outcome (unchanged e) (ground (arith, v.unlocked, found-locked key is_key db)))
    | inr (n, e) ↦
        rw (read e)
          (same_outcome (erased n e) (ground (arith, v.unlocked, found-locked key is_key db)))
  ]
