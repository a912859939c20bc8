-- ===== src/RbKv/Walk.antt =====
-- A cursor's step along the store.
use kevin.Base.{
  List, [], ◌∷◌, ◌++◌, Option, none, some, Bool, true, false, lt, ℤ, pos, Outcome, done, blocked,
  ◌≡◌, ◌≢◌, refl, ap, sym, subst, ◌∙◌, arith, All, All-right, Bool-cases, inl, inr,
}
use kevin.Key.{Dbt, key_bytes}
use kevin.Key.Order.{lex, lex_refl}
use kevin.RbTree.{inorder, RbLib}
use kevin.RbKv.{RbKvNode, Db, db_notfound, db_get}
use kevin.RbKv.Order.{IsOrdered}
use kevin.RbKv.Store.{IsValid}
use kevin.RbKv.Cursor.{DbcWrap, past_right, dbc_c_getf_next}

-- No node before a node of an ordered list is that node.
pub before-Distinct :
    (l : List RbKvNode) (n : RbKvNode) (r : List RbKvNode)
    → IsOrdered (l ++ (n ∷ r))
    → All (λ k. k ≢ n) l
before-Distinct [] n r h = tt
before-Distinct (k ∷ l) n r h = (
  λ e.
      let below : lex (key_bytes k.key) (key_bytes n.key) ≡ lt =
        (All-right (λ m. lex (key_bytes k.key) (key_bytes m.key) ≡ lt) l (n ∷ r) h.1).0 in
      let same : lex (key_bytes n.key) (key_bytes n.key) ≡ lt =
        ap (λ m. lex (key_bytes m.key) (key_bytes n.key)) (sym e) ∙ below in
      ground (arith, lex_refl (key_bytes n.key), same),
  before-Distinct l n r h.2,
)

-- What `dbc_c_getf_next` does at a node whose successor is `m`, for whether `m` is past the right
-- bound.
unfoldable pub NextStep :
    Db → DbcWrap → RbKvNode → Outcome (Db × DbcWrap × ℤ × Option (Dbt × Dbt)) → Bool → Type 0
NextStep db c m out false = out ≡ done (db, record c { node = some m }, pos 0, some (m.key, m.val))
NextStep db c m out true =
    (after : Db) × (out ≡ done (after, record c { node = none }, db_notfound, none))
    × ((key value : Dbt) → db_get after key value ≡ blocked)

module _ (lib : RbLib RbKvNode) (db : Db) (v : IsValid db) (c : DbcWrap) (n : RbKvNode)
    (at_node : c.node ≡ some n) where
  -- In a valid store a cursor on a node whose successor is in bounds goes to the successor: its key and
  -- value are handed out, the call returns 0 and the lock is free again. When the successor is past the
  -- right bound the call returns DB_NOTFOUND and keeps the lock, and every later `db_get` waits for ever.
  pub dbc_c_getf_next_lem :
      (l : List RbKvNode) (m : RbKvNode) (r : List RbKvNode)
      → inorder db.kv ≡ l ++ (n ∷ m ∷ r)
      → NextStep db c m (dbc_c_getf_next lib db c) (past_right c.right m)
  unfolding NextStep dbc_c_getf_next db_get
  dbc_c_getf_next_lem l m r e =
      let next : lib.rb_next db.kv n ≡ some m =
        lib.next_follows db.kv n m l r e
          (before-Distinct l n (m ∷ r) (subst IsOrdered e v.ordered)) in
      elim (Bool-cases (past_right c.right m)) [
        | inl past ↦ simp (past) (
          record db { rb_lock = true },
          ground (arith, at_node, next, v.unlocked, past),
          λ key value. refl,
        )
        | inr inside ↦ simp (inside) (ground (arith, at_node, next, v.unlocked, inside))
      ]

  -- In a valid store a cursor on the last node comes to the end: DB_NOTFOUND, no node and a free lock.
  pub dbc_c_getf_next-last :
      (l : List RbKvNode)
      → inorder db.kv ≡ l ++ (n ∷ [])
      → dbc_c_getf_next lib db c ≡ done (db, record c { node = none }, db_notfound, none)
  unfolding dbc_c_getf_next
  dbc_c_getf_next-last l e =
      let next : lib.rb_next db.kv n ≡ none =
        lib.next_last db.kv n l e (before-Distinct l n [] (subst IsOrdered e v.ordered)) in
      ground (arith, at_node, next, v.unlocked)
