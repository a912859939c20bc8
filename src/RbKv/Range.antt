-- ===== src/RbKv/Range.antt =====
-- The range searches of kevinfs/rbtreekv.c, on the map that the store stands for.
use kevin.Base.{
  ℕ, List, [], ◌∷◌, Option, none, some, true, Ordering, lt, gt, ℤ, pos, Outcome, done, ◌≡◌, ◌≢◌,
  refl, sym, subst, ◌∙◌, arith, inl, inr, Ordering-cases,
}
use kevin.Key.{Dbt, IsKey, key_bytes}
use kevin.Key.Order.{lex, lex_refl, eq_of_lex, lex-gt_of_lt, lex-lt_of_gt, lex_trans}
use kevin.RbTree.{inorder, RbLib}
use kevin.RbTree.Cong.{Agree}
use kevin.RbTree.Range.{ge_list, find_ge-ge_list}
use kevin.RbKv.{RbKvNode, Db, db_notfound, probe}
use kevin.RbKv.Order.{IsOrdered, view, bytes_cmp, view-above, All-lt-above}
use kevin.RbKv.Store.{IsValid, contents, cut, agree}
use kevin.RbKv.Walk.{before-Distinct}
use kevin.RbKv.Cursor.{
  DbcWrap, find_val_with_key_ge, dbc_c_getf_set_range, dbc_c_get, copied_key, copied_value,
}

-- What a search for the least key from `q` on finds in a map: a key that is not smaller, with its value
-- and no other key between; or that no key from `q` on has a value.
unfoldable pub IsLeast : (List ℕ → Option Dbt) → List ℕ → Option RbKvNode → Type 0
IsLeast map q none = (p : List ℕ) → lex q p ≢ gt → map p ≡ none
IsLeast map q (some n) =
    (lex q (key_bytes n.key) ≢ gt)
    × (map (key_bytes n.key) ≡ some n.val)
    × ((p : List ℕ) → lex q p ≢ gt → lex p (key_bytes n.key) ≡ lt → map p ≡ none)

-- A key from `q` on is not the key of a node that is smaller than `q`.
past_smaller : (q k p : List ℕ) → lex q k ≡ gt → lex q p ≢ gt → lex p k ≡ gt
past_smaller q k p h e = grind (
  arith,
  lex-lt_of_gt q k,
  eq_of_lex p k,
  lex_trans k q p,
  lex-gt_of_lt k p,
  eq_of_lex q p,
  lex-gt_of_lt,
  lex_trans,
)

first_IsLeast :
    (q : List ℕ) (n : RbKvNode) (ns : List RbKvNode)
    → IsOrdered (n ∷ ns)
    → lex q (key_bytes n.key) ≢ gt
    → IsLeast (view (n ∷ ns)) q (some n)
unfolding IsLeast
first_IsLeast q n ns h e = (
  e,
  ground (arith, lex_refl (key_bytes n.key)),
  λ p from before. ground (
    arith,
    before,
    view-above p ns (All-lt-above p (key_bytes n.key) ns h.1 (ground (arith, before))),
  ),
)

rest_IsLeast :
    (q : List ℕ) (n : RbKvNode) (ns : List RbKvNode) (found : Option RbKvNode)
    → lex q (key_bytes n.key) ≡ gt
    → IsLeast (view ns) q found
    → IsLeast (view (n ∷ ns)) q found
unfolding IsLeast
rest_IsLeast q n ns none e h =
    λ p from. ground (arith, past_smaller q (key_bytes n.key) p e from, h p from)
rest_IsLeast q n ns (some m) e h = (
  h.0,
  ground (arith, past_smaller q (key_bytes n.key) (key_bytes m.key) e h.0, h.1),
  λ p from before. ground (arith, past_smaller q (key_bytes n.key) p e from, h.2 p from before),
)

ge_list-IsLeast :
    (q : List ℕ) (ns : List RbKvNode)
    → IsOrdered ns
    → IsLeast (view ns) q (ge_list (bytes_cmp q) ns)
unfolding ge_list IsLeast
ge_list-IsLeast q [] h = λ p from. refl
ge_list-IsLeast q (n ∷ ns) h = elim (Ordering-cases (lex q (key_bytes n.key))) [
  | inl less ↦
      let here : ge_list (bytes_cmp q) (n ∷ ns) ≡ some n = ground (arith, less) in
      subst (IsLeast (view (n ∷ ns)) q) (sym here) (first_IsLeast q n ns h (ground (arith, less)))
  | inr (inl same) ↦
      let here : ge_list (bytes_cmp q) (n ∷ ns) ≡ some n = ground (arith, same) in
      subst (IsLeast (view (n ∷ ns)) q) (sym here) (first_IsLeast q n ns h (ground (arith, same)))
  | inr (inr more) ↦
      let later : ge_list (bytes_cmp q) (n ∷ ns) ≡ ge_list (bytes_cmp q) ns =
        ground (arith, more) in
      subst (IsLeast (view (n ∷ ns)) q) (sym later)
        (rest_IsLeast q n ns (ge_list (bytes_cmp q) ns) more (ge_list-IsLeast q ns h.2))
]

ge_list-cong :
    (f g : RbKvNode → Ordering) (ns : List RbKvNode) → Agree f g ns → ge_list f ns ≡ ge_list g ns
unfolding ge_list
ge_list-cong f g [] a = refl
ge_list-cong f g (n ∷ ns) a = ground (arith, ge_list-cong f g ns)

-- What the calls do with the node that the search found.
unfoldable pub Seeks :
    Db
    → DbcWrap
    → Dbt
    → Dbt
    → Option RbKvNode
    → Outcome (Db × DbcWrap × ℤ × Option (Dbt × Dbt))
    → Outcome (Db × DbcWrap × ℤ × Dbt × Dbt)
    → Type 0
Seeks db c key value none getf get =
    (getf ≡ done (db, c, db_notfound, none)) × (get ≡ done (db, c, db_notfound, key, value))
Seeks db c key value (some n) getf get =
    (getf ≡ done (db, record c { node = some n }, pos 0, some (n.key, n.val)))
    × (get ≡ done (db, record c { node = some n }, pos 0, copied_key key n, copied_value value n))

module _ (lib : RbLib RbKvNode) (key : Dbt) (is_key : IsKey key) (db : Db) (v : IsValid db) where
  abbrev q : List ℕ
  q = key_bytes key

  find_val_with_key_ge-ge_list :
      find_val_with_key_ge lib db key ≡ ge_list (bytes_cmp q) (inorder db.kv)
  unfolding find_val_with_key_ge
  find_val_with_key_ge-ge_list =
      find_ge-ge_list lib (probe key) db.kv (cut key is_key (inorder db.kv) v.ordered)
        (λ l n r e. before-Distinct l n r (subst IsOrdered e v.ordered))
      ∙ ge_list-cong (probe key) (bytes_cmp q) (inorder db.kv)
          (agree key is_key (inorder db.kv) v.ordered)

  found-IsLeast : IsLeast (contents db) q (find_val_with_key_ge lib db key)
  found-IsLeast =
      subst (IsLeast (contents db) q) (sym find_val_with_key_ge-ge_list)
        (ge_list-IsLeast q (inorder db.kv) v.ordered)

  found_locked :
      find_val_with_key_ge lib (record db { rb_lock = true }) key ≡ find_val_with_key_ge lib db key
  unfolding find_val_with_key_ge
  found_locked = refl

  seeks :
      (c : DbcWrap) (value : Dbt) (found : Option RbKvNode)
      → find_val_with_key_ge lib db key ≡ found
      → Seeks db c key value found
          (dbc_c_getf_set_range lib db c key)
          (dbc_c_get lib db c key value true)
  unfolding Seeks dbc_c_getf_set_range dbc_c_get
  seeks c value none e =
      (ground (arith, v.unlocked, e), ground (arith, v.unlocked, e, found_locked))
  seeks c value (some n) e =
      (ground (arith, v.unlocked, e), ground (arith, v.unlocked, e, found_locked))

  -- From a valid store and a key in bounds, `dbc_c_getf_set_range` and `dbc_c_get` with DB_SET_RANGE
  -- both end, leave the store as it was and free, and put the cursor on the least key of the map that is
  -- not smaller, whose pair they hand out; where there is none both return DB_NOTFOUND.
  pub dbc_c_getf_set_range-IsLeast :
      (c : DbcWrap) (value : Dbt)
      → (found : Option RbKvNode) × IsLeast (contents db) (key_bytes key) found
        × Seeks db c key value found
            (dbc_c_getf_set_range lib db c key)
            (dbc_c_get lib db c key value true)
  dbc_c_getf_set_range-IsLeast c value = (
    find_val_with_key_ge lib db key,
    found-IsLeast,
    seeks c value (find_val_with_key_ge lib db key) refl,
  )
