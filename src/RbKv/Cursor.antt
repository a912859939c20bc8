-- ===== src/RbKv/Cursor.antt =====
-- The cursor of kevinfs/rbtreekv.c. The callback of the `getf` calls is handed the pair that the call
-- returns, `none` when it is not called.
use kevin.Base.{Option, none, some, Bool, true, false, gt, ℤ, pos, Outcome, done, bug, ◌>>=◌}
use kevin.Key.{Dbt, memcpy, env_keycmp}
use kevin.RbTree.{RbLib}
use kevin.RbTree.Range.{find_ge}
use kevin.RbKv.{RbKvNode, Db, db_notfound, mutex_lock, mutex_unlock, dbt_copy, probe}

-- `struct __lightfs_dbc_wrap`.
pub record DbcWrap : Type 0 where
  pub node : Option RbKvNode
  pub left : Option Dbt
  pub right : Option Dbt

-- `db_cursor`.
abbrev pub db_cursor : DbcWrap
db_cursor = record { node = none; left = none; right = none }

-- `dbc_c_set_bounds`.
unfoldable pub dbc_c_set_bounds : DbcWrap → Dbt → Dbt → DbcWrap
dbc_c_set_bounds c left_key right_key = record c {
  left = some (dbt_copy left_key);
  right = some (dbt_copy right_key);
}

-- Whether a node is behind the right bound.
unfoldable pub past_right : Option Dbt → RbKvNode → Bool
past_right none n = false
past_right (some right) n = elim (env_keycmp n.key right) [ gt ↦ true | _ ↦ false ]

-- `dbc_c_getf_next`: the store, the cursor, the return value and what the callback got. A cursor
-- without a node is a null pointer.
unfoldable pub dbc_c_getf_next :
    RbLib RbKvNode → Db → DbcWrap → Outcome (Db × DbcWrap × ℤ × Option (Dbt × Dbt))
dbc_c_getf_next lib db c = elim c.node [
  | none ↦ bug
  | some n ↦ do
    db ← mutex_lock db
    elim (lib.rb_next db.kv n) [
      | none ↦ done (mutex_unlock db, record c { node = none }, db_notfound, none)
      | some m ↦ elim (past_right c.right m) [
        | true ↦ done (db, record c { node = none }, db_notfound, none)
        | false ↦ done (mutex_unlock db, record c { node = some m }, pos 0, some (m.key, m.val))
      ]
    ]
]

-- `dbc_c_getf_current`.
unfoldable pub dbc_c_getf_current : DbcWrap → Outcome (Dbt × Dbt)
dbc_c_getf_current c = elim c.node [ none ↦ bug | some n ↦ done (n.key, n.val) ]

-- `find_val_with_key_ge`.
unfoldable pub find_val_with_key_ge : RbLib RbKvNode → Db → Dbt → Option RbKvNode
find_val_with_key_ge lib db key = find_ge lib (probe key) db.kv db.kv

-- `dbc_c_getf_set_range`, which searches before it takes the lock.
unfoldable pub dbc_c_getf_set_range :
    RbLib RbKvNode → Db → DbcWrap → Dbt → Outcome (Db × DbcWrap × ℤ × Option (Dbt × Dbt))
dbc_c_getf_set_range lib db c key =
    let found = find_val_with_key_ge lib db key in
    do
      db ← mutex_lock db
      elim found [
        | none ↦ done (mutex_unlock db, c, db_notfound, none)
        | some n ↦ done (mutex_unlock db, record c { node = some n }, pos 0, some (n.key, n.val))
      ]

-- The caller's key and value after a node was copied to them.
abbrev pub copied_key : Dbt → RbKvNode → Dbt
copied_key key n = record key { buf = memcpy key.buf 0 n.key.buf n.key.size; size = n.key.size }

abbrev pub copied_value : Dbt → RbKvNode → Dbt
copied_value value n = record value { buf = memcpy value.buf 0 n.val.buf value.size }

-- `dbc_c_get`: with DB_SET_RANGE (`true`) and with any other flag. The store, the cursor, the return
-- value, and the caller's key and value.
unfoldable pub dbc_c_get :
    RbLib RbKvNode → Db → DbcWrap → Dbt → Dbt → Bool → Outcome (Db × DbcWrap × ℤ × Dbt × Dbt)
dbc_c_get lib db c key value true = do
  db ← mutex_lock db
  elim (find_val_with_key_ge lib db key) [
    | none ↦ done (mutex_unlock db, c, db_notfound, key, value)
    | some n ↦
        done (
          mutex_unlock db,
          record c { node = some n },
          pos 0,
          copied_key key n,
          copied_value value n,
        )
  ]
dbc_c_get lib db c key value false = do
  db ← mutex_lock db
  elim c.node [
    | none ↦ bug
    | some n ↦ elim (lib.rb_next db.kv n) [
      | none ↦ done (mutex_unlock db, record c { node = none }, db_notfound, key, value)
      | some m ↦ elim (past_right c.right m) [
        | true ↦ done (mutex_unlock db, record c { node = none }, db_notfound, key, value)
        | false ↦ done (
          mutex_unlock db,
          record c { node = some m },
          pos 0,
          copied_key key m,
          copied_value value m,
        )
      ]
    ]
  ]
