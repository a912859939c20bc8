-- ===== src/RbKv.antt =====
-- kevinfs/rbtreekv.c: the key-value store in memory. `rb_lock` is the mutex of RB_LOCK, which the
-- Makefile defines. Allocation is taken to succeed.
pub mod Order
pub mod Store
pub mod Write
pub mod Cursor
pub mod Walk
pub mod Range
use kevin.Base.{
  ℕ, ◌+◌, ◌-◌, List, [], ◌∷◌, Option, none, some, Bool, true, false, Ordering, lt, eq, gt, ℤ, pos,
  negsuc, Outcome, done, blocked, bug, ◌>>=◌, take, drop,
}
use kevin.Key.{Dbt, memcpy, memset, env_keycmp}
use kevin.RbTree.{Tree, leaf, node, inorder, find, link, modify, RbLib}

-- `struct rb_kv_node`.
pub record RbKvNode : Type 0 where
  pub key : Dbt
  pub val : Dbt

-- One `DB`, with the module's lock.
pub record Db : Type 0 where
  pub kv : Tree RbKvNode
  pub rb_lock : Bool

abbrev pub db_notfound : ℤ
db_notfound = negsuc 30988

-- A second `mutex_lock` by the holder waits for ever.
abbrev pub mutex_lock : Db → Outcome Db
mutex_lock db = elim db.rb_lock [ true ↦ blocked | false ↦ done (record db { rb_lock = true }) ]

abbrev pub mutex_unlock : Db → Db
mutex_unlock db = record db { rb_lock = false }

-- The comparison of a search for `key`.
abbrev pub probe : Dbt → RbKvNode → Ordering
probe key n = env_keycmp key n.key

-- `_dbt_copy`: a new buffer of `size` bytes.
abbrev pub dbt_copy : Dbt → Dbt
dbt_copy from = record from { buf = take from.size from.buf }

unfoldable pub find_val_with_key : Db → Dbt → Option RbKvNode
find_val_with_key db key = find (probe key) db.kv

unfoldable pub db_get : Db → Dbt → Dbt → Outcome (Db × ℤ × Dbt)
db_get db key value = do
  db ← mutex_lock db
  elim (find_val_with_key db key) [
    | none ↦ done (mutex_unlock db, db_notfound, value)
    | some n ↦ done (
      mutex_unlock db,
      pos n.val.size,
      record value { buf = memcpy value.buf 0 n.val.buf value.size },
    )
  ]

module _ (lib : RbLib RbKvNode) where
  open lib use {rb_insert_color, rb_erase, rb_next, rb_prev}

  -- `rb_kv_insert`; `none` is the return value -1.
  unfoldable pub rb_kv_insert : Db → RbKvNode → Option Db
  rb_kv_insert db new = elim (link (probe new.key) new db.kv) [
    | none ↦ none
    | some t ↦ some (record db { kv = rb_insert_color t new })
  ]

  unfoldable pub db_put : Db → Dbt → Dbt → Outcome (Db × ℤ)
  db_put db key value = do
    db ← mutex_lock db
    elim (find_val_with_key db key) [
      | some _ ↦ done (
        mutex_unlock
            (record db { kv = modify (probe key) (λ n. record n { val = dbt_copy value }) db.kv }),
        pos 0,
      )
      | none ↦ elim (rb_kv_insert db (record { key = dbt_copy key; val = dbt_copy value })) [
        | none ↦ bug
        | some db ↦ done (mutex_unlock db, pos 0)
      ]
    ]

  unfoldable pub db_del : Db → Dbt → Outcome (Db × ℤ)
  db_del db key = do
    db ← mutex_lock db
    elim (find_val_with_key db key) [
      | none ↦ done (mutex_unlock db, db_notfound)
      | some n ↦ done (mutex_unlock (record db { kv = rb_erase db.kv n }), pos 0)
    ]

  -- `memcpy(buf + offset, value->data + offset, value->ulen)`.
  abbrev pub updated : Dbt → ℕ → Dbt → Dbt
  updated value offset val = record val {
    buf = memcpy val.buf offset (drop offset value.buf) value.ulen;
  }

  -- The value of a fresh node: `value`, with zeros before `offset` and behind the update.
  abbrev pub updated_fresh : Dbt → ℕ → Dbt
  updated_fresh value offset =
      let val = dbt_copy value in
      record val {
        buf =
            memset (memset val.buf 0 0 offset) (offset + value.ulen) 0 (4096 - offset - value.ulen);
      }

  unfoldable pub db_update : Db → Dbt → Dbt → ℕ → Outcome (Db × ℤ)
  db_update db key value offset = do
    db ← mutex_lock db
    elim (find_val_with_key db key) [
      | some _ ↦ done (
        mutex_unlock (record db {
          kv = modify (probe key) (λ n. record n { val = updated value offset n.val }) db.kv;
        }),
        pos 0,
      )
      | none ↦
          elim (rb_kv_insert db (record { key = dbt_copy key; val = updated_fresh value offset })) [
            | none ↦ done (mutex_unlock db, pos 0)
            | some db ↦ done (mutex_unlock db, pos 0)
          ]
    ]
