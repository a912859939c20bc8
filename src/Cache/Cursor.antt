-- ===== src/Cache/Cursor.antt =====
-- The cursor over the children of a directory in kevinfs/lightfs_cache.c.
use kevin.Base.{Option, none, some, Bool, true, false, gt, ℕ, ℤ, pos, Outcome, done, bug, ◌>>=◌}
use kevin.Key.{Dbt, memcpy, lightfs_keycmp}
use kevin.RbTree.{RbLib}
use kevin.Cache.{
  Cache, CacheHash, Child, HtCacheItem, deref, dcache_of, lookup, db_notfound_dcache_full,
}

-- `struct dcache_dbc_wrap`.
pub record DcacheDbcWrap : Type 0 where
  pub node : Option ℕ
  pub left : Option Dbt
  pub right : Option Dbt

-- `lightfs_dcache_cursor`.
abbrev pub lightfs_dcache_cursor : DcacheDbcWrap
lightfs_dcache_cursor = record { node = none; left = none; right = none }

-- The flags of `lightfs_dcache_c_get`: DB_SET_RANGE, and any other.
pub data CursorFlag : Type 0 where
  set_range next : CursorFlag

-- The caller's key and value after an item was copied to them.
abbrev pub copied_key : Dbt → HtCacheItem → Dbt
copied_key key x = record key { buf = memcpy key.buf 0 x.key.buf x.key.size; size = x.key.size }

abbrev pub copied_value : Dbt → HtCacheItem → Dbt
copied_value value x = record value { buf = memcpy value.buf 0 x.value.buf value.size }

-- Whether an item is behind the right bound.
abbrev pub past_right : Option Dbt → Dbt → Bool
past_right none key = false
past_right (some right) key = elim (lightfs_keycmp key.buf key.size right.buf right.size) [
  | gt ↦ true
  | _ ↦ false
]

module _ (hash : CacheHash) (lib : RbLib Child) (c : Cache) where
  -- The end of the call: the cursor on the item `i`, which is copied out.
  abbrev pub stand_on : DcacheDbcWrap → ℕ → Dbt → Dbt → Outcome (DcacheDbcWrap × ℤ × Dbt × Dbt)
  stand_on w i key value = do
    x ← deref c i
    done (record w { node = some i }, pos 0, copied_key key x, copied_value value x)

  abbrev pub at_end : DcacheDbcWrap → Dbt → Dbt → Outcome (DcacheDbcWrap × ℤ × Dbt × Dbt)
  at_end w key value = done (record w { node = none }, db_notfound_dcache_full, key, value)

  -- `lightfs_dcache_c_get`: the cursor, the return value, and the caller's key and value.
  unfoldable pub lightfs_dcache_c_get :
      DcacheDbcWrap → Dbt → Dbt → CursorFlag → Outcome (DcacheDbcWrap × ℤ × Dbt × Dbt)
  lightfs_dcache_c_get w key value set_range = elim w.node [
    | some i ↦ stand_on w i key value
    | none ↦ do
      found ← lookup hash c key
      elim found [
        | none ↦ at_end w key value
        | some p ↦ do
          d ← dcache_of c p
          elim (lib.rb_first d.rb_root) [
            | none ↦ at_end w key value
            | some child ↦ stand_on w child.item key value
          ]
      ]
  ]
  lightfs_dcache_c_get w key value next = elim w.node [
    | none ↦ at_end w key value
    | some i ↦ do
      x ← deref c i
      elim x.parent [
        | none ↦ bug
        | some p ↦ do
          d ← dcache_of c p
          elim (lib.rb_next d.rb_root (record { item = i; key = x.key })) [
            | none ↦ at_end w key value
            | some child ↦ elim (past_right w.right child.key) [
              | true ↦ at_end w key value
              | false ↦ stand_on w child.item key value
            ]
          ]
      ]
  ]
