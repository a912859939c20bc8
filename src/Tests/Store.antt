-- ===== src/Tests/Store.antt =====
-- The key comparison, the store and the filter on concrete input.
use kevin.Base.{[], ◌∷◌, none, some, ◌≡◌, refl, false, lt, arith, done, pos}
use kevin.Key.{Dbt, dbt_setup, memcpy, IsKey, key_bytes, env_keycmp, memcmp}
use kevin.Key.Order.{lex}
use kevin.Key.Compare.{env_keycmp-lex}
use kevin.RbTree.{leaf, node}
use kevin.RbKv.{Db, db_get, db_put, db_del, dbt_copy}
use kevin.RbKv.Store.{IsValid, db_get-contents}
use kevin.RbKv.Write.{Writes, db_put_lem, db_del_lem}
use kevin.Bloom.Murmur.{murmur3_hash32, murmur3_body, murmur3_tail, murmur3_mix}
use kevin.Tests.Spine.{rb_lib}
use kevin.RbKv.{RbKvNode}
use kevin.Base.{true}
use kevin.RbKv.Cursor.{DbcWrap, past_right, dbc_c_getf_next}
use kevin.RbKv.Walk.{NextStep, dbc_c_getf_next_lem}
use kevin.RbKv.Range.{IsLeast, Seeks, dbc_c_getf_set_range-IsLeast}
use kevin.RbKv.Cursor.{dbc_c_getf_set_range, dbc_c_get}
use kevin.RbKv.Store.{contents}
use kevin.Base.{Option}

abbrev dir : Dbt
dir = dbt_setup (47 ∷ 97 ∷ 0 ∷ []) 2

abbrev file : Dbt
file = dbt_setup (47 ∷ 97 ∷ 47 ∷ 98 ∷ []) 4

abbrev page : Dbt
page = dbt_setup (1 ∷ 2 ∷ 3 ∷ 4 ∷ []) 4

-- A store of two keys.
abbrev two_keys : Db
two_keys = record {
  kv =
      node leaf (record { key = dir; val = page })
        (node leaf (record { key = file; val = page }) leaf);
  rb_lock = false;
}

two_keys-IsValid : IsValid two_keys
unfolding lex
two_keys-IsValid = record {
  ordered = (omega arith, (refl, tt), (omega arith, tt, tt));
  unlocked = refl;
}

file-IsKey : IsKey file
file-IsKey = omega arith

env_keycmp-lex_example : env_keycmp dir file ≡ lex (key_bytes dir) (key_bytes file)
env_keycmp-lex_example = env_keycmp-lex dir file (omega arith) (omega arith)

env_keycmp_prefix : env_keycmp dir file ≡ lt
unfolding env_keycmp memcmp
env_keycmp_prefix = refl

db_get-contents_example :
    db_get two_keys file page
    ≡ done (two_keys, pos 4, record page { buf = memcpy page.buf 0 page.buf 4 })
unfolding lex
db_get-contents_example = db_get-contents file file-IsKey two_keys page two_keys-IsValid

db_put_lem_example :
    Writes two_keys (key_bytes file) (some (dbt_copy dir)) (pos 0) (db_put rb_lib two_keys file dir)
db_put_lem_example = db_put_lem rb_lib file file-IsKey two_keys two_keys-IsValid dir

db_del_lem_example : Writes two_keys (key_bytes file) none (pos 0) (db_del rb_lib two_keys file)
unfolding lex
db_del_lem_example = db_del_lem rb_lib file file-IsKey two_keys two_keys-IsValid

-- The hash of MurmurHash3 on its published values.
murmur3_hash32_empty : murmur3_hash32 [] 0 1 ≡ 1364076727
unfolding murmur3_hash32 murmur3_body murmur3_tail murmur3_mix
murmur3_hash32_empty = refl

murmur3_hash32_hello : murmur3_hash32 (104 ∷ 101 ∷ 108 ∷ 108 ∷ 111 ∷ []) 5 0 ≡ 613153351
unfolding murmur3_hash32 murmur3_body murmur3_tail murmur3_mix
murmur3_hash32_hello = refl

-- A cursor on the first key, with the right bound at it.
abbrev first_node : RbKvNode
first_node = record { key = dir; val = page }

abbrev at_first : DbcWrap
at_first = record { node = some first_node; left = some dir; right = some dir }

second_past : past_right at_first.right (record { key = file; val = page }) ≡ true
unfolding past_right env_keycmp memcmp
second_past = refl

dbc_c_getf_next_lem_example :
    NextStep two_keys at_first
      (record { key = file; val = page })
      (dbc_c_getf_next rb_lib two_keys at_first)
      (past_right at_first.right (record { key = file; val = page }))
dbc_c_getf_next_lem_example =
    dbc_c_getf_next_lem rb_lib two_keys two_keys-IsValid at_first first_node refl []
      (record { key = file; val = page }) [] refl

dbc_c_getf_set_range-IsLeast_example :
    (found : Option RbKvNode) × IsLeast (contents two_keys) (key_bytes file) found
    × Seeks two_keys at_first file page found
        (dbc_c_getf_set_range rb_lib two_keys at_first file)
        (dbc_c_get rb_lib two_keys at_first file page true)
dbc_c_getf_set_range-IsLeast_example =
    dbc_c_getf_set_range-IsLeast rb_lib file file-IsKey two_keys two_keys-IsValid at_first page
