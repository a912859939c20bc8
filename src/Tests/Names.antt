-- ===== src/Tests/Names.antt =====
-- The metadata calls, renaming, listing and inode numbers at concrete inputs.
use kevin.Base.{
  ℕ, List, [], ◌∷◌, ◌++◌, Option, none, some, true, false, eq, ℤ, pos, done, bug, ◌≡◌, refl, ap,
  arith, length, get_or, replicate, All, ◌<◌, ◌≤◌, ◌+◌, ◌*◌,
}
use kevin.Key.{Dbt, key_bytes, dbt_setup}
use kevin.Key.Layout.{alloc_child_meta_dbt_from_inode, lightfs_key_get_ino, to_be, of_be}
use kevin.Key.Order.{lex}
use kevin.RbTree.{leaf, node}
use kevin.RbKv.{db_notfound}
use kevin.Cache.{Cache}
use kevin.Cache.Chain.{scan, view}
use kevin.Cache.Calls.{woken}
use kevin.Cache.Map.{cell, IsValid, contents}
use kevin.Cache.Cursor.{lightfs_dcache_cursor}
use kevin.Meta.{lightfs_bstore_meta_get}
use kevin.Meta.Cached.{answer_of, with_cache, lightfs_bstore_meta_get_lem}
use kevin.Meta.Names.{Target, rename_check, lightfs_rename, lightfs_mknod}
use kevin.Meta.Rename.{renamed_to, lightfs_mknod-lightfs_rename}
use kevin.Meta.Readdir.{MetaLayout, DirEnt, ReaddirCtx, all_hit, readdir_start}
use kevin.Meta.Listing.{readdir_start_lem}
use kevin.Queue.Order.{occurs}
use kevin.Meta.Counters.{lightfs_ino_max, InoBytes, SbInfo, fill_super_info, next_inos}
use kevin.Meta.Ino.{Nodup, next_inos-Nodup}
use kevin.Tests.Metadata.{
  test_hash, child_lib, root_key, child_key, root_item, child_item, items, small_cache, small_valid,
  root_ok, child_ok, new_key, new_ok, new_CanJoin, child_deletable,
}

-- A store that knows no key.
abbrev pub empty_store : Dbt → Dbt → ℤ × Dbt
empty_store key value = (db_notfound, value)

lightfs_bstore_meta_get_lem_example :
    (c' : Cache) × (lightfs_bstore_meta_get test_hash empty_store small_cache child_key (0 ∷ [])
      ≡ done (
          with_cache c' (
            answer_of empty_store child_key
              (0 ∷ [])
              (contents test_hash small_cache (key_bytes child_key)))))
    × IsValid test_hash c'
    × ((p : List ℕ)
        → contents test_hash c' p ≡ elim (lex (key_bytes child_key) p) [
          | eq ↦ woken (contents test_hash small_cache (key_bytes child_key))
          | _ ↦ contents test_hash small_cache p
        ])
lightfs_bstore_meta_get_lem_example =
    lightfs_bstore_meta_get_lem test_hash small_cache small_valid child_key child_ok empty_store
      (0 ∷ [])

-- The child is renamed from `a` to `b`; its inode is 3, and `c` is created in it.
abbrev pub in_root : Target
in_root = record { dir_ino = 0; dir_key = root_key; name = 98 ∷ [] }

abbrev pub eleven : Option (List ℕ)
eleven = some (replicate 11 0)

abbrev inner_key : Dbt
inner_key = dbt_setup (109 ∷ 0 ∷ 0 ∷ 0 ∷ 0 ∷ 0 ∷ 0 ∷ 0 ∷ 3 ∷ 99 ∷ 0 ∷ []) 11

pub new_alloc : alloc_child_meta_dbt_from_inode eleven 0 (98 ∷ []) ≡ some new_key
unfolding alloc_child_meta_dbt_from_inode to_be
new_alloc = refl

inner_alloc : alloc_child_meta_dbt_from_inode eleven 3 (99 ∷ []) ≡ some inner_key
unfolding alloc_child_meta_dbt_from_inode to_be
inner_alloc = refl

no_check : rename_check true none false ≡ none
unfolding rename_check
no_check = refl

new_free : contents test_hash small_cache (key_bytes new_key) ≡ none
unfolding view lex
new_free = refl

inner_free : contents test_hash small_cache (key_bytes inner_key) ≡ none
unfolding view lex
inner_free = refl

lightfs_mknod-lightfs_rename_example :
    (c' : Cache) × (lightfs_rename test_hash child_lib eleven [] [] small_cache false true none
        false child_key
        (4 ∷ [])
        in_root
      ≡ done
          (renamed_to test_hash child_lib small_cache small_valid [] child_key new_key (4 ∷ []) c'))
    × (lightfs_mknod test_hash child_lib eleven [] [] c'
          (pos 0)
          (6 ∷ [])
          false
          (record { dir_ino = 3; dir_key = new_key; name = 99 ∷ [] })
        ≡ bug)
lightfs_mknod-lightfs_rename_example =
    lightfs_mknod-lightfs_rename test_hash child_lib small_cache small_valid [] [] [] [] none false
      child_key new_key inner_key (4 ∷ []) (6 ∷ []) eleven eleven in_root 3 (99 ∷ []) false child_ok
      new_ok (omega arith) no_check new_alloc inner_alloc
      (λ e. omega (arith, ap (λ (l : List ℕ). get_or l 8 0) e)) new_free inner_free child_deletable
      new_CanJoin

-- Metadata whose first byte is the inode number.
abbrev pub one_field : MetaLayout
one_field = record { type = λ m. 0; ino = λ m. 0; st_ino = λ m. get_or m 0 0; st_mode = λ m. 32768 }

abbrev child_entry : DirEnt
child_entry = record { name = 97 ∷ []; ino = 7; type = 8 }

abbrev fresh_ctx : ReaddirCtx
fresh_ctx = record { pos = all_hit; cursor = lightfs_dcache_cursor; emit_cnt = 0; out = [] }

root_placed : scan (λ i. cell (items i)) (key_bytes root_key) (0 ∷ []) ≡ some 0
unfolding scan lex
root_placed = refl

child_ino : lightfs_key_get_ino (109 ∷ 0 ∷ 0 ∷ 0 ∷ 0 ∷ 0 ∷ 0 ∷ 0 ∷ 0 ∷ []) ≡ 0
unfolding lightfs_key_get_ino of_be
child_ino = refl

readdir_start_lem_example :
    (r : ReaddirCtx) × (ret : ℤ) × (readdir_start test_hash child_lib one_field empty_store
        (some (replicate 11 0))
        0
        (replicate 10 0)
        (0 ∷ [])
        5
        small_cache
        fresh_ctx
        root_key
      ≡ done (small_cache, r, ret))
    × (r.out ≡ [] ++ (child_entry ∷ []))
    × (r.pos ≡ all_hit)
readdir_start_lem_example =
    readdir_start_lem test_hash child_lib one_field empty_store small_cache 0 1 0 root_item
      (record {
        is_full = true;
        rb_root = node leaf (record { item = 1; key = child_key }) leaf;
        child = 1;
        e_child = 0;
      })
      refl refl small_valid 5 (record { item = 1; key = child_key } ∷ []) (child_entry ∷ [])
      (replicate 11 0) (0 ∷ []) (replicate 10 0) fresh_ctx root_key root_ok root_placed refl refl
      (
        record {
          x = child_item;
          at = refl;
          parent = refl;
          same_key = refl;
          named = record {
            head = 109 ∷ 0 ∷ 0 ∷ 0 ∷ 0 ∷ 0 ∷ 0 ∷ 0 ∷ 0 ∷ [];
            splits = refl;
            nine = refl;
            has_ino = child_ino;
            no_zero = (refl, tt);
          };
          held = omega arith;
          normal = refl;
          has_ino = refl;
          has_type = refl;
        },
        tt,
      )
      (tt, tt) (omega arith) refl

-- Five calls on two processors.
abbrev no_order : InoBytes
no_order = record { bytes = λ i. i ∷ []; value = λ l. get_or l 0 0 }

abbrev two_cpus : List ℕ
two_cpus = 0 ∷ 1 ∷ []

abbrev five_calls : List ℕ
five_calls = 0 ∷ 1 ∷ 1 ∷ 0 ∷ 1 ∷ []

two_cpus_dense : (a : ℕ) → 0 < occurs a two_cpus → a < 2
unfolding occurs
two_cpus_dense a pa = ground (arith, pa)

five_calls_room :
    (a : ℕ) → 0 < occurs a two_cpus → 1 + a + 2 * occurs a five_calls ≤ lightfs_ino_max
unfolding occurs
five_calls_room a pa = ground (arith, pa)

five_calls_on : All (λ a. 0 < occurs a two_cpus) five_calls
unfolding occurs
five_calls_on = ground arith

next_inos-Nodup_example :
    (s : SbInfo) × (inos : List ℕ) × (next_inos no_order empty_store [] []
        (fill_super_info two_cpus)
        five_calls
      ≡ done (s, inos))
    × (length inos ≡ 5)
    × Nodup inos
next_inos-Nodup_example =
    next_inos-Nodup no_order empty_store [] [] two_cpus five_calls (omega arith) two_cpus_dense
      five_calls_on five_calls_room
