-- ===== src/RbKv/Store.antt =====
-- The calls of rbtreekv.c on a map from byte strings to values.
use kevin.Base.{
  ℕ, List, Option, none, some, true, false, pos, done, ◌≡◌, refl, sym, ◌∙◌, arith, All-imp,
  take-take, length-take,
}
use kevin.Key.{Dbt, memcpy, IsKey, key_bytes}
use kevin.Key.Compare.{env_keycmp-lex}
use kevin.RbTree.{inorder, modify}
use kevin.RbTree.Search.{
  IsCut, find_list, modify_list, find-list, modify-list, Splits, find_list-Splits,
}
use kevin.RbTree.Cong.{Agree, IsCut-cong, find_list-cong, modify_list-cong}
use kevin.RbKv.{RbKvNode, Db, db_notfound, probe, dbt_copy, find_val_with_key, db_get}
use kevin.RbKv.Order.{IsOrdered, view, bytes_cmp, IsOrdered-IsCut, IsOrdered-keys, view-find_list}

-- Between calls: the tree is ordered by key, and nobody holds the lock.
pub record IsValid (db : Db) : Type 0 where
  pub ordered : IsOrdered (inorder db.kv)
  pub unlocked : db.rb_lock ≡ false

-- The store as a map.
abbrev pub contents : Db → List ℕ → Option Dbt
contents db = view (inorder db.kv)

pub dbt_copy-IsKey : (d : Dbt) → IsKey d → IsKey (dbt_copy d)
dbt_copy-IsKey d h = omega (arith, length-take d.size d.buf)

pub key_bytes-dbt_copy : (d : Dbt) → key_bytes (dbt_copy d) ≡ key_bytes d
key_bytes-dbt_copy d = take-take d.size d.buf

module _ (key : Dbt) (is_key : IsKey key) where
  abbrev pub q : List ℕ
  q = key_bytes key

  pub agree : (ns : List RbKvNode) → IsOrdered ns → Agree (probe key) (bytes_cmp q) ns
  agree ns h =
      All-imp (λ n. IsKey n.key) (λ n. probe key n ≡ bytes_cmp q n)
        (λ n k. env_keycmp-lex key n.key is_key k) ns (IsOrdered-keys ns h)

  pub cut : (ns : List RbKvNode) → IsOrdered ns → IsCut (probe key) ns
  cut ns h = IsCut-cong (probe key) (bytes_cmp q) ns (agree ns h) (IsOrdered-IsCut q ns h)

  pub find-view :
      (db : Db)
      → IsOrdered (inorder db.kv)
      → find_val_with_key db key ≡ find_list (bytes_cmp q) (inorder db.kv)
  unfolding find_val_with_key
  find-view db h =
      find-list (probe key) db.kv (cut (inorder db.kv) h)
      ∙ find_list-cong (probe key) (bytes_cmp q) (inorder db.kv) (agree (inorder db.kv) h)

  -- The lock is no part of the search.
  pub found-locked :
      (db : Db) → find_val_with_key (record db { rb_lock = true }) key ≡ find_val_with_key db key
  unfolding find_val_with_key
  found-locked db = refl

  pub contents-find :
      (db : Db)
      → IsOrdered (inorder db.kv)
      → contents db q ≡ elim (find_val_with_key db key) [ none ↦ none | some n ↦ some n.val ]
  contents-find db h = ground (arith, find-view db h, view-find_list q (inorder db.kv))

  -- On a valid store, whose tree is in order and whose lock is free, a lookup of a key in bounds
  -- ends and leaves the store as it was. It returns DB_NOTFOUND where the map has no value under the
  -- key, and else the size of the value, of which it copies out as many bytes as the caller's `size`
  -- asks for.
  pub db_get-contents :
      (db : Db) (value : Dbt)
      → IsValid db
      → db_get db key value ≡ elim (contents db (key_bytes key)) [
        | none ↦ done (db, db_notfound, value)
        | some v ↦ done (db, pos v.size, record value { buf = memcpy value.buf 0 v.buf value.size })
      ]
  unfolding db_get
  db_get-contents db value v =
      ground (arith, contents-find db v.ordered, found-locked db, v.unlocked)

  pub split :
      (db : Db) (n : RbKvNode)
      → IsOrdered (inorder db.kv)
      → find_val_with_key db key ≡ some n
      → Splits (bytes_cmp q) (inorder db.kv) n
  split db n h e = find_list-Splits (bytes_cmp q) (inorder db.kv) n (sym (find-view db h) ∙ e)

  pub absent :
      (db : Db)
      → IsOrdered (inorder db.kv)
      → find_val_with_key db key ≡ none
      → find_list (bytes_cmp q) (inorder db.kv) ≡ none
  absent db h e = sym (find-view db h) ∙ e

  pub inorder-modify :
      (db : Db) (f : RbKvNode → RbKvNode)
      → IsOrdered (inorder db.kv)
      → inorder (modify (probe key) f db.kv) ≡ modify_list (bytes_cmp q) f (inorder db.kv)
  inorder-modify db f h =
      modify-list (probe key) f db.kv (cut (inorder db.kv) h)
      ∙ modify_list-cong (probe key) (bytes_cmp q) f (inorder db.kv) (agree (inorder db.kv) h)
