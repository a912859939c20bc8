-- ===== src/Meta/Readdir.antt =====
-- `lightfs_bstore_meta_readdir` of kevinfs/lightfs_bstore.c, with the cursor over the cache that
-- `lightfs_readdir` gives it. DISABLE_DCACHE is off. `dir_emit` of the VFS takes a number of entries, the
-- room, and then refuses. The layout of `struct lightfs_metadata`, which the compiler chooses, is a
-- parameter.
use kevin.Base.{
  ℕ, zero, suc, ◌+◌, ◌/◌, ◌%◌, List, [], ◌∷◌, ◌++◌, Option, none, some, Bool, true, false, ◌==◌,
  if◌then◌else◌, ℤ, pos, negsuc, Outcome, done, bug, ◌>>=◌, length, drop, get_or, ltb,
}
use kevin.Key.{Dbt, dbt_setup, memcpy}
use kevin.Key.Layout.{
  lightfs_key_get_ino, lightfs_key_set_magic, lightfs_key_set_ino, meta_key_magic, path_pos,
  copy_meta_dbt_from_ino,
}
use kevin.Bstore.OnePage.{enomem}
use kevin.RbTree.{RbLib}
use kevin.Txn.{add32}
use kevin.Cache.{Cache, CacheHash, Child}
use kevin.Cache.Cursor.{DcacheDbcWrap, set_range, next, lightfs_dcache_c_get}
use kevin.Meta.{lightfs_bstore_meta_get}

-- The fields of the metadata's bytes that the loop reads.
pub record MetaLayout : Type 0 where
  pub type : List ℕ → ℕ
  pub ino : List ℕ → ℕ
  pub st_ino : List ℕ → ℕ
  pub st_mode : List ℕ → ℕ

-- What one call of `dir_emit` hands out.
pub record DirEnt : Type 0 where
  pub name : List ℕ
  pub ino : ℕ
  pub type : ℕ

-- `dir_ctx->pos`: the buffer of the key, or one of the four marks.
pub data ReaddirPos : Type 0 where
  key_at : List ℕ → ReaddirPos
  all_hit partial_miss all_miss ended : ReaddirPos

-- `struct readdir_ctx`, with what was emitted.
pub record ReaddirCtx : Type 0 where
  pub pos : ReaddirPos
  pub cursor : DcacheDbcWrap
  pub emit_cnt : ℕ
  pub out : List DirEnt

-- A C string: the bytes before the first zero.
abbrev pub c_string : List ℕ → List ℕ
c_string [] = []
c_string (x ∷ xs) = if x == 0 then [] else x ∷ c_string xs

abbrev pub meta_key_max_len : ℕ
meta_key_max_len = 1 + 8 + 4096

abbrev pub filetype_table : List ℕ
filetype_table = 0 ∷ 1 ∷ 2 ∷ 0 ∷ 4 ∷ 0 ∷ 6 ∷ 0 ∷ 8 ∷ 0 ∷ 10 ∷ 0 ∷ 12 ∷ 0 ∷ 14 ∷ 0 ∷ []

-- `lightfs_get_type`.
abbrev pub lightfs_get_type : ℕ → ℕ
lightfs_get_type mode = get_or filetype_table (mode / 4096 % 16) 0

-- `meta_key_is_child_of_ino`.
abbrev pub meta_key_is_child_of_ino : List ℕ → ℕ → Bool
meta_key_is_child_of_ino key ino = lightfs_key_get_ino key == ino

-- `copy_child_meta_dbt_from_inode`, for a name without its closing zero.
unfoldable pub copy_child_meta_dbt_from_inode : Dbt → ℕ → List ℕ → Outcome Dbt
copy_child_meta_dbt_from_inode dbt ino name =
    let size = path_pos + length name + 1 in
    let key = lightfs_key_set_ino (lightfs_key_set_magic dbt.buf meta_key_magic) ino in
    if ltb dbt.ulen size
    then bug
    else done
        (record dbt { buf = memcpy key path_pos (name ++ (0 ∷ [])) (length name + 1); size = size })

-- The return values of the cursor that the end of the function names.
pub data CursorEnd : Type 0 where
  not_found full not_found_dcache failed : CursorEnd

abbrev pub cursor_end : ℤ → CursorEnd
cursor_end (pos n) = failed
cursor_end (negsuc n) =
    if n == 30988
    then not_found
    else (if n == 30983 then full else (if n == 30984 then not_found_dcache else failed))

-- The end of the function, for the last `ret`.
abbrev pub readdir_end : ReaddirCtx → ℤ → ℤ → ReaddirCtx × ℤ
readdir_end ctx ret (pos zero) = (ctx, ret)
readdir_end ctx ret r = elim (cursor_end r) [
  | not_found ↦ (record ctx { pos = ended }, ret)
  | full ↦ (record ctx { pos = all_hit }, ret)
  | not_found_dcache ↦
      (record ctx { pos = if ctx.emit_cnt == 0 then all_miss else partial_miss }, ret)
  | failed ↦ (ctx, r)
]

module _ (hash : CacheHash) (lib : RbLib Child) (layout : MetaLayout)
    (get : Dbt → Dbt → ℤ × Dbt) where
  abbrev pub with_ctx : Cache → ReaddirCtx × ℤ → Cache × ReaddirCtx × ℤ
  with_ctx c e = (c, e.0, e.1)

  -- The indirect metadata, where the entry redirects to it: the cache, the return value, the metadata.
  unfoldable pub follow : Cache → List ℕ → List ℕ → Outcome (Cache × ℤ × List ℕ)
  follow c indirect_key meta = elim (layout.type meta == 1) [
    | false ↦ done (c, pos 0, meta)
    | true ↦ do
      dbt ← copy_meta_dbt_from_ino (dbt_setup indirect_key 10) (layout.ino meta)
      lightfs_bstore_meta_get hash get c dbt meta
  ]

  -- The entry of a key and its metadata.
  abbrev pub dir_entry : List ℕ → List ℕ → DirEnt
  dir_entry key meta = record {
    name = c_string (drop path_pos key);
    ino = layout.st_ino meta;
    type = lightfs_get_type (layout.st_mode meta);
  }

  -- One round of the `while` loop up to `dir_emit`, with what follows it.
  unfoldable pub readdir_step :
      ℕ
      → List ℕ
      → Cache
      → ReaddirCtx
      → Dbt
      → List ℕ
      → ℤ
      → (Cache → List ℕ → Outcome (Cache × ReaddirCtx × ℤ))
      → Outcome (Cache × ReaddirCtx × ℤ)
  readdir_step ino indirect_key c ctx key meta ret emit =
      elim (meta_key_is_child_of_ino key.buf ino) [
        | false ↦ done (c, record ctx { pos = ended }, ret)
        | true ↦ do
          (c, r, meta) ← follow c indirect_key meta
          elim r [
            | pos zero ↦ emit c meta
            | other ↦
                done (with_ctx c (readdir_end (record ctx { pos = key_at key.buf }) ret other))
          ]
      ]

  -- The loop, entered after the cursor returned 0; `room` is what the caller still takes.
  unfoldable pub readdir_loop :
      ℕ → List ℕ → ℕ → Cache → ReaddirCtx → Dbt → Dbt → ℤ → Outcome (Cache × ReaddirCtx × ℤ)
  readdir_loop ino indirect_key zero c ctx key value ret =
      readdir_step ino indirect_key c ctx key value.buf ret
        λ c meta. done (c, record ctx { pos = key_at key.buf }, pos 0)
  readdir_loop ino indirect_key (suc room) c ctx key value ret =
      readdir_step ino indirect_key c ctx key value.buf ret λ c meta. do
        (w, r, key', value) ←
            lightfs_dcache_c_get hash lib c ctx.cursor key (record value { buf = meta }) next
        let ctx' = record ctx {
          pos = key_at key'.buf;
          cursor = w;
          emit_cnt = add32 ctx.emit_cnt 1;
          out = ctx.out ++ (dir_entry key.buf meta ∷ []);
        }
        elim r [
          | pos zero ↦ readdir_loop ino indirect_key room c ctx' key' value (pos 1)
          | other ↦ done (with_ctx c (readdir_end ctx' (pos 1) other))
        ]

  -- From the search on: `DB_SET_RANGE` and the loop.
  unfoldable pub readdir_from :
      ℕ → List ℕ → ℕ → Cache → ReaddirCtx → Dbt → Dbt → Outcome (Cache × ReaddirCtx × ℤ)
  readdir_from ino indirect_key room c ctx key value = do
    (w, r, key, value) ← lightfs_dcache_c_get hash lib c ctx.cursor key value set_range
    let ctx = record ctx { pos = key_at key.buf; cursor = w }
    elim r [
      | pos zero ↦ readdir_loop ino indirect_key room c ctx key value (pos 0)
      | other ↦ done (with_ctx c (readdir_end ctx (pos 0) other))
    ]

  -- `lightfs_bstore_meta_readdir` where `ctx->pos` is 2, with the memory that `kmalloc` gives.
  unfoldable pub readdir_start :
      Option (List ℕ)
      → ℕ
      → List ℕ
      → List ℕ
      → ℕ
      → Cache
      → ReaddirCtx
      → Dbt
      → Outcome (Cache × ReaddirCtx × ℤ)
  readdir_start none ino indirect_key meta room c ctx meta_dbt = done (c, ctx, enomem)
  readdir_start (some mem) ino indirect_key meta room c ctx meta_dbt = do
    child ← copy_child_meta_dbt_from_inode (dbt_setup mem meta_key_max_len) ino (1 ∷ [])
    let key = record child {
      buf = memcpy child.buf 0 meta_dbt.buf meta_dbt.size;
      size = meta_dbt.size;
    }
    readdir_from ino indirect_key room c ctx key (dbt_setup meta (length meta))

  -- The same where an earlier call left the key's buffer in `dir_ctx->pos`.
  unfoldable pub readdir_resume :
      ℕ → List ℕ → List ℕ → ℕ → Cache → ReaddirCtx → List ℕ → Outcome (Cache × ReaddirCtx × ℤ)
  readdir_resume ino indirect_key meta room c ctx buf =
      let size = length (c_string (drop path_pos buf)) + 1 + path_pos in
      readdir_from ino indirect_key room c ctx
        (record (dbt_setup buf meta_key_max_len) { size = size }) (dbt_setup meta (length meta))
