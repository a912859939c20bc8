-- ===== src/Meta/Listing.antt =====
-- What a directory read of kevinfs/lightfs_bstore.c hands out, from the tree of the cached children.
use kevin.Base.{
  ℕ, zero, suc, ◌+◌, ◌≤◌, List, [], ◌∷◌, ◌++◌, none, some, true, false, ◌==◌, ℤ, pos, Outcome, done,
  ◌≡◌, ◌≢◌, refl, sym, ap, ap₂, ◌∙◌, arith, length, take, drop, All, append-nil, append_assoc,
  take-append_left, drop-append, length-take, length-append,
}
use kevin.Key.{Dbt, IsKey, key_bytes, dbt_setup, memcpy, db_dbt_usermem}
use kevin.Key.Layout.{
  lightfs_key_get_ino, lightfs_key_set_ino, lightfs_key_set_magic, meta_key_magic, of_be, path_pos,
}
use kevin.RbTree.{RbLib, inorder}
use kevin.Txn.{add32}
use kevin.Cache.{Cache, CacheHash, Child, HtCacheItem, DcacheEntry, lookup, db_notfound_dcache_full}
use kevin.Cache.Cursor.{
  DcacheDbcWrap, set_range, next, lightfs_dcache_c_get, copied_key, copied_value,
  lightfs_dcache_cursor,
}
use kevin.Cache.Map.{IsValid, lookup_lem}
use kevin.Cache.Insert.{place_in}
use kevin.Meta.Cached.{drop_all}
use kevin.Meta.Readdir.{
  MetaLayout, DirEnt, ReaddirCtx, all_hit, key_at, meta_key_max_len, c_string, lightfs_get_type,
  follow, readdir_step, readdir_loop, readdir_from, readdir_start, copy_child_meta_dbt_from_inode,
  dir_entry,
}

c_string-append :
    (name r : List ℕ) → All (λ b. (b == 0) ≡ false) name → c_string (name ++ (0 ∷ r)) ≡ name
c_string-append [] r h = refl
c_string-append (x ∷ name) r h = ground (arith, c_string-append name r h.1)

get_ino-append :
    (head r : List ℕ) → length head ≡ 9 → lightfs_key_get_ino (head ++ r) ≡ lightfs_key_get_ino head
unfolding lightfs_key_get_ino
get_ino-append [] r e = absurd (ground arith)
get_ino-append (x ∷ hs) r e =
    let eight : length hs ≡ 8 = ground arith in
    ap (of_be 0) (
      take-append_left hs r 8 eight
      ∙ sym (take-append_left hs [] 8 eight)
      ∙ ap (take 8) (append-nil hs))

-- A buffer that begins with a child's key, and what the loop reads of it.
pub record NamedKey (ino : ℕ) (key name : List ℕ) : Type 0 where
  pub head : List ℕ
  pub splits : key ≡ head ++ (name ++ (0 ∷ []))
  pub nine : length head ≡ 9
  pub has_ino : lightfs_key_get_ino head ≡ ino
  pub no_zero : All (λ b. (b == 0) ≡ false) name

module _ (ino : ℕ) (key name : List ℕ) (k : NamedKey ino key name) (rest : List ℕ) where
  whole : key ++ rest ≡ k.head ++ (name ++ (0 ∷ rest))
  whole =
      ap (λ b. b ++ rest) k.splits
      ∙ append_assoc k.head (name ++ (0 ∷ [])) rest
      ∙ ap (λ b. k.head ++ b) (append_assoc name (0 ∷ []) rest)

  key-ino : lightfs_key_get_ino (key ++ rest) ≡ ino
  key-ino =
      ap lightfs_key_get_ino whole ∙ get_ino-append k.head (name ++ (0 ∷ rest)) k.nine ∙ k.has_ino

  key-name : c_string (drop 9 (key ++ rest)) ≡ name
  key-name =
      ap (λ b. c_string (drop 9 b)) whole
      ∙ ap c_string (drop-append k.head (name ++ (0 ∷ rest)) 9 k.nine)
      ∙ c_string-append name rest k.no_zero

module _ (hash : CacheHash) (lib : RbLib Child) (layout : MetaLayout) (get : Dbt → Dbt → ℤ × Dbt)
    (c : Cache) (ino size : ℕ) (p : ℕ) where
  -- A child of the directory `p`, whose metadata is not redirected, and its entry.
  pub record Shows (n : Child) (e : DirEnt) : Type 0 where
    pub x : HtCacheItem
    pub at : c.item_at n.item ≡ some x
    pub parent : x.parent ≡ some p
    pub same_key : x.key ≡ n.key
    pub named : NamedKey ino (key_bytes x.key) e.name
    pub held : size ≤ length x.value.buf
    pub normal : (layout.type (take size x.value.buf) == 1) ≡ false
    pub has_ino : layout.st_ino (take size x.value.buf) ≡ e.ino
    pub has_type : lightfs_get_type (layout.st_mode (take size x.value.buf)) ≡ e.type

  abbrev pub Show : List Child → List DirEnt → Type 0
  Show [] [] = Unit
  Show [] (e ∷ es) = ⊥
  Show (n ∷ ns) [] = ⊥
  Show (n ∷ ns) (e ∷ es) = Shows n e × Show ns es

  -- No node stands twice behind `l`.
  abbrev pub Once : List Child → List Child → Type 0
  Once l [] = Unit
  Once l (n ∷ ns) = All (λ k. k ≢ n) l × Once (l ++ (n ∷ [])) ns

  entry_eq :
      (n : Child) (e : DirEnt) (s : Shows n e) (rest : List ℕ)
      → dir_entry hash lib layout get (key_bytes s.x.key ++ rest) (take size s.x.value.buf) ≡ e
  entry_eq n e s rest =
      ground (arith, key-name ino (key_bytes s.x.key) e.name s.named rest, s.has_ino, s.has_type)

  -- The buffers while the cursor stands on an item.
  abbrev pub HoldsKey : Dbt → HtCacheItem → Type 0
  HoldsKey key x = (rest : List ℕ) × (key.buf ≡ key_bytes x.key ++ rest)

  abbrev pub HoldsMeta : Dbt → HtCacheItem → Type 0
  HoldsMeta value x = (value.buf ≡ take size x.value.buf) × (value.size ≡ size)

  entry_here :
      (n : Child) (e : DirEnt) (s : Shows n e) (key value : Dbt)
      → HoldsKey key s.x
      → HoldsMeta value s.x
      → dir_entry hash lib layout get key.buf value.buf ≡ e
  entry_here n e s key value (rest, b) hm =
      ap₂ (λ k v. dir_entry hash lib layout get k v) b hm.0 ∙ entry_eq n e s rest

  step_lem :
      (n : Child) (e : DirEnt) (s : Shows n e) (indirect : List ℕ) (ctx : ReaddirCtx) (key : Dbt)
      (meta : List ℕ) (ret : ℤ) (k : Cache → List ℕ → Outcome (Cache × ReaddirCtx × ℤ))
      → HoldsKey key s.x
      → meta ≡ take size s.x.value.buf
      → readdir_step hash lib layout get ino indirect c ctx key meta ret k ≡ k c meta
  unfolding readdir_step follow
  step_lem n e s indirect ctx key meta ret k (rest, b) m =
      let child : (lightfs_key_get_ino key.buf == ino) ≡ true =
        ground
          (arith, ap lightfs_key_get_ino b, key-ino ino (key_bytes s.x.key) e.name s.named rest) in
      let plain : (layout.type meta == 1) ≡ false = ap (λ b. layout.type b == 1) m ∙ s.normal in
      ground (arith, child, plain)

  copied_value-HoldsMeta :
      (value : Dbt) (x' : HtCacheItem)
      → length value.buf ≡ size
      → value.size ≡ size
      → HoldsMeta (copied_value value x') x'
  copied_value-HoldsMeta value x' full e = (
    ap (λ k. take k x'.value.buf ++ drop (0 + k) value.buf) e
        ∙ ap (λ r. take size x'.value.buf ++ r) (drop_all size value.buf full)
        ∙ append-nil (take size x'.value.buf),
    e,
  )

  length-meta :
      (value : Dbt) (x : HtCacheItem)
      → HoldsMeta value x
      → size ≤ length x.value.buf
      → length value.buf ≡ size
  length-meta value x h le = ground (arith, ap length h.0, length-take size x.value.buf)

  module _ (y : HtCacheItem) (t : DcacheEntry) (at_p : c.item_at p ≡ some y)
      (has : y.dcache ≡ some t) where
    module _ (n : Child) (e : DirEnt) (s : Shows n e) (w : DcacheDbcWrap) (key value : Dbt)
        (on : w.node ≡ some n.item) (open_end : w.right ≡ none) (l : List Child)
        (fresh : All (λ k. k ≢ n) l) where
      here : ◌≡◌ {A = Child} (record { item = n.item; key = s.x.key }) n
      here = ap (λ k. record { item = n.item; key = k }) s.same_key

      next_last :
          inorder t.rb_root ≡ l ++ (n ∷ [])
          → lightfs_dcache_c_get hash lib c w key value next
            ≡ done (record w { node = none }, db_notfound_dcache_full, key, value)
      unfolding lightfs_dcache_c_get
      next_last order =
          let none_left =
            ap (lib.rb_next t.rb_root) here ∙ lib.next_last t.rb_root n l order fresh in
          ground (arith, s.at, s.parent, none_left)

      next_child :
          (m : Child) (r : List Child) (e' : DirEnt) (s' : Shows m e')
          → inorder t.rb_root ≡ l ++ (n ∷ m ∷ r)
          → lightfs_dcache_c_get hash lib c w key value next
            ≡ done (
              record w { node = some m.item },
              pos 0,
              copied_key key s'.x,
              copied_value value s'.x,
            )
      unfolding lightfs_dcache_c_get
      next_child m r e' s' order =
          let then_m =
            ap (lib.rb_next t.rb_root) here ∙ lib.next_follows t.rb_root n m l r order fresh in
          ground (arith, s.at, s.parent, then_m, s'.at)

    -- The loop with the cursor on the first of `n ∷ ns`.
    loop_lem :
        (room : ℕ) (l : List Child) (n : Child) (ns : List Child) (e : DirEnt) (es : List DirEnt)
        (s : Shows n e) (indirect : List ℕ) (ctx : ReaddirCtx) (key value : Dbt) (ret : ℤ)
        → Show ns es
        → inorder t.rb_root ≡ l ++ (n ∷ ns)
        → Once l (n ∷ ns)
        → suc (length es) ≤ room
        → ctx.cursor.node ≡ some n.item
        → ctx.cursor.right ≡ none
        → HoldsKey key s.x
        → HoldsMeta value s.x
        → (r : ReaddirCtx) × (readdir_loop hash lib layout get ino indirect room c ctx key value ret
            ≡ done (c, r, pos 1))
          × (r.out ≡ ctx.out ++ (e ∷ es))
          × (r.pos ≡ all_hit)
    unfolding readdir_loop
    loop_lem zero l n ns e es s indirect ctx key value ret shown order once le on open_end hk hm =
        absurd (omega arith)
    loop_lem (suc room) l n [] e [] s indirect ctx key value ret shown order once le on open_end hk
          hm =
        let end : ReaddirCtx = record ctx {
          pos = all_hit;
          cursor = record ctx.cursor { node = none };
          emit_cnt = add32 ctx.emit_cnt 1;
          out = ctx.out ++ (dir_entry hash lib layout get key.buf value.buf ∷ []);
        } in
        let last = next_last n e s ctx.cursor key value on open_end l once.0 order in
        (
          end,
          step_lem n e s indirect ctx key value.buf ret _ hk hm.0 ∙ ground (arith, last),
          ap (λ x. ctx.out ++ (x ∷ [])) (entry_here n e s key value hk hm),
          refl,
        )
    loop_lem (suc room) l n [] e (e' ∷ es) s indirect ctx key value ret shown order once le on
          open_end hk hm =
        absurd shown
    loop_lem (suc room) l n (m ∷ ns) e [] s indirect ctx key value ret shown order once le on
          open_end hk hm =
        absurd shown
    loop_lem (suc room) l n (m ∷ ns) e (e' ∷ es) s indirect ctx key value ret shown order once le on
          open_end hk hm =
        let s' = shown.0 in
        let hm' = copied_value-HoldsMeta value s'.x (length-meta value s.x hm s.held) hm.1 in
        let ctx' : ReaddirCtx = record ctx {
          pos = key_at (copied_key key s'.x).buf;
          cursor = record ctx.cursor { node = some m.item };
          emit_cnt = add32 ctx.emit_cnt 1;
          out = ctx.out ++ (dir_entry hash lib layout get key.buf value.buf ∷ []);
        } in
        let onward = next_child n e s ctx.cursor key value on open_end l once.0 m ns e' s' order in
        let later =
          loop_lem room (l ++ (n ∷ [])) m ns e' es s' indirect ctx' (copied_key key s'.x)
            (copied_value value s'.x) (pos 1) shown.1
            (order ∙ sym (append_assoc l (n ∷ []) (m ∷ ns))) once.1 (omega arith) refl open_end
            (drop (0 + s'.x.key.size) key.buf, refl) hm' in
        (
          later.0,
          step_lem n e s indirect ctx key value.buf ret _ hk hm.0 ∙ rw onward later.1,
          later.2
              ∙ append_assoc ctx.out (dir_entry hash lib layout get key.buf value.buf ∷ [])
                  (e' ∷ es)
              ∙ ap (λ x. ctx.out ++ (x ∷ e' ∷ es)) (entry_here n e s key value hk hm),
          later.3,
        )

    -- The key that the search starts from.
    start_key : List ℕ → Dbt → Dbt
    start_key mem meta_dbt =
        let child = lightfs_key_set_ino (lightfs_key_set_magic mem meta_key_magic) ino in
        record {
          buf = memcpy (memcpy child path_pos (1 ∷ 0 ∷ []) 2) 0 meta_dbt.buf meta_dbt.size;
          size = meta_dbt.size;
          ulen = meta_key_max_len;
          flags = db_dbt_usermem;
        }

    found_dir :
        (v : IsValid hash c) (mem : List ℕ) (meta_dbt : Dbt)
        → IsKey meta_dbt
        → place_in hash c (key_bytes meta_dbt) ≡ some p
        → lookup hash c (start_key mem meta_dbt) ≡ done (some p)
    unfolding start_key
    found_dir v mem meta_dbt ok at_key =
        let front : length (take meta_dbt.size meta_dbt.buf) ≡ meta_dbt.size =
          ground (arith, length-take meta_dbt.size meta_dbt.buf) in
        let key = start_key mem meta_dbt in
        let same : key_bytes key ≡ key_bytes meta_dbt =
          take-append_left (take meta_dbt.size meta_dbt.buf) _ meta_dbt.size front in
        let key_ok : IsKey key =
          omega (arith, front, length-append {0} (take meta_dbt.size meta_dbt.buf)) in
        lookup_lem hash key key_ok c v ∙ ap done (ap (place_in hash c) same ∙ at_key)

    module _ (w : DcacheDbcWrap) (key value : Dbt) (off : w.node ≡ none)
        (looked : lookup hash c key ≡ done (some p)) where
      first_none :
          inorder t.rb_root ≡ []
          → lightfs_dcache_c_get hash lib c w key value set_range
            ≡ done (record w { node = none }, db_notfound_dcache_full, key, value)
      unfolding lightfs_dcache_c_get
      first_none order = ground (arith, off, looked, at_p, has, lib.first_empty t.rb_root order)

      first_child :
          (n : Child) (ns : List Child) (e : DirEnt) (s : Shows n e)
          → inorder t.rb_root ≡ n ∷ ns
          → lightfs_dcache_c_get hash lib c w key value set_range
            ≡ done
                (record w { node = some n.item }, pos 0, copied_key key s.x, copied_value value s.x)
      unfolding lightfs_dcache_c_get
      first_child n ns e s order =
          ground (arith, off, looked, at_p, has, lib.first_least t.rb_root n ns order, s.at)

    -- In a valid cache, a first call of `lightfs_bstore_meta_readdir` on a cached directory, with
    -- memory for the key and room for all children, ends and emits the name, the inode number and
    -- the type of each child in the tree once, in the order of the tree, and marks the directory
    -- as read to its end. The children's keys are those of names in this directory, their metadata
    -- is held whole and not redirected, no node stands twice, and the cursor is new.
    pub readdir_start_lem :
        (v : IsValid hash c) (room : ℕ) (ns : List Child) (es : List DirEnt)
        (mem meta indirect : List ℕ) (ctx : ReaddirCtx) (meta_dbt : Dbt)
        → IsKey meta_dbt
        → place_in hash c (key_bytes meta_dbt) ≡ some p
        → length meta ≡ size
        → inorder t.rb_root ≡ ns
        → Show ns es
        → Once [] ns
        → length es ≤ room
        → ctx.cursor ≡ lightfs_dcache_cursor
        → (r : ReaddirCtx) × (ret : ℤ) × (readdir_start hash lib layout get
              (some mem)
              ino
              indirect
              meta
              room
              c
              ctx
              meta_dbt
            ≡ done (c, r, ret))
          × (r.out ≡ ctx.out ++ es)
          × (r.pos ≡ all_hit)
    unfolding readdir_start readdir_from copy_child_meta_dbt_from_inode start_key
    readdir_start_lem v room [] [] mem meta indirect ctx meta_dbt ok at_key len order shown once le
          cur =
        let key = start_key mem meta_dbt in
        let value = dbt_setup meta (length meta) in
        let got =
          first_none ctx.cursor key value (ap (λ (w : DcacheDbcWrap). w.node) cur)
            (found_dir v mem meta_dbt ok at_key) order in
        (
          record ctx { pos = all_hit; cursor = record ctx.cursor { node = none } },
          pos 0,
          rw got refl,
          sym (append-nil ctx.out),
          refl,
        )
    readdir_start_lem v room [] (e ∷ es) mem meta indirect ctx meta_dbt ok at_key len order shown
          once le cur =
        absurd shown
    readdir_start_lem v room (n ∷ ns) [] mem meta indirect ctx meta_dbt ok at_key len order shown
          once le cur =
        absurd shown
    readdir_start_lem v room (n ∷ ns) (e ∷ es) mem meta indirect ctx meta_dbt ok at_key len order
          shown once le cur =
        let s = shown.0 in
        let key = start_key mem meta_dbt in
        let value = dbt_setup meta (length meta) in
        let got =
          first_child ctx.cursor key value (ap (λ (w : DcacheDbcWrap). w.node) cur)
            (found_dir v mem meta_dbt ok at_key) n ns e s order in
        let ctx' : ReaddirCtx = record ctx {
          pos = key_at (copied_key key s.x).buf;
          cursor = record ctx.cursor { node = some n.item };
        } in
        let loop =
          loop_lem room [] n ns e es s indirect ctx' (copied_key key s.x) (copied_value value s.x)
            (pos 0) shown.1 order once le refl (ap (λ (w : DcacheDbcWrap). w.right) cur)
            (drop (0 + s.x.key.size) key.buf, refl) (copied_value-HoldsMeta value s.x len len) in
        (loop.0, pos 1, rw got loop.1, loop.2, loop.3)
