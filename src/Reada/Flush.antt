-- ===== src/Reada/Flush.antt =====
-- The list of readahead entries, its count and its head.
use kevin.Base.{
  ℕ, zero, suc, ◌+◌, ◌%◌, ◌<◌, List, [], ◌∷◌, ◌++◌, some, true, false, done, ◌>>=◌, ◌==◌, ◌≡◌, ◌⊎◌,
  inl, inr, refl, ap, ap₂, sym, subst, fun_ext, length-drop, ◌∙◌, arith, All, length, length-append,
  take, drop,
}
use kevin.Reada.{
  ReadaEntry, LightfsInode, remove, head, entry_at, lightfs_reada_alloc, lightfs_reada_free,
  all_flush, flush, lightfs_reada_flush,
}

-- `ra_entry` points to the first entry, and the 8-bit count is the list's length.
pub record IsValid (inode : LightfsInode) : Type 0 where
  pub first : inode.ra_entry ≡ head inode.ra_list
  pub count : inode.ra_entry_cnt ≡ length inode.ra_list
  pub few : length inode.ra_list < 256

empty_cases :
    (es : List ReadaEntry)
    → (es ≡ []) ⊎ ((e : ReadaEntry) × (rest : List ReadaEntry) × (es ≡ e ∷ rest))
empty_cases [] = inl refl
empty_cases (e ∷ rest) = inr (e, rest, refl)

-- From a valid inode with fewer than 255 entries `lightfs_reada_alloc` adds an entry at the end, and
-- leaves the inode valid.
lightfs_reada_alloc-IsValid :
    (inode : LightfsInode) (id current_block_num block_cnt : ℕ)
    → IsValid inode
    → length inode.ra_list < 255
    → (after : LightfsInode) × (entry : ReadaEntry) × (lightfs_reada_alloc inode id
          current_block_num block_cnt
        ≡ done (after, entry))
      × (after.ra_list ≡ inode.ra_list ++ (entry ∷ []))
      × IsValid after
unfolding lightfs_reada_alloc
lightfs_reada_alloc-IsValid inode id current_block_num block_cnt v room =
    let entry : ReadaEntry = record {
      id = id;
      buf = [];
      reada_block_start = current_block_num;
      reada_block_len = block_cnt;
      tag = 0;
      is_empty = false;
      is_done = false;
    } in
    let cnt : (inode.ra_entry_cnt + 1) % 256 ≡ length inode.ra_list + 1 =
      omega (arith, v.count, room) in
    elim (empty_cases inode.ra_list) [
      | inl e ↦ (
        record inode {
          ra_list = inode.ra_list ++ (entry ∷ []);
          ra_entry_cnt = (inode.ra_entry_cnt + 1) % 256;
          ra_entry = some id;
        },
        entry,
        ground (arith, cnt, e, v.first),
        refl,
        record {
          first = ground (arith, e);
          count = cnt ∙ sym (length-append inode.ra_list (entry ∷ []));
          few = omega (arith, room, length-append inode.ra_list (entry ∷ []));
        },
      )
      | inr (first, rest, e) ↦ (
        record inode {
          ra_list = inode.ra_list ++ (entry ∷ []);
          ra_entry_cnt = (inode.ra_entry_cnt + 1) % 256;
        },
        entry,
        ground (arith, cnt, e),
        refl,
        record {
          first = ground (arith, e, v.first);
          count = cnt ∙ sym (length-append inode.ra_list (entry ∷ []));
          few = omega (arith, room, length-append inode.ra_list (entry ∷ []));
        },
      )
    ]

abbrev pub tags : List ReadaEntry → List ℕ
tags [] = []
tags (e ∷ es) = e.tag ∷ tags es

-- The inode without its first entries.
abbrev pub without : LightfsInode → List ReadaEntry → LightfsInode
without inode es = record inode { ra_list = es; ra_entry_cnt = length es; ra_entry = head es }

free_first :
    (e : ReadaEntry) (es : List ReadaEntry) (inode : LightfsInode)
    → e.is_done ≡ true
    → length (e ∷ es) < 256
    → lightfs_reada_free e (without inode (e ∷ es)) ≡ done (without inode es, e.tag)
unfolding lightfs_reada_free remove entry_at
free_first e [] inode d small = ground (arith, d)
free_first e (f ∷ es) inode d small =
    let same : (e.id == e.id) ≡ true = ground arith in
    let cnt : (length (e ∷ f ∷ es) + 255) % 256 ≡ length (f ∷ es) = omega (arith, small) in
    let some_left : (length (f ∷ es) == 0) ≡ false = ground arith in cc (d, same, cnt, some_left)

flush_first :
    (n : ℕ) (es : List ReadaEntry) (inode : LightfsInode)
    → All (λ e. e.is_done ≡ true) (take n es)
    → length es < 256
    → flush n es (without inode es) ≡ done (without inode (drop n es), tags (take n es))
unfolding flush
flush_first zero [] inode d small = refl
flush_first (suc n) [] inode d small = refl
flush_first zero (e ∷ es) inode d small = refl
flush_first (suc n) (e ∷ es) inode d small =
    ground
      (arith, free_first e es inode d.0 small, flush_first n es inode d.1 (omega (arith, small)))

all_flush-flush :
    (es : List ReadaEntry) (inode : LightfsInode) → all_flush es inode ≡ flush (length es) es inode
unfolding flush all_flush
all_flush-flush [] inode = refl
all_flush-flush (e ∷ es) inode =
    ap (λ k. lightfs_reada_free e inode >>= k)
      (fun_ext (λ x. ap (λ o. o >>= (λ y. done (y.0, x.1 ∷ y.1))) (all_flush-flush es x.0)))

-- In a valid inode of which the first `n` entries are done, `lightfs_reada_flush` up to `n` ends, gives
-- back the tags of these entries in order, once each, and leaves a valid inode with the others.
pub lightfs_reada_flush_lem :
    (inode : LightfsInode) (n : ℕ)
    → IsValid inode
    → All (λ e. e.is_done ≡ true) (take n inode.ra_list)
    → (lightfs_reada_flush inode n
        ≡ done (without inode (drop n inode.ra_list), tags (take n inode.ra_list)))
      × IsValid (without inode (drop n inode.ra_list))
lightfs_reada_flush_lem inode n v d =
    let same : without inode inode.ra_list ≡ inode =
      ap₂ (λ c p. record inode { ra_entry_cnt = c; ra_entry = p }) (sym v.count) (sym v.first) in
    (
      subst
          (λ i.
            flush n inode.ra_list i
            ≡ done (without inode (drop n inode.ra_list), tags (take n inode.ra_list)))
          same (flush_first n inode.ra_list inode d v.few),
      record {
        first = refl;
        count = refl;
        few = omega (arith, v.few, length-drop n inode.ra_list);
      },
    )
