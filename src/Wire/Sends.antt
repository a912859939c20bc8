-- ===== src/Wire/Sends.antt =====
-- One request of any type through `put_request`: what is sent, the count, and the BUG_ONs.
use kevin.Base.{
  ℕ, ◌+◌, ◌%◌, ◌^◌, ◌≤◌, ◌<◌, List, [], ◌∷◌, ◌++◌, Bool, true, false, ◌||◌, ◌≡◌, refl, ap, sym, ◌∙◌,
  arith, length, take, length-append, append-nil,
}
use kevin.Txn.{
  ReqType, meta_set, data_set, data_seq_set, data_set_wb, meta_del, data_del, meta_update,
  data_update, data_del_multi, commit, meta_get, meta_sync_set, meta_cursor, meta_rename, data_get,
  data_cursor, data_rename, get_multi, get_multi_real, del_multi_real, txn_transfer,
  get_multi_reada, get_multi_reada_real, TxnBuf, DbTxn, DbCTxn, calc_txn_buf_size,
}
use kevin.Wire.{
  Writer, lightfs_io_set_buf_set, lightfs_io_set_buf_meta_set, lightfs_io_set_buf_update,
  lightfs_io_set_buf_del, lightfs_io_set_buf_del_multi, put_as, put_request,
}
use kevin.Wire.Within.{IsRequest, has_value}
use kevin.Wire.Decode.{WireRequest, read_as, read_request, read_requests}
use kevin.Wire.Emits.{
  Emits, Emits-then, deletion, deletions, valued, del-Emits, del_multi-Emits, valued-Emits,
}

-- The types that the transfer writes.
abbrev pub is_written : ReqType → Bool
is_written meta_del = true
is_written data_del = true
is_written data_del_multi = true
is_written type = has_value type

pub record IsSendable (b : TxnBuf) : Type 0 where
  pub request : IsRequest b
  pub written : is_written b.type ≡ true

-- What a device should get of a request, of transactions, and of a group.
unfoldable pub image_as : ReqType → TxnBuf → WireRequest
image_as meta_set b = valued meta_set b 152
image_as data_set_wb b = valued data_set b (b.len % 2 ^ 16)
image_as data_set b = valued data_set b (b.len % 2 ^ 16)
image_as data_seq_set b = valued data_seq_set b (b.len % 2 ^ 16)
image_as meta_update b = valued meta_update b b.update
image_as data_update b = valued data_update b b.update
image_as data_del_multi b = deletions data_del_multi b
image_as type b = deletion type b

unfoldable pub request_images : List TxnBuf → List WireRequest
request_images [] = []
request_images (b ∷ bs) = image_as b.type b ∷ request_images bs

unfoldable pub txn_images : List DbTxn → List WireRequest
txn_images [] = []
txn_images (t ∷ ts) = request_images t.txn_buf_list ++ txn_images ts

abbrev pub commit_image : Bool → List WireRequest
commit_image true = record { type = commit; key = []; off = 0; len = 0; value = [] } ∷ []
commit_image false = []

unfoldable pub group_images : DbCTxn → List WireRequest
group_images c = txn_images c.txn_list ++ commit_image (c.state.flush || c.state.ordered)

-- A step of the writer and its count that emits `rs` and hits no BUG_ON.
pub record Sends (s s' : Writer × ℕ) (rs : List WireRequest) : Type 0 where
  pub emits : Emits s.0 s'.0 rs
  pub counts : s'.1 ≡ s.1 + length rs
  pub fine : s'.0.bug ≡ s.0.bug

Emits-bug :
    (w w' : Writer) (x : Bool) (rs : List WireRequest)
    → Emits w w' rs
    → Emits w (record w' { bug = x }) rs
Emits-bug w w' x rs e = record {
  bytes = e.bytes;
  appends = record {
    same_length = e.appends.same_length;
    moves = e.appends.moves;
    behind = e.appends.behind;
  };
  reads = e.reads;
}

module _ (w : Writer) (cnt : ℕ) (b : TxnBuf) (r : IsRequest b) where
  put_as-Emits :
      (type : ReqType)
      → is_written type ≡ true
      → (has_value type ≡ true → (b.len ≡ 4096) × (length b.buf ≡ 4096))
      → w.idx + (7 + b.key_len + b.len) ≤ length w.buf
      → Emits w (put_as (w, cnt) b type).0 (image_as type b ∷ [])
  unfolding put_as image_as lightfs_io_set_buf_set lightfs_io_set_buf_meta_set
      lightfs_io_set_buf_update read_request read_as
  put_as-Emits meta_set wr page room =
      valued-Emits b r.key_small r.key_room w (lightfs_io_set_buf_meta_set w meta_set b) meta_set
        152 152 3944 (λ bs. refl) refl (omega arith) (omega (arith, page refl))
        (omega (arith, page refl)) (omega (arith, page refl)) (omega (arith, page refl))
  put_as-Emits data_set wr page room =
      valued-Emits b r.key_small r.key_room w (lightfs_io_set_buf_set w data_set b) data_set
        (b.len % 2 ^ 16) (b.len % 2 ^ 16) 0 (λ bs. refl) refl (omega arith)
        (omega (arith, page refl)) (omega (arith, page refl)) (omega (arith, page refl))
        (omega (arith, page refl))
  put_as-Emits data_seq_set wr page room =
      valued-Emits b r.key_small r.key_room w (lightfs_io_set_buf_set w data_seq_set b) data_seq_set
        (b.len % 2 ^ 16) (b.len % 2 ^ 16) 0 (λ bs. refl) refl (omega arith)
        (omega (arith, page refl)) (omega (arith, page refl)) (omega (arith, page refl))
        (omega (arith, page refl))
  put_as-Emits data_set_wb wr page room =
      valued-Emits b r.key_small r.key_room w (lightfs_io_set_buf_set w data_set b) data_set
        (b.len % 2 ^ 16) (b.len % 2 ^ 16) 0 (λ bs. refl) refl (omega arith)
        (omega (arith, page refl)) (omega (arith, page refl)) (omega (arith, page refl))
        (omega (arith, page refl))
  put_as-Emits meta_update wr page room =
      valued-Emits b r.key_small r.key_room w (lightfs_io_set_buf_update w meta_update b)
        meta_update b.update 4096 0 (λ bs. refl) refl (omega arith) (omega (arith, page refl))
        (omega (arith, page refl)) (omega (arith, page refl)) (omega (arith, page refl))
  put_as-Emits data_update wr page room =
      valued-Emits b r.key_small r.key_room w (lightfs_io_set_buf_update w data_update b)
        data_update b.update 4096 0 (λ bs. refl) refl (omega arith) (omega (arith, page refl))
        (omega (arith, page refl)) (omega (arith, page refl)) (omega (arith, page refl))
  put_as-Emits meta_del wr page room =
      del-Emits b r.key_small r.key_room w meta_del (λ bs. refl) (omega arith)
  put_as-Emits data_del wr page room =
      del-Emits b r.key_small r.key_room w data_del (λ bs. refl) (omega arith)
  put_as-Emits data_del_multi wr page room =
      del_multi-Emits b r.key_small r.key_room w data_del_multi (λ bs. refl) (omega arith)
  put_as-Emits meta_get wr page room = absurd (ground (arith, wr))
  put_as-Emits meta_sync_set wr page room = absurd (ground (arith, wr))
  put_as-Emits meta_cursor wr page room = absurd (ground (arith, wr))
  put_as-Emits meta_rename wr page room = absurd (ground (arith, wr))
  put_as-Emits data_get wr page room = absurd (ground (arith, wr))
  put_as-Emits data_cursor wr page room = absurd (ground (arith, wr))
  put_as-Emits data_rename wr page room = absurd (ground (arith, wr))
  put_as-Emits commit wr page room = absurd (ground (arith, wr))
  put_as-Emits get_multi wr page room = absurd (ground (arith, wr))
  put_as-Emits get_multi_real wr page room = absurd (ground (arith, wr))
  put_as-Emits del_multi_real wr page room = absurd (ground (arith, wr))
  put_as-Emits txn_transfer wr page room = absurd (ground (arith, wr))
  put_as-Emits get_multi_reada wr page room = absurd (ground (arith, wr))
  put_as-Emits get_multi_reada_real wr page room = absurd (ground (arith, wr))

  put_as_count :
      (type : ReqType)
      → is_written type ≡ true
      → ((put_as (w, cnt) b type).1 ≡ (cnt + 1) % 2 ^ 16) × ((put_as (w, cnt) b type).0.bug ≡ w.bug)
  unfolding put_as lightfs_io_set_buf_set lightfs_io_set_buf_meta_set lightfs_io_set_buf_update
      lightfs_io_set_buf_del_multi lightfs_io_set_buf_del
  put_as_count meta_set wr = (refl, ground arith)
  put_as_count data_set wr = (refl, ground arith)
  put_as_count data_seq_set wr = (refl, ground arith)
  put_as_count data_set_wb wr = (refl, ground arith)
  put_as_count meta_update wr = (refl, ground arith)
  put_as_count data_update wr = (refl, ground arith)
  put_as_count meta_del wr = (refl, ground arith)
  put_as_count data_del wr = (refl, ground arith)
  put_as_count data_del_multi wr = (refl, ground arith)
  put_as_count meta_get wr = absurd (ground (arith, wr))
  put_as_count meta_sync_set wr = absurd (ground (arith, wr))
  put_as_count meta_cursor wr = absurd (ground (arith, wr))
  put_as_count meta_rename wr = absurd (ground (arith, wr))
  put_as_count data_get wr = absurd (ground (arith, wr))
  put_as_count data_cursor wr = absurd (ground (arith, wr))
  put_as_count data_rename wr = absurd (ground (arith, wr))
  put_as_count commit wr = absurd (ground (arith, wr))
  put_as_count get_multi wr = absurd (ground (arith, wr))
  put_as_count get_multi_real wr = absurd (ground (arith, wr))
  put_as_count del_multi_real wr = absurd (ground (arith, wr))
  put_as_count txn_transfer wr = absurd (ground (arith, wr))
  put_as_count get_multi_reada wr = absurd (ground (arith, wr))
  put_as_count get_multi_reada_real wr = absurd (ground (arith, wr))

  pub put_request-Sends :
      IsSendable b
      → w.idx + calc_txn_buf_size b ≤ length w.buf
      → cnt + 1 < 2 ^ 16
      → w.bug ≡ false
      → Sends (w, cnt) (put_request (w, cnt) b) (image_as b.type b ∷ [])
  unfolding put_request
  put_request-Sends ok room few fine =
      let (count, same) = put_as_count b.type ok.written in
      let w' = put_request (w, cnt) b in
      record {
        emits =
            Emits-bug w (put_as (w, cnt) b b.type).0 w'.0.bug (image_as b.type b ∷ [])
              (put_as-Emits b.type ok.written r.page (omega (arith, r.key_small, r.len_small)));
        counts = omega (arith, count);
        fine = ground (arith, count, same, fine);
      }

pub Sends-then :
    (s s1 s2 : Writer × ℕ) (xs ys : List WireRequest)
    → Sends s s1 xs
    → Sends s1 s2 ys
    → Sends s s2 (xs ++ ys)
Sends-then s s1 s2 xs ys a b = record {
  emits = Emits-then s.0 s1.0 s2.0 xs ys a.emits b.emits;
  counts = omega (arith, a.counts, b.counts, length-append xs ys);
  fine = b.fine ∙ a.fine;
}

pub Sends-none : (s : Writer × ℕ) → Sends s s []
unfolding read_requests
Sends-none s = record {
  emits = record {
    bytes = [];
    appends = record {
      same_length = refl;
      moves = omega arith;
      behind = sym (append-nil (take s.0.idx s.0.buf));
    };
    reads = λ rest k. ap (λ n. read_requests n rest) (omega arith);
  };
  counts = omega arith;
  fine = refl;
}
