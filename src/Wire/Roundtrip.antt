-- ===== src/Wire/Roundtrip.antt =====
-- A whole transfer, read back.
use kevin.Base.{
  ℕ, zero, suc, ◌+◌, ◌*◌, ◌/◌, ◌%◌, ◌^◌, ◌≤◌, ◌<◌, List, [], ◌∷◌, ◌++◌, Bool, true, false, ◌||◌,
  ◌≡◌, refl, ap, ◌∙◌, arith, All, All-imp, Bool-cases, inl, inr, length, take, drop, length-append,
  length-take, length-drop, append_assoc, append-nil, drop-append,
}
use kevin.Key.{memcpy}
use kevin.Txn.{commit, TxnBuf, DbTxn, DbCTxn}
use kevin.Txn.Size.{total_size}
use kevin.Wire.{
  Writer, le16, le32, lightfs_io_set_txn_id, lightfs_io_set_type, put_request, put_requests,
  put_txns, put_commit, lightfs_io_transfer,
}
use kevin.Wire.Within.{Within, IsRequest}
use kevin.Wire.Bounds.{payload, put_as-AtMost, put_requests-AtMost, put_txns-AtMost}
use kevin.Wire.Decode.{read_as, read_request, read_requests, read_transfer, read_u16-le16}
use kevin.Wire.Appends.{Appends, memcpy-Appends, copy-Appends}
use kevin.Wire.Emits.{Emits-one}
use kevin.Wire.Sends.{
  IsSendable, image_as, request_images, txn_images, commit_image, group_images, Sends,
  put_request-Sends, Sends-then, Sends-none,
}

-- What is not written yet is as it was.
untouched : (buf : List ℕ) → Within buf (length buf) buf
untouched buf = record { same_length = refl; beyond = λ i le. refl }

put_requests-Sends :
    (s : Writer × ℕ) (bs : List TxnBuf)
    → All IsSendable bs
    → s.0.idx + total_size bs ≤ length s.0.buf
    → s.1 + length bs < 2 ^ 16
    → s.0.bug ≡ false
    → Sends s (put_requests s bs) (request_images bs)
unfolding put_requests put_request total_size request_images
put_requests-Sends s [] ok room few fine = Sends-none s
put_requests-Sends s (b ∷ bs) ok room few fine =
    let s1 = put_request s b in
    let r = ok.0.request in
    let one = put_request-Sends s.0 s.1 b r ok.0 (omega (arith, room)) (omega (arith, few)) fine in
    let (i, le) =
      put_as-AtMost s.0.buf (length s.0.buf) (omega arith) s.0 s.1 b b.type (untouched s.0.buf) r
        refl (omega (arith, room, r.key_small, r.len_small)) in
    Sends-then s s1 (put_requests s1 bs) (image_as b.type b ∷ []) (request_images bs) one (
      put_requests-Sends s1 bs ok.1
        (omega (arith, room, le, one.emits.appends.same_length, r.key_small, r.len_small))
        (omega (arith, one.counts, few)) (one.fine ∙ fine))

-- The requests of some transactions.
unfoldable pub request_count : List DbTxn → ℕ
request_count [] = 0
request_count (t ∷ ts) = length t.txn_buf_list + request_count ts

All_request : (bs : List TxnBuf) → All IsSendable bs → All IsRequest bs
All_request bs = All-imp IsSendable IsRequest (λ b ok. ok.request) bs

length-request_images : (bs : List TxnBuf) → length (request_images bs) ≡ length bs
unfolding request_images
length-request_images [] = refl
length-request_images (b ∷ bs) = omega (arith, length-request_images bs)

put_txns-Sends :
    (s : Writer × ℕ) (ts : List DbTxn)
    → All (λ t. All IsSendable t.txn_buf_list) ts
    → s.0.idx + payload ts ≤ length s.0.buf
    → s.1 + request_count ts < 2 ^ 16
    → s.0.bug ≡ false
    → Sends s (put_txns s ts) (txn_images ts)
unfolding put_txns payload txn_images request_count
put_txns-Sends s [] ok room few fine = Sends-none s
put_txns-Sends s (t ∷ ts) ok room few fine =
    let bs = t.txn_buf_list in
    let s1 = put_requests s bs in
    let one = put_requests-Sends s bs ok.0 (omega (arith, room)) (omega (arith, few)) fine in
    let (i, le) =
      put_requests-AtMost s.0.buf (length s.0.buf) (omega arith) s.0 s.1 bs (untouched s.0.buf)
        (All_request bs ok.0) (omega (arith, room)) in
    Sends-then s s1 (put_txns s1 ts) (request_images bs) (txn_images ts) one (
      put_txns-Sends s1 ts ok.1 (omega (arith, room, le, one.emits.appends.same_length))
        (omega (arith, one.counts, few, length-request_images bs)) (one.fine ∙ fine))

length-txn_images : (ts : List DbTxn) → length (txn_images ts) ≡ request_count ts
unfolding txn_images request_count
length-txn_images [] = refl
length-txn_images (t ∷ ts) = omega (
  arith,
  length-append (request_images t.txn_buf_list) (txn_images ts),
  length-request_images t.txn_buf_list,
  length-txn_images ts,
)

length-group_images : (c : DbCTxn) → length (group_images c) ≤ request_count c.txn_list + 1
unfolding group_images
length-group_images c = elim (Bool-cases (c.state.flush || c.state.ordered)) [
  | inl e ↦ omega (
    arith,
    length-append (txn_images c.txn_list) (commit_image (c.state.flush || c.state.ordered)),
    length-txn_images c.txn_list,
    ap (λ x. length (commit_image x)) e,
  )
  | inr e ↦ omega (
    arith,
    length-append (txn_images c.txn_list) (commit_image (c.state.flush || c.state.ordered)),
    length-txn_images c.txn_list,
    ap (λ x. length (commit_image x)) e,
  )
]

put_commit-Sends :
    (s : Writer × ℕ) (flush : Bool)
    → s.0.idx + 1 ≤ length s.0.buf
    → s.1 + 1 < 2 ^ 16
    → s.0.bug ≡ false
    → Sends s (put_commit s flush) (commit_image flush)
unfolding put_commit read_request read_as
put_commit-Sends s false room few fine = Sends-none s
put_commit-Sends s true room few fine = record {
  emits =
      Emits-one s.0 (lightfs_io_set_type s.0 commit) (15 ∷ [])
        (record { type = commit; key = []; off = 0; len = 0; value = [] })
        (copy-Appends s.0 (lightfs_io_set_type s.0 commit) (15 ∷ []) 1 refl refl room (omega arith))
        (λ rest. refl);
  counts = omega (arith, few);
  fine = ground (arith, fine);
}

take-drop : (n : ℕ) (xs : List ℕ) → xs ≡ take n xs ++ drop n xs
take-drop zero xs = refl
take-drop (suc n) [] = refl
take-drop (suc n) (x ∷ xs) = ap (◌∷◌ x) (take-drop n xs)

-- The count is written between the number and the requests.
read_transfer-counted :
    (buf : List ℕ) (id cnt : ℕ) (gap body : List ℕ)
    → length gap ≡ 2
    → buf ≡ le32 id ++ (gap ++ body)
    → cnt < 2 ^ 16
    → read_transfer (memcpy buf 4 (le16 cnt) 2) ≡ (id % 2 ^ 32, read_requests cnt body)
unfolding read_transfer
read_transfer-counted buf id cnt gap body two e small =
    let shape : memcpy buf 4 (le16 cnt) 2 ≡ le32 id ++ (le16 cnt ++ body) =
      ap (λ p. memcpy p 4 (le16 cnt) 2) e
      ∙ ap (λ p. le32 id ++ (le16 cnt ++ p)) (drop-append gap body 2 two) in
    let count : cnt % 2 ^ 16 ≡ cnt = omega arith in
    let number : id % 65536 % 2 ^ 16 + 65536 * (id / 65536 % 65536 % 2 ^ 16) ≡ id % 2 ^ 32 =
      omega arith in
    ap read_transfer shape
    ∙ ground (
      arith,
      read_u16-le16 (id % 65536) (le16 (id / 65536 % 65536) ++ (le16 cnt ++ body)),
      read_u16-le16 (id / 65536 % 65536) (le16 cnt ++ body),
      read_u16-le16 cnt body,
      count,
      number,
    )

module _ (buf : List ℕ) (c : DbCTxn) (ok : All (λ t. All IsSendable t.txn_buf_list) c.txn_list)
    (room : 7 + payload c.txn_list ≤ length buf) (few : request_count c.txn_list + 1 < 2 ^ 16) where
  abbrev start : Writer
  start = record (lightfs_io_set_txn_id (record { buf = buf; idx = 0; bug = false }) c.txn_id) {
    idx = 6;
  }

  abbrev body : Writer × ℕ
  body = put_txns (start, 0) c.txn_list

  abbrev ended : Writer × ℕ
  ended = put_commit body (c.state.flush || c.state.ordered)

  start-Appends :
      Appends
        (record { buf = buf; idx = 0; bug = false })
        start
        (le32 c.txn_id ++ take 2 (drop 4 buf))
  start-Appends =
      memcpy-Appends (record { buf = buf; idx = 0; bug = false }) start (le32 c.txn_id) 4 2 refl
        refl (omega (arith, room)) (omega arith)

  ended-Sends : Sends (start, 0) ended (group_images c)
  unfolding group_images
  ended-Sends =
      let one =
        put_txns-Sends (start, 0) c.txn_list ok (omega (arith, room, start-Appends.same_length))
          (omega (arith, few)) refl in
      let (i, le) =
        put_txns-AtMost start.buf (length start.buf) (omega arith) start 0 c.txn_list
          (untouched start.buf)
          (All-imp (λ t. All IsSendable t.txn_buf_list) (λ t. All IsRequest t.txn_buf_list)
            (λ t. All_request t.txn_buf_list) c.txn_list ok)
          (omega (arith, room, start-Appends.same_length)) in
      Sends-then (start, 0) body ended (txn_images c.txn_list)
        (commit_image (c.state.flush || c.state.ordered)) one
        (put_commit-Sends body (c.state.flush || c.state.ordered)
          (omega (arith, room, le, start-Appends.same_length, one.emits.appends.same_length))
          (omega (arith, one.counts, few, length-txn_images c.txn_list)) one.fine)

  -- Behind the number and the place of the count, the buffer holds the requests.
  ended_shape :
      ended.0.buf
      ≡ le32 c.txn_id
        ++ (take 2 (drop 4 buf) ++ (ended-Sends.emits.bytes ++ drop ended.0.idx ended.0.buf))
  ended_shape =
      take-drop ended.0.idx ended.0.buf
      ∙ ap (λ p. p ++ drop ended.0.idx ended.0.buf)
          (ended-Sends.emits.appends.behind
            ∙ ap (λ p. p ++ ended-Sends.emits.bytes) start-Appends.behind)
      ∙ append_assoc (le32 c.txn_id ++ take 2 (drop 4 buf)) ended-Sends.emits.bytes
          (drop ended.0.idx ended.0.buf)
      ∙ append_assoc (le32 c.txn_id) (take 2 (drop 4 buf))
          (ended-Sends.emits.bytes ++ drop ended.0.idx ended.0.buf)

  -- For a group of fewer than 2^16 - 1 requests, each ready to be sent and of a type that the transfer
  -- writes, in a buffer with room for their sizes and seven bytes, the bytes that the transfer leaves
  -- are read back as the group's number and its requests in order, with the commit record at the
  -- end of a flushed or ordered group, and no BUG_ON is hit.
  pub read_transfer-lightfs_io_transfer :
      (read_transfer (lightfs_io_transfer buf c).buf ≡ (c.txn_id % 2 ^ 32, group_images c))
      × ((lightfs_io_transfer buf c).bug ≡ false)
  unfolding lightfs_io_transfer read_requests
  read_transfer-lightfs_io_transfer =
      let count : ended.1 ≡ length (group_images c) + 0 = omega (arith, ended-Sends.counts) in
      let body_bytes = ended-Sends.emits.bytes ++ drop ended.0.idx ended.0.buf in
      (
        read_transfer-counted ended.0.buf c.txn_id ended.1 (take 2 (drop 4 buf)) body_bytes
              (omega (arith, length-take 2 (drop 4 buf), length-drop 4 buf, room)) ended_shape
              (omega (arith, count, length-group_images c, few))
            ∙ ap (λ rs. (c.txn_id % 2 ^ 32, rs))
                (ap (λ n. read_requests n body_bytes) count
                  ∙ ended-Sends.emits.reads (drop ended.0.idx ended.0.buf) 0
                  ∙ append-nil (group_images c)),
        ended-Sends.fine,
      )
