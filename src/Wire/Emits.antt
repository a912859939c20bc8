-- ===== src/Wire/Emits.antt =====
-- One request of a transfer, read back: Wire against Wire/Decode.
use kevin.Base.{
  ℕ, suc, ◌+◌, ◌%◌, ◌^◌, ◌≤◌, ◌<◌, List, [], ◌∷◌, ◌++◌, some, ◌≡◌, ap, sym, ◌∙◌, arith, length,
  take, drop, length-append, length-take, length-drop, append_assoc, take-append_left, drop-append,
}
use kevin.Key.{memcpy}
use kevin.Txn.{ReqType, type_code, TxnBuf}
use kevin.Wire.{
  Writer, le16, lightfs_io_set_u16, lightfs_io_set_buf_del, lightfs_io_set_buf_del_multi,
}
use kevin.Wire.Decode.{
  WireRequest, read_del, read_del_multi, value_bytes, value_room, read_valued, read_request,
  read_requests, read_u16-le16, read_key-le16,
}
use kevin.Wire.Appends.{
  Appends, memcpy-Appends, key_field, value_field, del-Appends, del_multi-Appends, value-Appends,
  Appends-then,
}

-- From `w` to `w'` bytes are written that are read as the requests `rs`.
pub record Emits (w w' : Writer) (rs : List WireRequest) : Type 0 where
  pub bytes : List ℕ
  pub appends : Appends w w' bytes
  pub reads :
      (rest : List ℕ) (k : ℕ)
      → read_requests (length rs + k) (bytes ++ rest) ≡ rs ++ read_requests k rest

pub Emits-then :
    (w w1 w2 : Writer) (xs ys : List WireRequest)
    → Emits w w1 xs
    → Emits w1 w2 ys
    → Emits w w2 (xs ++ ys)
Emits-then w w1 w2 xs ys a b = record {
  bytes = a.bytes ++ b.bytes;
  appends = Appends-then w w1 w2 a.bytes b.bytes a.appends b.appends;
  reads = λ rest k.
      let shift : length (xs ++ ys) + k ≡ length xs + (length ys + k) =
        omega (arith, length-append xs ys) in
      ap (λ n. read_requests n ((a.bytes ++ b.bytes) ++ rest)) shift
      ∙ ap (read_requests (length xs + (length ys + k))) (append_assoc a.bytes b.bytes rest)
      ∙ a.reads (b.bytes ++ rest) (length ys + k)
      ∙ ap (λ p. xs ++ p) (b.reads rest k)
      ∙ sym (append_assoc xs ys (read_requests k rest));
}

pub Emits-one :
    (w w' : Writer) (bytes : List ℕ) (r : WireRequest)
    → Appends w w' bytes
    → ((rest : List ℕ) → read_request (bytes ++ rest) ≡ some (r, rest))
    → Emits w w' (r ∷ [])
unfolding read_requests
Emits-one w w' bytes r a reads = record {
  bytes = bytes;
  appends = a;
  reads = λ rest k.
      let shift : 1 + k ≡ suc k = omega arith in
      ap (λ n. read_requests n (bytes ++ rest)) shift ∙ ground (arith, reads rest);
}

-- The requests as the device should see them.
abbrev pub deletion : ReqType → TxnBuf → WireRequest
deletion type b = record { type = type; key = take b.key_len b.key; off = 0; len = 0; value = [] }

abbrev pub deletions : ReqType → TxnBuf → WireRequest
deletions type b = record {
  type = type;
  key = take b.key_len b.key;
  off = b.off % 2 ^ 16;
  len = 0;
  value = [];
}

abbrev pub valued : ReqType → TxnBuf → ℕ → WireRequest
valued type b len = record {
  type = type;
  key = take b.key_len b.key;
  off = b.off % 2 ^ 16;
  len = len % 2 ^ 16;
  value = take (value_bytes type (len % 2 ^ 16)) b.buf;
}

module _ (b : TxnBuf) (small : b.key_len < 2 ^ 16) (have : b.key_len ≤ length b.key) where
  read_del_lem :
      (type : ReqType) (rest : List ℕ)
      → read_del type (le16 b.key_len ++ (take b.key_len b.key ++ rest))
        ≡ some (deletion type b, rest)
  unfolding read_del
  read_del_lem type rest = ground (arith, read_key-le16 b.key_len b.key rest small have)

  read_del_multi_lem :
      (type : ReqType) (rest : List ℕ)
      → read_del_multi type (le16 b.key_len ++ (take b.key_len b.key ++ (le16 b.off ++ rest)))
        ≡ some (deletions type b, rest)
  unfolding read_del_multi
  read_del_multi_lem type rest = ground (
    arith,
    read_key-le16 b.key_len b.key (le16 b.off ++ rest) small have,
    read_u16-le16 b.off rest,
  )

  read_valued_lem :
      (type : ReqType) (len n : ℕ) (gap rest : List ℕ)
      → value_bytes type (len % 2 ^ 16) ≡ n
      → value_room type (len % 2 ^ 16) ≡ n + length gap
      → n ≤ length b.buf
      → read_valued type (
          le16 b.key_len
          ++ (take b.key_len b.key
              ++ (le16 b.off ++ (le16 len ++ ((take n b.buf ++ gap) ++ rest)))))
        ≡ some (valued type b len, rest)
  unfolding read_valued
  read_valued_lem type len n gap rest bytes room full =
      let exact : length (take n b.buf) ≡ n = omega (arith, length-take n b.buf) in
      let all : length (take n b.buf ++ gap) ≡ value_room type (len % 2 ^ 16) =
        omega (arith, length-append (take n b.buf) gap, room) in
      let front : take (value_bytes type (len % 2 ^ 16)) ((take n b.buf ++ gap) ++ rest)
          ≡ take (value_bytes type (len % 2 ^ 16)) b.buf =
        ap (λ k. take k ((take n b.buf ++ gap) ++ rest)) bytes
        ∙ ap (take n) (append_assoc (take n b.buf) gap rest)
        ∙ take-append_left (take n b.buf) (gap ++ rest) n exact
        ∙ ap (λ k. take k b.buf) (sym bytes) in
      ground (
        arith,
        front,
        read_key-le16 b.key_len b.key (le16 b.off ++ (le16 len ++ ((take n b.buf ++ gap) ++ rest)))
            small have,
        read_u16-le16 b.off (le16 len ++ ((take n b.buf ++ gap) ++ rest)),
        read_u16-le16 len ((take n b.buf ++ gap) ++ rest),
        drop-append (take n b.buf ++ gap) rest (value_room type (len % 2 ^ 16)) all,
      )

  pub del-Emits :
      (w : Writer) (type : ReqType)
      → ((bs : List ℕ) → read_request (type_code type ∷ bs) ≡ read_del type bs)
      → w.idx + (3 + b.key_len) ≤ length w.buf
      → Emits w (lightfs_io_set_buf_del w type b) (deletion type b ∷ [])
  del-Emits w type code room =
      Emits-one w (lightfs_io_set_buf_del w type b) (key_field type b) (deletion type b)
        (del-Appends w type b have room)
        (λ rest.
          ap (λ p. read_request (type_code type ∷ p))
            (append_assoc (le16 b.key_len) (take b.key_len b.key) rest)
          ∙ code (le16 b.key_len ++ (take b.key_len b.key ++ rest))
          ∙ read_del_lem type rest)

  pub del_multi-Emits :
      (w : Writer) (type : ReqType)
      → ((bs : List ℕ) → read_request (type_code type ∷ bs) ≡ read_del_multi type bs)
      → w.idx + (5 + b.key_len) ≤ length w.buf
      → Emits w (lightfs_io_set_buf_del_multi w type b) (deletions type b ∷ [])
  del_multi-Emits w type code room =
      Emits-one w (lightfs_io_set_buf_del_multi w type b) (key_field type b ++ le16 b.off)
        (deletions type b) (del_multi-Appends w type b have room)
        (λ rest.
          ap (λ p. read_request (type_code type ∷ p)) (simp append_assoc)
          ∙ code (le16 b.key_len ++ (take b.key_len b.key ++ (le16 b.off ++ rest)))
          ∙ read_del_multi_lem type rest)

  -- A value of `n` bytes behind its fields, and `m` bytes that are skipped.
  pub valued-Emits :
      (w w' : Writer) (type : ReqType) (len n m : ℕ)
      → ((bs : List ℕ) → read_request (type_code type ∷ bs) ≡ read_valued type bs)
      → w'.buf
        ≡ memcpy
            (lightfs_io_set_u16 (lightfs_io_set_buf_del_multi w type b) len).buf
            (lightfs_io_set_u16 (lightfs_io_set_buf_del_multi w type b) len).idx
            b.buf
            n
      → w'.idx ≡ (lightfs_io_set_u16 (lightfs_io_set_buf_del_multi w type b) len).idx + (n + m)
      → value_bytes type (len % 2 ^ 16) ≡ n
      → value_room type (len % 2 ^ 16) ≡ n + m
      → n ≤ length b.buf
      → w.idx + (7 + b.key_len + (n + m)) ≤ length w.buf
      → Emits w w' (valued type b len ∷ [])
  valued-Emits w w' type len n m code same moved bytes skip full room =
      let w1 = lightfs_io_set_u16 (lightfs_io_set_buf_del_multi w type b) len in
      let a = value-Appends w type b len have (omega arith) in
      let at : w1.idx ≡ w.idx + (7 + b.key_len) = omega (
        arith,
        a.moves,
        length-append (key_field type b ++ le16 b.off) (le16 len),
        length-append (key_field type b) (le16 b.off),
        length-append (le16 b.key_len) (take b.key_len b.key),
        length-take b.key_len b.key,
      ) in
      let gap = take m (drop (w1.idx + n) w1.buf) in
      let gap_len : length gap ≡ m = omega (
        arith,
        length-take m (drop (w1.idx + n) w1.buf),
        length-drop (w1.idx + n) w1.buf,
        a.same_length,
        at,
      ) in
      let v = memcpy-Appends w1 w' b.buf n m same moved (omega (arith, at, a.same_length)) full in
      Emits-one w w' (value_field type b len ++ (take n b.buf ++ gap)) (valued type b len)
        (Appends-then w w1 w' (value_field type b len) (take n b.buf ++ gap) a v)
        (λ rest.
          ap (λ p. read_request (type_code type ∷ p))
            (append_assoc ((((le16 b.key_len) ++ take b.key_len b.key) ++ le16 b.off) ++ le16 len)
                (take n b.buf ++ gap) rest
              ∙ append_assoc (((le16 b.key_len) ++ take b.key_len b.key) ++ le16 b.off) (le16 len)
                  ((take n b.buf ++ gap) ++ rest)
              ∙ append_assoc ((le16 b.key_len) ++ take b.key_len b.key) (le16 b.off)
                  (le16 len ++ ((take n b.buf ++ gap) ++ rest))
              ∙ append_assoc (le16 b.key_len) (take b.key_len b.key)
                  (le16 b.off ++ (le16 len ++ ((take n b.buf ++ gap) ++ rest))))
          ∙ code (
              le16 b.key_len
              ++ (take b.key_len b.key
                  ++ (le16 b.off ++ (le16 len ++ ((take n b.buf ++ gap) ++ rest)))))
          ∙ read_valued_lem type len n gap rest bytes (omega (arith, gap_len, skip)) full)
