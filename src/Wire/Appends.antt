-- ===== src/Wire/Appends.antt =====
-- What one write of the transfer appends to the bytes in front of the index.
use kevin.Base.{
  ℕ, ◌+◌, ◌≤◌, List, [], ◌∷◌, ◌++◌, ◌≡◌, refl, ap, ◌∙◌, arith, length, take, drop, length-append,
  length-take, length-drop, take-append, append_assoc, append-nil,
}
use kevin.Key.{memcpy}
use kevin.Txn.{ReqType, type_code, TxnBuf}
use kevin.Wire.{
  Writer, le16, lightfs_io_set_type, lightfs_io_set_u16, lightfs_io_set_value,
  lightfs_io_set_buf_del, lightfs_io_set_buf_del_multi,
}
use kevin.Key.Memory.{length-memcpy}

pub record Appends (w w' : Writer) (bytes : List ℕ) : Type 0 where
  pub same_length : length w'.buf ≡ length w.buf
  pub moves : w'.idx ≡ w.idx + length bytes
  pub behind : take w'.idx w'.buf ≡ take w.idx w.buf ++ bytes

pub Appends-then :
    (w w1 w2 : Writer) (xs ys : List ℕ)
    → Appends w w1 xs
    → Appends w1 w2 ys
    → Appends w w2 (xs ++ ys)
Appends-then w w1 w2 xs ys a b = record {
  same_length = b.same_length ∙ a.same_length;
  moves = omega (arith, a.moves, b.moves, length-append xs ys);
  behind = b.behind ∙ ap (λ p. p ++ ys) a.behind ∙ append_assoc (take w.idx w.buf) xs ys;
}

take-memcpy :
    (dst : List ℕ) (off : ℕ) (src : List ℕ) (n m : ℕ)
    → off + n ≤ length dst
    → n ≤ length src
    → take (off + (n + m)) (memcpy dst off src n)
      ≡ take off dst ++ (take n src ++ take m (drop (off + n) dst))
take-memcpy dst off src n m h k =
    take-append (take off dst) (take n src ++ drop (off + n) dst) off (n + m)
      (omega (arith, length-take off dst))
    ∙ ap (λ p. take off dst ++ p)
        (take-append (take n src) (drop (off + n) dst) n m (omega (arith, length-take n src)))

-- A copy of `n` bytes, with the index moved on by `m` more.
pub memcpy-Appends :
    (w w' : Writer) (src : List ℕ) (n m : ℕ)
    → w'.buf ≡ memcpy w.buf w.idx src n
    → w'.idx ≡ w.idx + (n + m)
    → w.idx + (n + m) ≤ length w.buf
    → n ≤ length src
    → Appends w w' (take n src ++ take m (drop (w.idx + n) w.buf))
memcpy-Appends w w' src n m same moved room have = record {
  same_length = ap length same ∙ length-memcpy w.buf w.idx src n (omega arith) have;
  moves = omega (
    arith,
    moved,
    length-append (take n src) (take m (drop (w.idx + n) w.buf)),
    length-take n src,
    length-take m (drop (w.idx + n) w.buf),
    length-drop (w.idx + n) w.buf,
  );
  behind =
      ap (λ k. take k w'.buf) moved
      ∙ ap (take (w.idx + (n + m))) same
      ∙ take-memcpy w.buf w.idx src n m (omega arith) have;
}

-- A copy with the index moved on by what was copied.
pub copy-Appends :
    (w w' : Writer) (src : List ℕ) (n : ℕ)
    → w'.buf ≡ memcpy w.buf w.idx src n
    → w'.idx ≡ w.idx + n
    → w.idx + n ≤ length w.buf
    → n ≤ length src
    → Appends w w' (take n src)
copy-Appends w w' src n same moved room have =
    let a = memcpy-Appends w w' src n 0 same (omega arith) (omega arith) have in
    record {
      same_length = a.same_length;
      moves = omega (arith, moved, length-take n src);
      behind = a.behind ∙ ap (λ p. take w.idx w.buf ++ p) (append-nil (take n src));
    }

-- The bytes of a type, a key's length and a key.
abbrev pub key_field : ReqType → TxnBuf → List ℕ
key_field type b = type_code type ∷ (le16 b.key_len ++ take b.key_len b.key)

pub set_u16-Appends :
    (w : Writer) (v : ℕ) → w.idx + 2 ≤ length w.buf → Appends w (lightfs_io_set_u16 w v) (le16 v)
set_u16-Appends w v room =
    copy-Appends w (lightfs_io_set_u16 w v) (le16 v) 2 refl refl room (omega arith)

pub del-Appends :
    (w : Writer) (type : ReqType) (b : TxnBuf)
    → b.key_len ≤ length b.key
    → w.idx + (3 + b.key_len) ≤ length w.buf
    → Appends w (lightfs_io_set_buf_del w type b) (key_field type b)
unfolding lightfs_io_set_buf_del
del-Appends w type b have room =
    let w1 = lightfs_io_set_type w type in
    let w2 = lightfs_io_set_u16 w1 b.key_len in
    let w3 = lightfs_io_set_value w2 b.key_len b.key in
    let a1 = copy-Appends w w1 (type_code type ∷ []) 1 refl refl (omega arith) (omega arith) in
    let a2 = set_u16-Appends w1 b.key_len (omega (arith, a1.same_length)) in
    let a3 =
      copy-Appends w2 w3 b.key b.key_len refl refl (omega (arith, a1.same_length, a2.same_length))
        have in
    Appends-then w w2 w3 (type_code type ∷ le16 b.key_len) (take b.key_len b.key)
      (Appends-then w w1 w2 (type_code type ∷ []) (le16 b.key_len) a1 a2) a3

pub del_multi-Appends :
    (w : Writer) (type : ReqType) (b : TxnBuf)
    → b.key_len ≤ length b.key
    → w.idx + (5 + b.key_len) ≤ length w.buf
    → Appends w (lightfs_io_set_buf_del_multi w type b) (key_field type b ++ le16 b.off)
unfolding lightfs_io_set_buf_del_multi
del_multi-Appends w type b have room =
    let w1 = lightfs_io_set_buf_del w type b in
    let a1 = del-Appends w type b have (omega arith) in
    Appends-then w w1 (lightfs_io_set_u16 w1 b.off) (key_field type b) (le16 b.off) a1 (
      set_u16-Appends w1 b.off
        (omega (arith, a1.moves, a1.same_length, length-take b.key_len b.key)))

-- The fields in front of a value.
abbrev pub value_field : ReqType → TxnBuf → ℕ → List ℕ
value_field type b len = (key_field type b ++ le16 b.off) ++ le16 len

pub value-Appends :
    (w : Writer) (type : ReqType) (b : TxnBuf) (len : ℕ)
    → b.key_len ≤ length b.key
    → w.idx + (7 + b.key_len) ≤ length w.buf
    → Appends w
        (lightfs_io_set_u16 (lightfs_io_set_buf_del_multi w type b) len)
        (value_field type b len)
value-Appends w type b len have room =
    let w1 = lightfs_io_set_buf_del_multi w type b in
    let a1 = del_multi-Appends w type b have (omega arith) in
    Appends-then w w1 (lightfs_io_set_u16 w1 len) (key_field type b ++ le16 b.off) (le16 len) a1 (
      set_u16-Appends w1 len (
        omega (
          arith,
          a1.moves,
          a1.same_length,
          length-take b.key_len b.key,
          length-append (key_field type b) (le16 b.off),
        )))
