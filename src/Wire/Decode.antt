-- ===== src/Wire/Decode.antt =====
-- What a device reads from a transfer, by the layout that the comment in kevinfs/lightfs_io.h gives: a
-- description on its own of the bytes that Wire writes.
use kevin.Base.{
  ℕ, zero, suc, ◌+◌, ◌*◌, ◌%◌, ◌^◌, ◌≤◌, ◌<◌, List, [], ◌∷◌, ◌++◌, Option, none, some, ◌≡◌, ◌==◌,
  if◌then◌else◌, ap, arith, length, take, drop, length-take, take-append_left, drop-append,
}
use kevin.Txn.{
  ReqType, meta_set, data_set, data_seq_set, meta_del, data_del, meta_update, data_update,
  data_del_multi, commit,
}
use kevin.Wire.{le16}

-- A request as the device gets it; what its type does not have is 0 and empty.
pub record WireRequest : Type 0 where
  pub type : ReqType
  pub key : List ℕ
  pub off : ℕ
  pub len : ℕ
  pub value : List ℕ

-- The types that a transfer may hold.
abbrev pub type_of : ℕ → Option ReqType
type_of code =
    if code == 1
    then some meta_set
    else if code == 3
    then some meta_del
    else if code == 5
    then some meta_update
    else if code == 8
    then some data_set
    else if code == 9
    then some data_seq_set
    else if code == 10
    then some data_del
    else if code == 11
    then some data_del_multi
    else if code == 13
    then some data_update
    else if code == 15
    then some commit
    else none

unfoldable pub read_u16 : List ℕ → ℕ × List ℕ
read_u16 (lo ∷ hi ∷ bs) = (lo + 256 * hi, bs)
read_u16 _ = (0, [])

unfoldable pub read_key : List ℕ → List ℕ × List ℕ
read_key bs = let (n, rest) = read_u16 bs in (take n rest, drop n rest)

abbrev pub Parsed : Type 0
Parsed = Option (WireRequest × List ℕ)

unfoldable pub read_del : ReqType → List ℕ → Parsed
read_del type bs =
    let (key, rest) = read_key bs in
    some (record { type = type; key = key; off = 0; len = 0; value = [] }, rest)

unfoldable pub read_del_multi : ReqType → List ℕ → Parsed
read_del_multi type bs =
    let (key, bs) = read_key bs in
    let (off, rest) = read_u16 bs in
    some (record { type = type; key = key; off = off; len = 0; value = [] }, rest)

-- The bytes of a value, and the bytes that it takes in the buffer, by its type and length.
abbrev pub value_bytes : ReqType → ℕ → ℕ
value_bytes meta_update len = 4096
value_bytes data_update len = 4096
value_bytes _ len = len

abbrev pub value_room : ReqType → ℕ → ℕ
value_room meta_set len = 4096
value_room type len = value_bytes type len

unfoldable pub read_valued : ReqType → List ℕ → Parsed
read_valued type bs =
    let (key, bs) = read_key bs in
    let (off, bs) = read_u16 bs in
    let (len, bs) = read_u16 bs in
    some (
      record {
        type = type;
        key = key;
        off = off;
        len = len;
        value = take (value_bytes type len) bs;
      },
      drop (value_room type len) bs,
    )

unfoldable pub read_as : Option ReqType → List ℕ → Parsed
read_as none bs = none
read_as (some commit) bs =
    some (record { type = commit; key = []; off = 0; len = 0; value = [] }, bs)
read_as (some meta_del) bs = read_del meta_del bs
read_as (some data_del) bs = read_del data_del bs
read_as (some data_del_multi) bs = read_del_multi data_del_multi bs
read_as (some type) bs = read_valued type bs

unfoldable pub read_request : List ℕ → Parsed
read_request [] = none
read_request (code ∷ bs) = read_as (type_of code) bs

-- The first requests of a body; one that cannot be read ends the list.
unfoldable pub read_requests : ℕ → List ℕ → List WireRequest
read_requests zero bs = []
read_requests (suc n) bs = elim (read_request bs) [
  | none ↦ []
  | some (r, rest) ↦ r ∷ read_requests n rest
]

-- The number of the transaction, and its requests.
unfoldable pub read_transfer : List ℕ → ℕ × List WireRequest
read_transfer bs =
    let (lo, bs) = read_u16 bs in
    let (hi, bs) = read_u16 bs in
    let (cnt, body) = read_u16 bs in (lo + 65536 * hi, read_requests cnt body)

pub read_u16-le16 : (v : ℕ) (rest : List ℕ) → read_u16 (le16 v ++ rest) ≡ (v % 2 ^ 16, rest)
unfolding read_u16
read_u16-le16 v rest = ap (λ n. (n, rest)) (omega arith)

pub read_key-le16 :
    (n : ℕ) (key rest : List ℕ)
    → n < 2 ^ 16
    → n ≤ length key
    → read_key (le16 n ++ (take n key ++ rest)) ≡ (take n key, rest)
unfolding read_key
read_key-le16 n key rest small room =
    let exact : length (take n key) ≡ n = omega (arith, length-take n key) in
    let count : n % 2 ^ 16 ≡ n = omega arith in
    ground (
      arith,
      read_u16-le16 n (take n key ++ rest),
      count,
      take-append_left (take n key) rest n exact,
      drop-append (take n key) rest n exact,
    )
