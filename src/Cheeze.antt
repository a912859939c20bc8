-- ===== src/Cheeze.antt =====
-- The request slots of the device: kevinfs/cheeze/queue.c, `cheeze_prepare_io` and `cheeze_free_io` of
-- kevinfs/cheeze/blk.c, and the addresses of the slots' buffers in kevinfs/cheeze/cheeze.h. A slot is
-- its id. What the device does with a request is outside.
pub mod Slots
use kevin.Base.{
  ℕ, zero, suc, ◌+◌, ◌-◌, ◌*◌, ◌/◌, ◌%◌, ◌^◌, List, [], ◌∷◌, ◌++◌, Option, none, Bool, true, false,
  Outcome, done, blocked, bug, ◌>>=◌, ◌==◌, if◌then◌else◌, get_or, set, replicate,
}
use kevin.Queue.{down, list_first_entry, ids}

abbrev pub cheeze_queue_size : ℕ
cheeze_queue_size = 1024

abbrev pub cheeze_buf_size : ℕ
cheeze_buf_size = 2097152

abbrev pub items_per_hp : ℕ
items_per_hp = 512

-- `struct cheeze_req_user`, less `ubuf`, which nothing here reads. `ret_buf` is whether it is set.
pub record ReqUser : Type 0 where
  pub id : ℕ
  pub buf_len : ℕ
  pub buf : ℕ
  pub ubuf_len : ℕ
  pub ret_buf : Bool

-- `struct cheeze_req`, with its user's request in place of the pointer to it. `acked` is the count of
-- the completion; `extra` is the id of a readahead entry.
pub record CheezeReq : Type 0 where
  pub acked : ℕ
  pub user : ReqUser
  pub sync : Bool
  pub transfer : Bool
  pub extra : Option ℕ

-- The file's variables. `items` only grows: nothing takes it down while the device is polled.
pub record Cheeze : Type 0 where
  pub free_tag_list : List ℕ
  pub processing_tag_list : List ℕ
  pub reqs : List CheezeReq
  pub slots : ℕ
  pub items : ℕ
  pub qd : ℕ
  pub seq : ℕ

abbrev pub empty_user : ReqUser
empty_user = record { id = 0; buf_len = 0; buf = 0; ubuf_len = 0; ret_buf = false }

abbrev pub empty_req : CheezeReq
empty_req = record { acked = 0; user = empty_user; sync = false; transfer = false; extra = none }

-- `get_buf_addr`, for the addresses of the two huge pages.
unfoldable pub get_buf_addr : ℕ × ℕ → ℕ → ℕ
get_buf_addr (page0, page1) id =
    (if id / items_per_hp == 0 then page0 else page1) + id % items_per_hp * cheeze_buf_size

-- `cheeze_queue_init`, for `n` slots, with the zeroed array of `cheeze_init`.
unfoldable pub cheeze_queue_init : ℕ → Cheeze
cheeze_queue_init n = record {
  free_tag_list = ids 0 n;
  processing_tag_list = [];
  reqs = replicate n empty_req;
  slots = n;
  items = 0;
  qd = 0;
  seq = 0;
}

-- `cheeze_push`: the state, the id and the sequence number.
unfoldable pub cheeze_push : Cheeze → ReqUser → Outcome (Cheeze × ℕ × ℕ)
cheeze_push c user = do
  n ← down c.slots
  (id, rest) ← list_first_entry c.free_tag_list
  done (
    record c {
      slots = n;
      free_tag_list = rest;
      processing_tag_list = c.processing_tag_list ++ (id ∷ []);
      reqs =
          set c.reqs id
            (record (get_or c.reqs id empty_req) { acked = 0; user = record user { id = id } });
      items = suc c.items;
      qd = suc c.qd;
      seq = (c.seq + 1) % 2 ^ 64;
    },
    id,
    c.seq,
  )

-- `cheeze_prepare_io`.
unfoldable pub cheeze_prepare_io :
    ℕ × ℕ → Cheeze → ReqUser → Bool → Option ℕ → Bool → Outcome (Cheeze × ℕ × ℕ)
cheeze_prepare_io data_addr c user sync extra transfer = do
  (c, id, seq) ← cheeze_push c user
  let req = get_or c.reqs id empty_req
  done (
    record c {
      reqs = set c.reqs id (record req {
        user = record req.user { buf = get_buf_addr data_addr id };
        sync = sync;
        transfer = transfer;
        extra = extra;
      });
    },
    id,
    seq,
  )

-- `list_del`.
unfoldable pub list_del : ℕ → List ℕ → List ℕ
list_del id [] = []
list_del id (i ∷ is) = let rest = list_del id is in if id == i then is else i ∷ rest

-- `cheeze_move_pop`, which `cheeze_free_io` calls: the item leaves the list that it is on.
unfoldable pub cheeze_move_pop : Cheeze → ℕ → Cheeze
cheeze_move_pop c id = record c {
  processing_tag_list = list_del id c.processing_tag_list;
  free_tag_list = list_del id c.free_tag_list ++ (id ∷ []);
  qd = c.qd - 1;
  slots = suc c.slots;
}
