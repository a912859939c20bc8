-- ===== src/Shm.antt =====
-- The shared memory of kevinfs/cheeze/shm.c and `cheeze_io` of kevinfs/cheeze/blk.c: how a request goes
-- to the device and how its answer ends the request. The device is a parameter.
pub mod Receive
pub mod Exchange
use kevin.Base.{
  ℕ, zero, suc, ◌+◌, List, Option, none, some, Bool, true, false, not, ◌||◌, Outcome, done, blocked,
  ◌==◌, if◌then◌else◌, get_or, set, List, ◌∷◌, [],
}
use kevin.Cheeze.{
  ReqUser, CheezeReq, Cheeze, empty_user, empty_req, cheeze_prepare_io, cheeze_move_pop,
}

-- The pages that are shared, by slot; the 2 MB buffer of a slot is a list of bytes. `ra_done` has the
-- readahead entries that were marked READA_DONE.
pub record Shm : Type 0 where
  pub queue : Cheeze
  pub data_addr : ℕ × ℕ
  pub send_event : List ℕ
  pub recv_event : List ℕ
  pub seq_addr : List ℕ
  pub ureq_addr : List ReqUser
  pub bufs : List (List ℕ)
  pub ra_done : List ℕ

-- What the device makes of a request and its buffer: `ubuf_len`, and the buffer.
abbrev pub Device : Type 0
Device = ReqUser → List ℕ → ℕ × List ℕ

abbrev pub req_of : Shm → ℕ → CheezeReq
req_of s id = get_or s.queue.reqs id empty_req

abbrev pub set_req : Shm → ℕ → CheezeReq → Shm
set_req s id r = record s { queue = record s.queue { reqs = set s.queue.reqs id r } }

-- `send_req`. Its copy of the user's bytes is from the slot's buffer to the same place.
unfoldable pub send_req : Shm → ℕ → ℕ → Shm
send_req s id seq = record s {
  ureq_addr = set s.ureq_addr id (req_of s id).user;
  seq_addr = set s.seq_addr id seq;
  send_event = set s.send_event id 1;
}

-- The device takes the request of a slot and answers it.
unfoldable pub device_step : Device → Shm → ℕ → Shm
device_step device s id =
    let ureq = get_or s.ureq_addr id empty_user in
    let (ubuf_len, buf) = device ureq (get_or s.bufs id []) in
    record s {
      ureq_addr = set s.ureq_addr id (record ureq { ubuf_len = ubuf_len });
      bufs = set s.bufs id buf;
      send_event = set s.send_event id 0;
      recv_event = set s.recv_event id 1;
    }

-- `complete(&req->acked)`.
abbrev pub complete : Shm → ℕ → Shm
complete s id = let r = req_of s id in set_req s id (record r { acked = suc r.acked })

-- `cheeze_free_io`.
abbrev pub cheeze_free_io : Shm → ℕ → Shm
cheeze_free_io s id = record s { queue = cheeze_move_pop s.queue id }

-- The user's request becomes the device's, but a length of 152 stays.
abbrev pub copy_user : Shm → ℕ → ReqUser → Shm
copy_user s id ureq =
    let r = req_of s id in
    set_req s id
      (record r { user = if r.user.ubuf_len == 152 then record ureq { ubuf_len = 152 } else ureq })

-- A readahead entry is marked READA_DONE.
abbrev pub mark_done : Shm → Option ℕ → Shm
mark_done s none = s
mark_done s (some entry) = record s { ra_done = entry ∷ s.ra_done }

-- An answer to a request that wants bytes back.
abbrev pub recv_get : Shm → ℕ → ReqUser → Option ℕ → Shm
recv_get s id ureq (some entry) = mark_done s (some entry)
recv_get s id ureq none = complete (copy_user s id ureq) id

unfoldable pub recv_answer : Shm → ℕ → CheezeReq → ReqUser → Shm
recv_answer s id req ureq =
    if not ureq.ret_buf || not req.sync || req.transfer
    then (if req.sync then cheeze_free_io (complete s id) id else cheeze_free_io s id)
    else if ureq.ubuf_len == 0
    then (let r = req_of s id in complete (set_req s id (record r { user = ureq })) id)
    else recv_get s id ureq req.extra

-- The body of the loop of `recv_req` for one slot.
unfoldable pub recv_slot : Shm → ℕ → Shm
recv_slot s id =
    if get_or s.recv_event id 0 == 0
    then s
    else let req = req_of s id in
      let ureq = get_or s.ureq_addr id empty_user in
      let marked = (if ureq.ubuf_len == 0 then s else mark_done s req.extra) in
      let answered = recv_answer marked id req ureq in
      record answered { recv_event = set answered.recv_event id 0 }

-- `recv_req`, from slot `i` on for the rounds that are left.
unfoldable pub recv_loop : ℕ → ℕ → Shm → Shm
recv_loop zero i s = s
recv_loop (suc rounds) i s = recv_loop rounds (suc i) (recv_slot s i)

unfoldable pub recv_req : Shm → Shm
recv_req s = recv_loop 1024 0 s

-- `wait_for_completion(&req->acked)`.
unfoldable pub wait_for_completion : Shm → ℕ → ℕ → Outcome Shm
wait_for_completion s id zero = blocked
wait_for_completion s id (suc n) =
    let r = req_of s id in done (set_req s id (record r { acked = n }))

-- `cheeze_io` without a callback, with a device that answers at once and one pass of the receiver.
unfoldable pub cheeze_io : Device → Shm → ℕ → ℕ → Outcome Shm
cheeze_io device s id seq =
    let s = recv_req (device_step device (send_req s id seq) id) in
    if (req_of s id).sync then wait_for_completion s id (req_of s id).acked else done s
