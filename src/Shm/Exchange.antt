-- ===== src/Shm/Exchange.antt =====
-- One exchange with the device: what `cheeze_io` leaves of a request that waits for its answer.
use kevin.Base.{
  ℕ, ◌<◌, List, [], none, true, false, Outcome, done, ◌==◌, if◌then◌else◌, ◌≡◌, refl, ap, sym, ◌∙◌,
  subst, arith, get_or, set, length, length-set, get_or-set_self, get_or-set_ne,
}
use kevin.Cheeze.{ReqUser, CheezeReq, Cheeze, empty_user, empty_req, cheeze_move_pop}
use kevin.Shm.{
  Shm, Device, cheeze_free_io, req_of, set_req, send_req, device_step, recv_answer, recv_slot,
  recv_req, wait_for_completion, cheeze_io,
}
use kevin.Shm.Receive.{Quiet, Ready, recv_loop_one, set-Quiet}

-- What the user's request becomes with an answer of `len` bytes.
abbrev pub received : ReqUser → ℕ → ReqUser
received user len =
    if len == 0
    then record user { ubuf_len = 0 }
    else if user.ubuf_len == 152
    then record user { ubuf_len = 152 }
    else record user { ubuf_len = len }

-- A request that waits for bytes, or just for its end (`ret_buf` unset).
abbrev pub waiting : ReqUser → ℕ → CheezeReq
waiting user acked = record {
  acked = acked;
  user = user;
  sync = true;
  transfer = false;
  extra = none;
}

module _ (device : Device) (n : ℕ) (s : Shm) (id seq : ℕ) (user : ReqUser) (ready : Ready n s)
    (here : id < n) (asked : req_of s id ≡ waiting user 0) where
  abbrev answer : ℕ × List ℕ
  answer = device user (get_or s.bufs id [])

  abbrev answered : ReqUser → ReqUser
  answered u = record u { ubuf_len = (device u (get_or s.bufs id [])).0 }

  abbrev asking : Shm
  asking = device_step device (send_req s id seq) id

  -- What the slot's pages hold when the receiver comes.
  asking_lem :
      (get_or asking.ureq_addr id empty_user ≡ record user { ubuf_len = answer.0 })
      × (get_or asking.recv_event id 0 ≡ 1)
      × (asking.bufs ≡ set s.bufs id answer.1)
      × (asking.recv_event ≡ set s.recv_event id 1)
  unfolding device_step send_req
  asking_lem =
      let sent : get_or (set s.ureq_addr id (req_of s id).user) id empty_user ≡ user =
        get_or-set_self s.ureq_addr id (req_of s id).user empty_user
          (omega (arith, here, ready.ureq_room))
        ∙ ap (λ r. r.user) asked in
      (
        get_or-set_self (set s.ureq_addr id (req_of s id).user) id _ empty_user
              (omega (arith, here, ready.ureq_room, length-set s.ureq_addr id (req_of s id).user))
            ∙ ap answered sent,
        get_or-set_self s.recv_event id 1 0 (omega (arith, here, ready.recv_room)),
        ap (λ u. set s.bufs id (device u (get_or s.bufs id [])).1) sent,
        refl,
      )

  -- The states after the receiver: of a request that wants bytes, and of one that does not.
  abbrev ended : Shm → Shm
  ended t = record t { recv_event = set t.recv_event id 0 }

  abbrev after_get : Shm
  after_get =
      let t = set_req asking id (waiting (received user answer.0) 0) in
      ended (set_req t id (waiting (received user answer.0) 1))

  recv_get_lem : user.ret_buf ≡ true → recv_slot asking id ≡ after_get
  unfolding recv_slot recv_answer device_step send_req
  recv_get_lem back =
      let (u, r, b, e) = asking_lem in
      ground (
        arith,
        u,
        r,
        back,
        asked,
        ready.req_room,
        here,
        get_or-set_self s.queue.reqs id (waiting (received user answer.0) 0) empty_req,
      )

  abbrev after_put : Shm
  after_put = ended (cheeze_free_io (set_req asking id (waiting user 1)) id)

  recv_put_lem : user.ret_buf ≡ false → recv_slot asking id ≡ after_put
  unfolding recv_slot recv_answer device_step send_req
  recv_put_lem none_back = let (u, r, b, e) = asking_lem in ground (arith, u, r, none_back, asked)

  -- The receiver's loop finds the one answer.
  recv_req_lem :
      (t : Shm)
      → recv_slot asking id ≡ t
      → t.recv_event ≡ set asking.recv_event id 0
      → recv_req asking ≡ t
  unfolding recv_req
  recv_req_lem t e same =
      let (u, r, b, at) = asking_lem in
      let quiet : Quiet (recv_slot asking id).recv_event =
        subst Quiet (sym (ap (λ x. x.recv_event) e ∙ same ∙ ap (λ l. set l id 0) at))
          (set-Quiet s.recv_event id ready.quiet (omega (arith, here, ready.recv_room))) in
      recv_loop_one 1024 0 id asking
        (λ j off.
          ap (λ l. get_or l j 0) at
          ∙ get_or-set_ne s.recv_event id j 1 0 (λ h. off (sym h))
          ∙ ready.quiet j)
        quiet (omega arith) (omega (arith, here, ready.few))
      ∙ e

  -- What `cheeze_io` leaves: the request is answered, and its slot is the caller's still, or is given
  -- back when no bytes are wanted.
  pub record Answers (queue : Cheeze) (got : ReqUser) (out : Outcome Shm) : Type 0 where
    pub after : Shm
    pub returns : out ≡ done after
    pub queue_is : after.queue ≡ record queue { reqs = after.queue.reqs }
    pub user_is : (req_of after id).user ≡ got
    pub bufs_is : after.bufs ≡ set s.bufs id answer.1
    pub addr_is : after.data_addr ≡ s.data_addr
    pub ready_is : Ready n after

  after-Ready :
      (t : Shm)
      → length t.queue.reqs ≡ n
      → t.recv_event ≡ set asking.recv_event id 0
      → t.ureq_addr ≡ asking.ureq_addr
      → t.bufs ≡ asking.bufs
      → Ready n t
  unfolding send_req device_step
  after-Ready t reqs recv ureq bufs =
      let (u, r, b, at) = asking_lem in
      let recv_is = recv ∙ ap (λ l. set l id 0) at in
      record {
        few = ready.few;
        quiet =
            subst Quiet (sym recv_is)
              (set-Quiet s.recv_event id ready.quiet (omega (arith, here, ready.recv_room)));
        recv_room = omega (
          arith,
          ap length recv_is,
          length-set (set s.recv_event id 1) id 0,
          length-set s.recv_event id 1,
          ready.recv_room,
        );
        ureq_room = omega (
          arith,
          ap length ureq,
          length-set (set s.ureq_addr id (req_of s id).user) id
              (answered (get_or (set s.ureq_addr id (req_of s id).user) id empty_user)),
          length-set s.ureq_addr id (req_of s id).user,
          ready.ureq_room,
        );
        buf_room =
            omega (arith, ap length (bufs ∙ b), length-set s.bufs id answer.1, ready.buf_room);
        req_room = reqs;
      }

  -- A list of requests after a write at `id`.
  written :
      (rs : List CheezeReq) (x : CheezeReq) → length rs ≡ n → get_or (set rs id x) id empty_req ≡ x
  written rs x e = get_or-set_self rs id x empty_req (omega (arith, e, here))

  rewritten : (rs : List CheezeReq) (x : CheezeReq) → length rs ≡ n → length (set rs id x) ≡ n
  rewritten rs x e = length-set rs id x ∙ e

  pub cheeze_io_get :
      user.ret_buf ≡ true → Answers s.queue (received user answer.0) (cheeze_io device s id seq)
  unfolding cheeze_io wait_for_completion send_req device_step
  cheeze_io_get back =
      let (u, r, b, at) = asking_lem in
      let received_all = recv_req_lem after_get (recv_get_lem back) refl in
      let got = received user answer.0 in
      let reqs1 = rewritten s.queue.reqs (waiting got 0) ready.req_room in
      let reqs2 = rewritten (set s.queue.reqs id (waiting got 0)) (waiting got 1) reqs1 in
      let mine : req_of after_get id ≡ waiting got 1 =
        written (set s.queue.reqs id (waiting got 0)) (waiting got 1) reqs1 in
      let after = set_req after_get id (waiting got 0) in
      record {
        after = after;
        returns = ground (arith, received_all, mine);
        queue_is = refl;
        user_is = ap (λ q. q.user) (written after_get.queue.reqs (waiting got 0) reqs2);
        bufs_is = b;
        addr_is = refl;
        ready_is =
            after-Ready after (rewritten after_get.queue.reqs (waiting got 0) reqs2) refl refl refl;
      }

  pub cheeze_io_put :
      user.ret_buf ≡ false → Answers (cheeze_move_pop s.queue id) user (cheeze_io device s id seq)
  unfolding cheeze_io wait_for_completion send_req device_step cheeze_move_pop
  cheeze_io_put none_back =
      let (u, r, b, at) = asking_lem in
      let received_all = recv_req_lem after_put (recv_put_lem none_back) refl in
      let reqs1 = rewritten s.queue.reqs (waiting user 1) ready.req_room in
      let mine : req_of after_put id ≡ waiting user 1 =
        written s.queue.reqs (waiting user 1) ready.req_room in
      let after = set_req after_put id (waiting user 0) in
      record {
        after = after;
        returns = ground (arith, received_all, mine);
        queue_is = refl;
        user_is = ap (λ q. q.user) (written after_put.queue.reqs (waiting user 0) reqs1);
        bufs_is = b;
        addr_is = refl;
        ready_is =
            after-Ready after (rewritten after_put.queue.reqs (waiting user 0) reqs1) refl refl
              refl;
      }
