-- ===== src/Io/Issue.antt =====
-- The steps that the commands share: a slot, an exchange with the device, and what they leave.
use kevin.Base.{
  ℕ, suc, ◌<◌, List, [], ◌∷◌, ◌++◌, none, Bool, true, false, Outcome, done, blocked, ◌≡◌, ◌⊎◌, inl,
  inr, refl, ap, ◌∙◌, subst, arith, get_or, length, length-set, get_or-set_self,
}
use kevin.Queue.Order.{occurs}
use kevin.Wire.{Writer}
use kevin.Cheeze.{
  ReqUser, CheezeReq, Cheeze, empty_req, get_buf_addr, list_del, cheeze_prepare_io, cheeze_move_pop,
}
use kevin.Cheeze.Slots.{IsValid, prepared, Prepares, cheeze_prepare_io-Prepares}
use kevin.Shm.{Shm, Device, req_of, cheeze_io}
use kevin.Shm.Receive.{Ready}
use kevin.Shm.Exchange.{waiting, received, Answers, cheeze_io_get, cheeze_io_put}
use kevin.Io.{lightfs_io_set_cheeze_req, filled, issue}

-- The pages are ready for the next command, and every slot is free or in use.
pub record IsIdle (n : ℕ) (s : Shm) : Type 0 where
  pub ready : Ready n s
  pub valid : IsValid n s.queue

-- The same slots are in use, and as many can be taken.
pub record Kept (n : ℕ) (s t : Shm) : Type 0 where
  pub idle : IsIdle n t
  pub slots_kept : t.queue.slots ≡ s.queue.slots
  pub used_kept : t.queue.processing_tag_list ≡ s.queue.processing_tag_list

pub with_reqs-IsValid :
    (n : ℕ) (q : Cheeze) (reqs : List CheezeReq)
    → length reqs ≡ n
    → IsValid n q
    → IsValid n (record q { reqs = reqs })
with_reqs-IsValid n q reqs e v = record {
  once = v.once;
  never = v.never;
  slots_are = v.slots_are;
  places = v.places;
  room = e;
}

pub list_del-append : (id : ℕ) (xs : List ℕ) → occurs id xs ≡ 0 → list_del id (xs ++ (id ∷ [])) ≡ xs
unfolding list_del occurs
list_del-append id [] e = ground arith
list_del-append id (x ∷ xs) e = ground (arith, e, list_del-append id xs)

pub list_del_absent : (id : ℕ) (xs : List ℕ) → occurs id xs ≡ 0 → list_del id xs ≡ xs
unfolding list_del occurs
list_del_absent id [] e = refl
list_del_absent id (x ∷ xs) e = ground (arith, e, list_del_absent id xs)

-- The request that the device sees.
abbrev pub sent_user : Shm → ReqUser → ℕ → (List ℕ → Writer) → Bool → ℕ → ReqUser
sent_user s user id write ret_buf ubuf_len =
    lightfs_io_set_cheeze_req (record user { id = id; buf = get_buf_addr s.data_addr id })
      (write (get_or s.bufs id [])).idx ret_buf ubuf_len

module _ (device : Device) (n : ℕ) (s : Shm) (user : ReqUser) (write : List ℕ → Writer)
    (idle : IsIdle n s) where
  -- The bytes that the device sees in slot `id`, and its answer.
  abbrev pub answer_at : ℕ → Bool → ℕ → ℕ × List ℕ
  answer_at id ret_buf len =
      device (sent_user s user id write ret_buf len) (write (get_or s.bufs id [])).buf

  -- A command got slot `id` and its answer, and the queue is `queue` but for its requests.
  pub record Issues (ret_buf : Bool) (len : ℕ) (back : Cheeze → ℕ → Cheeze) (got : ℕ → ReqUser)
      (out : Outcome (Shm × ℕ)) : Type 0 where
    pub id : ℕ
    pub after : Shm
    pub queue : Cheeze
    pub returns : out ≡ done (after, id)
    pub in_range : id < n
    pub unused : occurs id s.queue.processing_tag_list ≡ 0
    pub valid : IsValid n queue
    pub used : queue.processing_tag_list ≡ s.queue.processing_tag_list ++ (id ∷ [])
    pub taken : s.queue.slots ≡ suc queue.slots
    pub queue_is : after.queue ≡ record (back queue id) { reqs = after.queue.reqs }
    pub user_is : (req_of after id).user ≡ got id
    pub bytes_are : get_or after.bufs id [] ≡ (answer_at id ret_buf len).1
    pub ready : Ready n after

  module _ (ret_buf : Bool) (len : ℕ)
      (p : Prepares n s.queue
        (prepared s.data_addr user true none false)
        (cheeze_prepare_io s.data_addr s.queue user true none false)) where
    abbrev asker : ReqUser
    asker = sent_user s user p.id write ret_buf len

    -- The state before the exchange.
    abbrev before : Shm
    before = filled (record s { queue = p.after }) p.id write ret_buf len

    in_bufs : p.id < length s.bufs
    in_bufs = omega (arith, p.in_range, idle.ready.buf_room)

    before_bytes : get_or before.bufs p.id [] ≡ (write (get_or s.bufs p.id [])).buf
    before_bytes = get_or-set_self s.bufs p.id (write (get_or s.bufs p.id [])).buf [] in_bufs

    before_reqs : length before.queue.reqs ≡ n
    before_reqs = length-set p.after.reqs p.id _ ∙ p.valid.room

    before_Ready : Ready n before
    before_Ready = record {
      few = idle.ready.few;
      quiet = idle.ready.quiet;
      recv_room = idle.ready.recv_room;
      ureq_room = idle.ready.ureq_room;
      buf_room =
          omega (
            arith,
            idle.ready.buf_room,
            length-set s.bufs p.id (write (get_or s.bufs p.id [])).buf,
          );
      req_room = before_reqs;
    }

    abbrev with_user : CheezeReq → CheezeReq
    with_user r = record r {
      user = lightfs_io_set_cheeze_req r.user (write (get_or s.bufs p.id [])).idx ret_buf len;
    }

    before_asked : req_of before p.id ≡ waiting asker 0
    before_asked =
        get_or-set_self p.after.reqs p.id (with_user (get_or p.after.reqs p.id empty_req)) empty_req
          (omega (arith, p.in_range, p.valid.room))
        ∙ ap with_user p.asked

    abbrev Exchanged : (Cheeze → ℕ → Cheeze) → ReqUser → Type 0
    Exchanged back got =
        Answers device n before p.id s.queue.seq asker before_Ready p.in_range before_asked
          (back before.queue p.id) got (cheeze_io device before p.id s.queue.seq)

    issued :
        (back : Cheeze → ℕ → Cheeze) (got : ℕ → ReqUser)
        → Exchanged back (got p.id)
        → Issues ret_buf len back got (issue device s user true none write ret_buf len)
    unfolding issue
    issued back got a = record {
      id = p.id;
      after = a.after;
      queue = before.queue;
      returns = ground (arith, p.returns, a.returns);
      in_range = p.in_range;
      unused = p.unused;
      valid = with_reqs-IsValid n p.after before.queue.reqs before_reqs p.valid;
      used = p.used;
      taken = omega (arith, idle.valid.slots_are, ap length p.first, p.valid.slots_are);
      queue_is = a.queue_is;
      user_is = a.user_is;
      bytes_are =
          ap (λ l. get_or l p.id []) a.bufs_is
          ∙ get_or-set_self before.bufs p.id (device asker (get_or before.bufs p.id [])).1 []
              (omega (arith, p.in_range, before_Ready.buf_room))
          ∙ ap (λ l. (device asker l).1) before_bytes;
      ready = a.ready_is;
    }

  -- Every slot is in use and the command waits, or it is issued.
  abbrev pub Waits : Outcome (Shm × ℕ) → Type 0
  Waits out = (length s.queue.processing_tag_list ≡ n) × (out ≡ blocked)

  abbrev pub keep_slot : Cheeze → ℕ → Cheeze
  keep_slot q id = q

  abbrev pub got_bytes : ℕ → ℕ → ReqUser
  got_bytes len id = received (sent_user s user id write true len) (answer_at id true len).0

  abbrev pub got_end : ℕ → ReqUser
  got_end id = sent_user s user id write false 0

  issue_waits :
      (ret_buf : Bool) (len : ℕ)
      → cheeze_prepare_io s.data_addr s.queue user true none false ≡ blocked
      → issue device s user true none write ret_buf len ≡ blocked
  unfolding issue
  issue_waits ret_buf len e = ground (arith, e)

  pub issue_get :
      (len : ℕ)
      → Waits (issue device s user true none write true len)
        ⊎ Issues true len keep_slot (got_bytes len) (issue device s user true none write true len)
  issue_get len =
      elim (cheeze_prepare_io-Prepares n s.data_addr s.queue user true none false idle.valid) [
        | inl (full, e) ↦ inl (full, issue_waits true len e)
        | inr p ↦ inr (
            issued true len p keep_slot (got_bytes len) (
              subst (Exchanged true len p keep_slot)
                (ap (λ l. received (asker true len p) (device (asker true len p) l).0)
                  (before_bytes true len p))
                (cheeze_io_get device n (before true len p) p.id s.queue.seq (asker true len p)
                  (before_Ready true len p) p.in_range (before_asked true len p) refl)))
      ]

  pub issue_put :
      Waits (issue device s user true none write false 0)
      ⊎ Issues false 0 cheeze_move_pop got_end (issue device s user true none write false 0)
  issue_put =
      elim (cheeze_prepare_io-Prepares n s.data_addr s.queue user true none false idle.valid) [
        | inl (full, e) ↦ inl (full, issue_waits false 0 e)
        | inr p ↦ inr (
            issued false 0 p cheeze_move_pop got_end (
              cheeze_io_put device n (before false 0 p) p.id s.queue.seq (asker false 0 p)
                (before_Ready false 0 p) p.in_range (before_asked false 0 p) refl))
      ]
