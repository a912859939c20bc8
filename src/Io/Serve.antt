-- ===== src/Io/Serve.antt =====
-- What the commands do with their slots and answers.
use kevin.Base.{
  ℕ, List, [], ◌∷◌, none, true, Outcome, done, blocked, ◌==◌, if◌then◌else◌, ℤ, pos, ◌≡◌, ◌⊎◌, inl,
  inr, ap, sym, ◌∙◌, subst, arith, get_or, length,
}
use kevin.Key.{memcpy}
use kevin.Txn.{TxnBuf}
use kevin.RbKv.{db_notfound}
use kevin.Queue.Order.{occurs, occurs-append}
use kevin.Wire.{Writer, lightfs_io_set_buf_get, lightfs_io_set_type, lightfs_io_set_buf_get_multi}
use kevin.Cheeze.{ReqUser, list_del, cheeze_move_pop}
use kevin.Cheeze.Slots.{IsValid, cheeze_move_pop-IsValid}
use kevin.Shm.{Shm, Device, cheeze_free_io}
use kevin.Io.{begun, issue, lightfs_io_get, lightfs_io_commit, lightfs_io_get_multi}
use kevin.Io.Issue.{
  IsIdle, Kept, with_reqs-IsValid, list_del-append, answer_at, Issues, got_bytes, issue_get,
}

-- The caller's result of a get, for the device's answer.
abbrev pub get_result : Shm → TxnBuf → ℕ × List ℕ → Shm × ℤ × List ℕ
get_result s b (len, bytes) =
    let kept = (if b.len == 152 then 152 else len) in
    if len == 0 then (s, db_notfound, b.buf) else (s, pos kept, memcpy b.buf 0 bytes kept)

module _ (device : Device) (n : ℕ) (s : Shm) (user : ReqUser) (idle : IsIdle n s) where
  -- A slot that is given back after the answer.
  freed-Kept :
      (write : List ℕ → Writer) (len : ℕ) (got : ℕ → ReqUser) (out : Outcome (Shm × ℕ))
      (i : Issues device n s user write idle true len (λ q id. q) got out)
      → Kept n s (cheeze_free_io i.after i.id)
  unfolding cheeze_move_pop occurs
  freed-Kept write len got out i =
      let reqs = i.after.queue.reqs in
      let shape : cheeze_move_pop i.after.queue i.id
          ≡ cheeze_move_pop (record i.queue { reqs = reqs }) i.id =
        ap (λ q. cheeze_move_pop q i.id) i.queue_is in
      let valid = with_reqs-IsValid n i.queue reqs i.ready.req_room i.valid in
      let once : occurs i.id i.queue.processing_tag_list ≡ 1 =
        ground
          (arith, i.used, i.unused, occurs-append i.id s.queue.processing_tag_list (i.id ∷ [])) in
      record {
        idle = record {
          ready = record {
            few = i.ready.few;
            quiet = i.ready.quiet;
            recv_room = i.ready.recv_room;
            ureq_room = i.ready.ureq_room;
            buf_room = i.ready.buf_room;
            req_room = i.ready.req_room;
          };
          valid =
              subst (IsValid n) (sym shape)
                (cheeze_move_pop-IsValid n (record i.queue { reqs = reqs }) i.id valid once).0;
        };
        slots_kept = ap (λ q. q.slots) shape ∙ sym i.taken;
        used_kept =
            ap (λ q. q.processing_tag_list) shape
            ∙ ap (list_del i.id) i.used
            ∙ list_del-append i.id s.queue.processing_tag_list i.unused;
      }

  abbrev get_write : TxnBuf → List ℕ → Writer
  get_write b buf = lightfs_io_set_buf_get (begun buf b.txn_id 1) b.type b

  -- A get was answered in slot `id`.
  pub record Gets (b : TxnBuf) (out : Outcome (Shm × ℤ × List ℕ)) : Type 0 where
    pub id : ℕ
    pub after : Shm
    pub unused : occurs id s.queue.processing_tag_list ≡ 0
    pub kept : Kept n s after
    pub returns :
        out ≡ done (get_result after b (answer_at device n s user (get_write b) idle id true b.len))

  -- From an idle memory `lightfs_io_get` waits exactly when every slot is in use. Else it ends with
  -- the same slots in use as before: it asks the device in one that was not, and returns the answer's
  -- length and its bytes copied over the caller's, or DB_NOTFOUND for an answer of length 0. For a
  -- buffer of 152 bytes the length is 152.
  pub lightfs_io_get_lem :
      (b : TxnBuf)
      → ((length s.queue.processing_tag_list ≡ n) × (lightfs_io_get device s user b ≡ blocked))
        ⊎ Gets b (lightfs_io_get device s user b)
  unfolding lightfs_io_get
  lightfs_io_get_lem b = elim (issue_get device n s user (get_write b) idle b.len) [
    | inl (full, e) ↦ inl (full, ground (arith, e))
    | inr i ↦ inr (record {
      id = i.id;
      after = cheeze_free_io i.after i.id;
      unused = i.unused;
      kept =
          freed-Kept (get_write b) b.len (got_bytes device n s user (get_write b) idle b.len)
            (issue device s user true none (get_write b) true b.len) i;
      returns = ground (arith, i.returns, i.user_is, i.bytes_are);
    })
  ]

  abbrev multi_write : TxnBuf → List ℕ → Writer
  multi_write b buf = lightfs_io_set_buf_get_multi (begun buf b.txn_id b.len) b.type b

  -- Pages were answered in slot `id`, which is the caller's until it gives it back.
  pub record GetsMulti (b : TxnBuf) (out : Outcome (Shm × ℤ)) : Type 0 where
    pub id : ℕ
    pub after : Shm
    pub kept : Kept n s (cheeze_free_io after id)
    pub bytes_are :
        get_or after.bufs id [] ≡ (answer_at device n s user (multi_write b) idle id true 0).1
    pub returns :
        out
        ≡ done (
            if (answer_at device n s user (multi_write b) idle id true 0).0 == 0
            then (cheeze_free_io after id, db_notfound)
            else (after, pos id))

  -- From an idle memory `lightfs_io_get_multi` waits exactly when every slot is in use. Else it returns
  -- DB_NOTFOUND for an answer of length 0, and the slot that holds the answer's bytes for any other;
  -- once that slot is given back, which on DB_NOTFOUND it is already, the same slots are in use as before.
  pub lightfs_io_get_multi_lem :
      (b : TxnBuf)
      → ((length s.queue.processing_tag_list ≡ n)
          × (lightfs_io_get_multi device s user b ≡ blocked))
        ⊎ GetsMulti b (lightfs_io_get_multi device s user b)
  unfolding lightfs_io_get_multi
  lightfs_io_get_multi_lem b = elim (issue_get device n s user (multi_write b) idle 0) [
    | inl (full, e) ↦ inl (full, ground (arith, e))
    | inr i ↦ inr (record {
      id = i.id;
      after = i.after;
      kept =
          freed-Kept (multi_write b) 0 (got_bytes device n s user (multi_write b) idle 0)
            (issue device s user true none (multi_write b) true 0) i;
      bytes_are = i.bytes_are;
      returns = ground (arith, i.returns, i.user_is);
    })
  ]

  abbrev commit_write : TxnBuf → List ℕ → Writer
  commit_write b buf = lightfs_io_set_type (begun buf b.txn_id 1) b.type

  pub lightfs_io_commit_lem :
      (b : TxnBuf)
      → ((length s.queue.processing_tag_list ≡ n) × (lightfs_io_commit device s user b ≡ blocked))
        ⊎ ((after : Shm) × (lightfs_io_commit device s user b ≡ done after) × Kept n s after)
  unfolding lightfs_io_commit
  lightfs_io_commit_lem b = elim (issue_get device n s user (commit_write b) idle 0) [
    | inl (full, e) ↦ inl (full, ground (arith, e))
    | inr i ↦ inr (
      cheeze_free_io i.after i.id,
      ground (arith, i.returns),
      freed-Kept (commit_write b) 0 (got_bytes device n s user (commit_write b) idle 0)
          (issue device s user true none (commit_write b) true 0) i,
    )
  ]
