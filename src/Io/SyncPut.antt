-- ===== src/Io/SyncPut.antt =====
-- `lightfs_io_sync_put` gives its slot back twice.
use kevin.Base.{
  ℕ, suc, List, [], ◌∷◌, ◌++◌, done, ◌≡◌, ◌≢◌, inl, inr, ap, sym, ◌∙◌, arith, length, length-append,
}
use kevin.Txn.{TxnBuf}
use kevin.Queue.Order.{occurs, occurs-append}
use kevin.Wire.{Writer, lightfs_io_set_buf_meta_set}
use kevin.Cheeze.{ReqUser, list_del, cheeze_move_pop}
use kevin.Cheeze.Slots.{IsValid}
use kevin.Shm.{Shm, Device, cheeze_free_io}
use kevin.Io.{begun, lightfs_io_sync_put}
use kevin.Io.Issue.{IsIdle, list_del_absent, list_del-append, issue_put}

module _ (device : Device) (n : ℕ) (s : Shm) (user : ReqUser) (idle : IsIdle n s) where
  abbrev put_write : TxnBuf → List ℕ → Writer
  put_write b buf = lightfs_io_set_buf_meta_set (begun buf b.txn_id 1) b.type b

  -- From an idle memory with a free slot `lightfs_io_sync_put` ends, with the same slots in use as
  -- before, but the semaphore counts one more than the slots that are free: the receiver gives the slot
  -- back, and then the caller does again.
  pub lightfs_io_sync_put_lem :
      (b : TxnBuf)
      → length s.queue.processing_tag_list ≢ n
      → (after : Shm) × (lightfs_io_sync_put device s user b ≡ done after)
        × (after.queue.processing_tag_list ≡ s.queue.processing_tag_list)
        × (length after.queue.free_tag_list ≡ length s.queue.free_tag_list)
        × (after.queue.slots ≡ suc (length after.queue.free_tag_list))
        × ¬ IsValid n after.queue
  unfolding lightfs_io_sync_put cheeze_move_pop occurs
  lightfs_io_sync_put_lem b room = elim (issue_put device n s user (put_write b) idle) [
    | inl (full, e) ↦ absurd (room full)
    | inr i ↦
        let free = list_del i.id i.queue.free_tag_list in
        let unlisted : occurs i.id i.queue.free_tag_list ≡ 0 = ground (
          arith,
          i.valid.once i.id,
          i.valid.never i.id,
          i.used,
          i.unused,
          occurs-append i.id s.queue.processing_tag_list (i.id ∷ []),
        ) in
        let none_left : occurs i.id free ≡ 0 =
          ap (occurs i.id) (list_del_absent i.id i.queue.free_tag_list unlisted) ∙ unlisted in
        let twice : cheeze_move_pop i.after.queue i.id
            ≡ cheeze_move_pop (record (cheeze_move_pop i.queue i.id) { reqs = i.after.queue.reqs })
                i.id =
          ap (λ q. cheeze_move_pop q i.id) i.queue_is in
        let free_is : (cheeze_move_pop i.after.queue i.id).free_tag_list ≡ free ++ (i.id ∷ []) =
          ap (λ q. q.free_tag_list) twice
          ∙ ap (λ l. l ++ (i.id ∷ [])) (list_del-append i.id free none_left) in
        let used_is : (cheeze_move_pop i.after.queue i.id).processing_tag_list
            ≡ s.queue.processing_tag_list =
          ap (λ q. q.processing_tag_list) twice
          ∙ ap (λ l. list_del i.id (list_del i.id l)) i.used
          ∙ ap (list_del i.id) (list_del-append i.id s.queue.processing_tag_list i.unused)
          ∙ list_del_absent i.id s.queue.processing_tag_list i.unused in
        let slots_are : (cheeze_move_pop i.after.queue i.id).slots ≡ suc s.queue.slots =
          ap (λ q. q.slots) twice ∙ ap suc (sym i.taken) in
        let long : length (cheeze_move_pop i.after.queue i.id).free_tag_list
            ≡ length s.queue.free_tag_list =
          omega (
            arith,
            ap length (
                free_is
                ∙ ap (λ l. l ++ (i.id ∷ [])) (list_del_absent i.id i.queue.free_tag_list unlisted)),
            length-append i.queue.free_tag_list (i.id ∷ []),
            i.valid.slots_are,
            i.taken,
            idle.valid.slots_are,
          ) in
        let more : (cheeze_move_pop i.after.queue i.id).slots
            ≡ suc (length (cheeze_move_pop i.after.queue i.id).free_tag_list) =
          omega (arith, slots_are, long, idle.valid.slots_are) in
        (
          cheeze_free_io i.after i.id,
          ground (arith, i.returns),
          used_is,
          long,
          more,
          λ v. absurd (omega (arith, v.slots_are, more)),
        )
  ]
