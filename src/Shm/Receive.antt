-- ===== src/Shm/Receive.antt =====
-- The receiver's loop over the slots.
use kevin.Base.{
  ℕ, zero, suc, ◌+◌, ◌≤◌, ◌<◌, List, ◌==◌, ◌≡◌, ◌≢◌, inl, inr, refl, ap, ◌∙◌, arith, get_or, set,
  length, length-set, get_or-set_self, get_or-set_ne, Bool-cases,
}
use kevin.Shm.{Shm, recv_slot, recv_loop}

-- No answer is waiting.
abbrev pub Quiet : List ℕ → Type 0
Quiet recv = (i : ℕ) → get_or recv i 0 ≡ 0

-- The shared memory has a place for each of `n` slots, and no answer is waiting.
pub record Ready (n : ℕ) (s : Shm) : Type 0 where
  pub few : n ≤ 1024
  pub quiet : Quiet s.recv_event
  pub recv_room : n ≤ length s.recv_event
  pub ureq_room : n ≤ length s.ureq_addr
  pub buf_room : n ≤ length s.bufs
  pub req_room : length s.queue.reqs ≡ n

pub recv_loop-Quiet : (rounds i : ℕ) (s : Shm) → Quiet s.recv_event → recv_loop rounds i s ≡ s
unfolding recv_loop recv_slot
recv_loop-Quiet zero i s q = refl
recv_loop-Quiet (suc rounds) i s q =
    let same : recv_slot s i ≡ s = ground (arith, q i) in
    ap (recv_loop rounds (suc i)) same ∙ recv_loop-Quiet rounds (suc i) s q

-- When at most slot `id` has an answer, the loop is its body at that slot.
pub recv_loop_one :
    (rounds i id : ℕ) (s : Shm)
    → ((j : ℕ) → j ≢ id → get_or s.recv_event j 0 ≡ 0)
    → Quiet (recv_slot s id).recv_event
    → i ≤ id
    → id < i + rounds
    → recv_loop rounds i s ≡ recv_slot s id
unfolding recv_loop recv_slot
recv_loop_one zero i id s others q le lt = absurd (omega arith)
recv_loop_one (suc rounds) i id s others q le lt = elim (Bool-cases (i == id)) [
  | inl e ↦
      let at : i ≡ id = ground (arith, e) in
      ap (λ j. recv_loop rounds (suc i) (recv_slot s j)) at
      ∙ recv_loop-Quiet rounds (suc i) (recv_slot s id) q
  | inr e ↦
      let off : i ≢ id = λ h. ground (arith, e, h) in
      let same : recv_slot s i ≡ s = ground (arith, others i off) in
      ap (recv_loop rounds (suc i)) same
      ∙ recv_loop_one rounds (suc i) id s others q (omega arith) (omega arith)
]

pub set-Quiet :
    (recv : List ℕ) (id : ℕ) → Quiet recv → id < length recv → Quiet (set (set recv id 1) id 0)
set-Quiet recv id q room i = elim (Bool-cases (i == id)) [
  | inl e ↦
      let at : i ≡ id = ground (arith, e) in
      ap (λ j. get_or (set (set recv id 1) id 0) j 0) at
      ∙ get_or-set_self (set recv id 1) id 0 0 (omega (arith, length-set recv id 1))
  | inr e ↦
      let off : id ≢ i = λ h. ground (arith, e, h) in
      get_or-set_ne (set recv id 1) id i 0 0 off ∙ get_or-set_ne recv id i 1 0 off ∙ q i
]
