-- ===== src/Cheeze/Slots.antt =====
-- Every slot is free or in use, and the buffers of different slots do not overlap.
use kevin.Base.{
  ℕ, suc, ◌+◌, ◌%◌, ◌^◌, ◌≤◌, ◌<◌, List, [], ◌∷◌, ◌++◌, Bool, Option, Outcome, done, blocked, ◌==◌,
  if◌then◌else◌, ◌≡◌, ◌≢◌, ◌⊎◌, inl, inr, refl, ap, sym, ◌∙◌, arith, get_or, set, length,
  length-append, length-set, get_or-set_self, length-replicate,
}
use kevin.Queue.Order.{occurs, occurs-append, occurs-ids, length-ids}
use kevin.Cheeze.{
  ReqUser, CheezeReq, Cheeze, cheeze_buf_size, empty_req, get_buf_addr, cheeze_queue_init,
  cheeze_push, cheeze_prepare_io, list_del, cheeze_move_pop,
}

-- For two huge pages of 1 GB that do not overlap, the 2 MB buffers of two different slots of the 1024
-- do not overlap, and each lies inside its page.
get_buf_addr-apart :
    (page0 page1 i j : ℕ)
    → page0 + 2 ^ 30 ≤ page1 ⊎ page1 + 2 ^ 30 ≤ page0
    → i < 1024
    → j < 1024
    → i ≢ j
    → ((get_buf_addr (page0, page1) i + cheeze_buf_size ≤ get_buf_addr (page0, page1) j)
        ⊎ (get_buf_addr (page0, page1) j + cheeze_buf_size ≤ get_buf_addr (page0, page1) i))
      × ((i < 512)
            × (page0 ≤ get_buf_addr (page0, page1) i)
            × (get_buf_addr (page0, page1) i + cheeze_buf_size ≤ page0 + 2 ^ 30)
          ⊎ (512 ≤ i)
            × (page1 ≤ get_buf_addr (page0, page1) i)
            × (get_buf_addr (page0, page1) i + cheeze_buf_size ≤ page1 + 2 ^ 30))
unfolding get_buf_addr
get_buf_addr-apart page0 page1 i j apart hi hj ne =
    (ground (arith, apart, hi, hj, ne), ground (arith, hi))

-- Each of the `n` slots is on exactly one of the two lists, and the semaphore counts the free ones.
pub record IsValid (n : ℕ) (c : Cheeze) : Type 0 where
  pub once : (i : ℕ) → i < n → occurs i c.free_tag_list + occurs i c.processing_tag_list ≡ 1
  pub never : (i : ℕ) → n ≤ i → occurs i c.free_tag_list + occurs i c.processing_tag_list ≡ 0
  pub slots_are : c.slots ≡ length c.free_tag_list
  pub places : length c.free_tag_list + length c.processing_tag_list ≡ n
  pub room : length c.reqs ≡ n

pub cheeze_queue_init-IsValid : (n : ℕ) → IsValid n (cheeze_queue_init n)
unfolding cheeze_queue_init occurs
cheeze_queue_init-IsValid n = record {
  once = λ i h. ground (arith, occurs-ids i 0 n);
  never = λ i h. ground (arith, occurs-ids i 0 n);
  slots_are = sym (length-ids 0 n);
  places = omega (arith, length-ids 0 n);
  room = length-replicate n empty_req;
}

-- The request of a slot after `cheeze_prepare_io`.
abbrev pub prepared : ℕ × ℕ → ReqUser → Bool → Option ℕ → Bool → ℕ → CheezeReq
prepared addr user sync extra transfer id = record {
  acked = 0;
  user = record user { id = id; buf = get_buf_addr addr id };
  sync = sync;
  transfer = transfer;
  extra = extra;
}

-- A request got slot `id` and sequence number `seq`: the slot was the first free one, and its request
-- has the slot's buffer and the arguments.
pub record Prepares (n : ℕ) (c : Cheeze) (request : ℕ → CheezeReq) (out : Outcome (Cheeze × ℕ × ℕ))
    : Type 0 where
  pub after : Cheeze
  pub id : ℕ
  pub returns : out ≡ done (after, id, c.seq)
  pub valid : IsValid n after
  pub in_range : id < n
  pub unused : occurs id c.processing_tag_list ≡ 0
  pub used : after.processing_tag_list ≡ c.processing_tag_list ++ (id ∷ [])
  pub first : c.free_tag_list ≡ id ∷ after.free_tag_list
  pub asked : get_or after.reqs id empty_req ≡ request id

-- What `cheeze_prepare_io` sets of a request.
abbrev with_arguments : ℕ × ℕ → Bool → Option ℕ → Bool → ℕ → CheezeReq → CheezeReq
with_arguments addr sync extra transfer id r = record r {
  user = record r.user { buf = get_buf_addr addr id };
  sync = sync;
  transfer = transfer;
  extra = extra;
}

prepare_lem :
    (n : ℕ) (addr : ℕ × ℕ) (c : Cheeze) (user : ReqUser) (sync : Bool) (extra : Option ℕ)
    (transfer : Bool) (fs : List ℕ)
    → IsValid n c
    → c.free_tag_list ≡ fs
    → ((length c.processing_tag_list ≡ n)
        × (cheeze_prepare_io addr c user sync extra transfer ≡ blocked))
      ⊎ Prepares n c
          (prepared addr user sync extra transfer)
          (cheeze_prepare_io addr c user sync extra transfer)
unfolding cheeze_prepare_io cheeze_push occurs
prepare_lem n addr c user sync extra transfer [] v e =
    inl (ground (arith, v.places, e), ground (arith, v.slots_are, e))
prepare_lem n addr c user sync extra transfer (id ∷ rest) v e =
    let here : (id < n) × (occurs id c.processing_tag_list ≡ 0) =
      ground (arith, v.once id, v.never id, e) in
    let start = record (get_or c.reqs id empty_req) { acked = 0; user = record user { id = id } } in
    let first = set c.reqs id start in
    let room : (rs : List CheezeReq) → length rs ≡ n → id < length rs =
      λ rs same. omega (arith, here.0, same) in
    let at = get_or first id empty_req in
    let last = with_arguments addr sync extra transfer id at in
    inr (record {
      after = record c {
        slots = length rest;
        free_tag_list = rest;
        processing_tag_list = c.processing_tag_list ++ (id ∷ []);
        reqs = set first id last;
        items = suc c.items;
        qd = suc c.qd;
        seq = (c.seq + 1) % 2 ^ 64;
      };
      id = id;
      returns = ground (arith, v.slots_are, e);
      valid = record {
        once =
            λ i h. ground (arith, v.once i h, e, occurs-append i c.processing_tag_list (id ∷ []));
        never =
            λ i h. ground (arith, v.never i h, e, occurs-append i c.processing_tag_list (id ∷ []));
        slots_are = refl;
        places = ground (arith, v.places, e, length-append c.processing_tag_list (id ∷ []));
        room = length-set first id last ∙ length-set c.reqs id _ ∙ v.room;
      };
      in_range = here.0;
      unused = here.1;
      used = refl;
      first = e;
      asked =
          get_or-set_self first id last empty_req (room first (length-set c.reqs id start ∙ v.room))
          ∙ ap (with_arguments addr sync extra transfer id)
              (get_or-set_self c.reqs id start empty_req (room c.reqs v.room));
    })

-- In a valid state `cheeze_prepare_io` waits exactly when every slot is in use. Else it gives the
-- request a slot that was not in use, the slot's buffer, and the next sequence number.
pub cheeze_prepare_io-Prepares :
    (n : ℕ) (addr : ℕ × ℕ) (c : Cheeze) (user : ReqUser) (sync : Bool) (extra : Option ℕ)
    (transfer : Bool)
    → IsValid n c
    → ((length c.processing_tag_list ≡ n)
        × (cheeze_prepare_io addr c user sync extra transfer ≡ blocked))
      ⊎ Prepares n c
          (prepared addr user sync extra transfer)
          (cheeze_prepare_io addr c user sync extra transfer)
cheeze_prepare_io-Prepares n addr c user sync extra transfer v =
    prepare_lem n addr c user sync extra transfer c.free_tag_list v refl

pub occurs-list_del :
    (i id : ℕ) (xs : List ℕ)
    → occurs i (list_del id xs) + (if i == id then (if occurs id xs == 0 then 0 else 1) else 0)
      ≡ occurs i xs
unfolding occurs list_del
occurs-list_del i id [] = ground arith
occurs-list_del i id (x ∷ xs) = ground (arith, occurs-list_del i id xs)

pub length-list_del :
    (id : ℕ) (xs : List ℕ)
    → length (list_del id xs) + (if occurs id xs == 0 then 0 else 1) ≡ length xs
unfolding occurs list_del
length-list_del id [] = refl
length-list_del id (x ∷ xs) = ground (arith, length-list_del id xs)

-- When a slot in use is given back, `cheeze_move_pop` leaves a valid state in which it is free and one
-- more request can be prepared.
pub cheeze_move_pop-IsValid :
    (n : ℕ) (c : Cheeze) (id : ℕ)
    → IsValid n c
    → occurs id c.processing_tag_list ≡ 1
    → IsValid n (cheeze_move_pop c id)
      × (occurs id (cheeze_move_pop c id).free_tag_list ≡ 1)
      × (length (cheeze_move_pop c id).processing_tag_list + 1 ≡ length c.processing_tag_list)
unfolding cheeze_move_pop occurs
cheeze_move_pop-IsValid n c id v used =
    let free : occurs id c.free_tag_list ≡ 0 = ground (arith, v.once id, v.never id, used) in
    let lf = length-list_del id c.free_tag_list in
    let lp = length-list_del id c.processing_tag_list in
    (
      record {
        once = λ i h. ground (
          arith,
          v.once i h,
          used,
          free,
          occurs-list_del i id c.free_tag_list,
          occurs-list_del i id c.processing_tag_list,
          occurs-append i (list_del id c.free_tag_list) (id ∷ []),
        );
        never = λ i h. ground (
          arith,
          v.never i h,
          used,
          free,
          occurs-list_del i id c.free_tag_list,
          occurs-list_del i id c.processing_tag_list,
          occurs-append i (list_del id c.free_tag_list) (id ∷ []),
        );
        slots_are =
            ground
              (arith, v.slots_are, lf, free, length-append (list_del id c.free_tag_list) (id ∷ []));
        places = ground (
          arith,
          v.places,
          lf,
          lp,
          free,
          used,
          length-append (list_del id c.free_tag_list) (id ∷ []),
        );
        room = v.room;
      },
      ground (
        arith,
        used,
        free,
        occurs-list_del id id c.free_tag_list,
        occurs-append id (list_del id c.free_tag_list) (id ∷ []),
      ),
      ground (arith, used, lp),
    )
