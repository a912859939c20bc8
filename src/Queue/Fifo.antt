-- ===== src/Queue/Fifo.antt =====
-- The queue is a first-in first-out buffer of `cap` places.
use kevin.Base.{
  ℕ, suc, ◌+◌, ◌≤◌, ◌<◌, List, [], ◌∷◌, ◌++◌, Option, none, some, Outcome, done, blocked, ◌≡◌, refl,
  ap, sym, ◌∙◌, arith, get_or, set, length, length-append, length-set, length-replicate,
  get_or-set_self, ◌⊎◌, inl, inr,
}
use kevin.Queue.{
  LightfsQueue, lightfs_queue_init, lightfs_queue_push, lightfs_queue_peek, lightfs_queue_pop,
  lightfs_queue_peek_and_pop,
}
use kevin.Queue.Order.{
  occurs, occurs-append, occurs-ids, length-ids, behind, behind-append, behind-set,
}

module _ {ℓ} {A : Type ℓ} where
  -- Every item is in exactly one place: free, waiting, or in the hands of the callers that peeked it
  -- (`taken`). The semaphores count the two lists.
  pub record IsValid (q : LightfsQueue A) (taken : List ℕ) : Type 0 where
    pub once :
        (i : ℕ)
        → i < q.cap
        → occurs i q.free_tag_list + occurs i q.processing_tag_list + occurs i taken ≡ 1
    pub never :
        (i : ℕ)
        → q.cap ≤ i
        → occurs i q.free_tag_list + occurs i q.processing_tag_list + occurs i taken ≡ 0
    pub slots_are : q.slots ≡ length q.free_tag_list
    pub items_are : q.items ≡ length q.processing_tag_list
    pub room : length q.item_data ≡ q.cap
    pub places : length q.free_tag_list + length q.processing_tag_list + length taken ≡ q.cap

  -- What the queue holds, oldest first.
  abbrev pub content : LightfsQueue A → List (Option A)
  content q = behind q.item_data none q.processing_tag_list

  pub lightfs_queue_init-IsValid : (cnt : ℕ) → IsValid (lightfs_queue_init {A = A} cnt) []
  unfolding lightfs_queue_init occurs
  lightfs_queue_init-IsValid cnt = record {
    once = λ i h. ground (arith, occurs-ids i 0 cnt);
    never = λ i h. ground (arith, occurs-ids i 0 cnt);
    slots_are = sym (length-ids 0 cnt);
    items_are = refl;
    room = length-replicate cnt none;
    places = omega (arith, length-ids 0 cnt);
  }

  -- The head of a list of a valid queue is an item, and stands nowhere else.
  first_free :
      (q : LightfsQueue A) (taken : List ℕ) (id : ℕ) (rest : List ℕ)
      → IsValid q taken
      → q.free_tag_list ≡ id ∷ rest
      → (id < q.cap) × (occurs id q.processing_tag_list ≡ 0)
  unfolding occurs
  first_free q taken id rest v e = ground (arith, v.once id, v.never id, e)

  -- The queue after a push that finds a free item.
  abbrev pub pushed : LightfsQueue A → A → ℕ → List ℕ → LightfsQueue A
  pushed q a id rest = record q {
    slots = length rest;
    free_tag_list = rest;
    processing_tag_list = q.processing_tag_list ++ (id ∷ []);
    item_data = set q.item_data id (some a);
    items = suc q.items;
  }

  pub pushed-IsValid :
      (q : LightfsQueue A) (taken : List ℕ) (a : A) (id : ℕ) (rest : List ℕ)
      → IsValid q taken
      → q.free_tag_list ≡ id ∷ rest
      → IsValid (pushed q a id rest) taken
  unfolding occurs
  pushed-IsValid q taken a id rest v e = record {
    once = λ i h. ground (arith, v.once i h, e, occurs-append i q.processing_tag_list (id ∷ []));
    never = λ i h. ground (arith, v.never i h, e, occurs-append i q.processing_tag_list (id ∷ []));
    slots_are = refl;
    items_are = ground (arith, v.items_are, length-append q.processing_tag_list (id ∷ []));
    room = length-set q.item_data id (some a) ∙ v.room;
    places = ground (arith, v.places, e, length-append q.processing_tag_list (id ∷ []));
  }

  pushed-content :
      (q : LightfsQueue A) (taken : List ℕ) (a : A) (id : ℕ) (rest : List ℕ)
      → IsValid q taken
      → q.free_tag_list ≡ id ∷ rest
      → content (pushed q a id rest) ≡ content q ++ (some a ∷ [])
  unfolding behind
  pushed-content q taken a id rest v e =
      let here = first_free q taken id rest v e in
      behind-append (set q.item_data id (some a)) none q.processing_tag_list (id ∷ [])
      ∙ ap (λ xs. xs ++ (get_or (set q.item_data id (some a)) id none ∷ []))
          (behind-set q.item_data none (some a) id q.processing_tag_list here.1)
      ∙ ap (λ x. content q ++ (x ∷ [])) (get_or-set_self q.item_data id (some a) none (omega arith))

  length-content : (ds : List (Option A)) (js : List ℕ) → length (behind ds none js) ≡ length js
  unfolding behind
  length-content ds [] = refl
  length-content ds (j ∷ js) = ap suc (length-content ds js)

  -- A call that ends: its result, the state it leaves and what is in the callers' hands then.
  pub record Ends {κ} {B : Type κ} (out : Outcome (LightfsQueue A × B)) (r : B) (taken : List ℕ)
      (xs : List (Option A)) : Type (ℓ ⊔ κ) where
    pub after : LightfsQueue A
    pub returns : out ≡ done (after, r)
    pub valid : IsValid after taken
    pub holds : content after ≡ xs

  push_lem :
      (q : LightfsQueue A) (taken : List ℕ) (a : A) (fs : List ℕ)
      → IsValid q taken
      → q.free_tag_list ≡ fs
      → ((length (content q) + length taken ≡ q.cap) × (lightfs_queue_push q a ≡ blocked))
        ⊎ ((length (content q) + length taken < q.cap)
            × (id : ℕ) × Ends (lightfs_queue_push q a) id taken (content q ++ (some a ∷ [])))
  unfolding lightfs_queue_push
  push_lem q taken a [] v e = inl (
    ground (arith, v.places, e, length-content q.item_data q.processing_tag_list),
    ground (arith, v.slots_are, e),
  )
  push_lem q taken a (id ∷ rest) v e = inr (
    ground (arith, v.places, e, length-content q.item_data q.processing_tag_list),
    id,
    record {
      after = pushed q a id rest;
      returns = ground (arith, v.slots_are, e);
      valid = pushed-IsValid q taken a id rest v e;
      holds = pushed-content q taken a id rest v e;
    },
  )

  -- In a valid queue `lightfs_queue_push` waits exactly when the items that hold data and those that
  -- were peeked and not yet popped are `cap` many. Else it ends, the new data is the youngest, and the
  -- queue is valid.
  pub lightfs_queue_push-Fifo :
      (q : LightfsQueue A) (taken : List ℕ) (a : A)
      → IsValid q taken
      → ((length (content q) + length taken ≡ q.cap) × (lightfs_queue_push q a ≡ blocked))
        ⊎ ((length (content q) + length taken < q.cap)
            × (id : ℕ) × Ends (lightfs_queue_push q a) id taken (content q ++ (some a ∷ [])))
  lightfs_queue_push-Fifo q taken a v = push_lem q taken a q.free_tag_list v refl

  -- What the two reads do, for the content of the queue.
  unfoldable pub Peeks : LightfsQueue A → List ℕ → List (Option A) → Type ℓ
  Peeks q taken [] = (lightfs_queue_peek q ≡ blocked) × (lightfs_queue_peek_and_pop q ≡ blocked)
  Peeks q taken (x ∷ xs) =
      ((id : ℕ) × Ends (lightfs_queue_peek q) x (id ∷ taken) xs)
      × Ends (lightfs_queue_peek_and_pop q) x taken xs

  peek_lem :
      (q : LightfsQueue A) (taken : List ℕ) (ps : List ℕ)
      → IsValid q taken
      → q.processing_tag_list ≡ ps
      → Peeks q taken (behind q.item_data none ps)
  unfolding Peeks lightfs_queue_peek lightfs_queue_peek_and_pop behind occurs
  peek_lem q taken [] v e = (ground (arith, v.items_are, e), ground (arith, v.items_are, e))
  peek_lem q taken (id ∷ rest) v e = (
    (
      id,
      record {
        after = record q { items = length rest; processing_tag_list = rest };
        returns = ground (arith, v.items_are, e);
        valid = record {
          once = λ i h. ground (arith, v.once i h, e);
          never = λ i h. ground (arith, v.never i h, e);
          slots_are = v.slots_are;
          items_are = refl;
          room = v.room;
          places = ground (arith, v.places, e);
        };
        holds = refl;
      },
    ),
    record {
      after = record q {
        items = length rest;
        processing_tag_list = rest;
        free_tag_list = q.free_tag_list ++ (id ∷ []);
        slots = suc q.slots;
      };
      returns = ground (arith, v.items_are, e);
      valid = record {
        once = λ i h. ground (arith, v.once i h, e, occurs-append i q.free_tag_list (id ∷ []));
        never = λ i h. ground (arith, v.never i h, e, occurs-append i q.free_tag_list (id ∷ []));
        slots_are = ground (arith, v.slots_are, length-append q.free_tag_list (id ∷ []));
        items_are = refl;
        room = v.room;
        places = ground (arith, v.places, e, length-append q.free_tag_list (id ∷ []));
      };
      holds = refl;
    },
  )

  -- In a valid queue `lightfs_queue_peek` and `lightfs_queue_peek_and_pop` wait when the queue is empty.
  -- Else both return the oldest data and take it out; the first leaves its item in the caller's hands,
  -- the second frees it.
  lightfs_queue_peek-Fifo :
      (q : LightfsQueue A) (taken : List ℕ) → IsValid q taken → Peeks q taken (content q)
  lightfs_queue_peek-Fifo q taken v = peek_lem q taken q.processing_tag_list v refl

  -- When a caller gives back an item that it peeked, `lightfs_queue_pop` leaves a valid queue of the
  -- same content, in which one more push can go ahead.
  lightfs_queue_pop-Fifo :
      (q : LightfsQueue A) (before after : List ℕ) (id : ℕ)
      → IsValid q (before ++ (id ∷ after))
      → IsValid (lightfs_queue_pop q id) (before ++ after)
        × (content (lightfs_queue_pop q id) ≡ content q)
        × ((lightfs_queue_pop q id).slots ≡ suc q.slots)
  unfolding lightfs_queue_pop occurs
  lightfs_queue_pop-Fifo q before after id v = (
    record {
      once = λ i h. ground (
        arith,
        v.once i h,
        occurs-append i q.free_tag_list (id ∷ []),
        occurs-append i before (id ∷ after),
        occurs-append i before after,
      );
      never = λ i h. ground (
        arith,
        v.never i h,
        occurs-append i q.free_tag_list (id ∷ []),
        occurs-append i before (id ∷ after),
        occurs-append i before after,
      );
      slots_are = ground (arith, v.slots_are, length-append q.free_tag_list (id ∷ []));
      items_are = v.items_are;
      room = v.room;
      places = ground (
        arith,
        v.places,
        length-append q.free_tag_list (id ∷ []),
        length-append before (id ∷ after),
        length-append before after,
      );
    },
    refl,
    refl,
  )
