-- ===== src/Queue.antt =====
-- kevinfs/lightfs_queue.c: a bounded queue of items that two semaphores guard. An item is its index
-- in `item_arr`, which is its `id`; `item_data` holds the `data` fields. Each call is one step, and
-- a wait that a signal interrupts goes on.
pub mod Order
pub mod Fifo
use kevin.Base.{
  ℕ, zero, suc, ◌+◌, List, [], ◌∷◌, ◌++◌, Bool, true, false, Option, none, some, Outcome, done,
  blocked, bug, ◌>>=◌, get_or, set, replicate,
}

-- `struct lightfs_queue`. A semaphore is its count.
pub record LightfsQueue {ℓ} (A : Type ℓ) : Type ℓ where
  pub free_tag_list : List ℕ
  pub processing_tag_list : List ℕ
  pub item_data : List (Option A)
  pub slots : ℕ
  pub items : ℕ
  pub cap : ℕ

-- `down_interruptible` until it succeeds.
abbrev pub down : ℕ → Outcome ℕ
down zero = blocked
down (suc n) = done n

-- `list_first_entry`, which is a wild pointer for an empty list.
abbrev pub list_first_entry : List ℕ → Outcome (ℕ × List ℕ)
list_first_entry [] = bug
list_first_entry (id ∷ rest) = done (id, rest)

-- The ids from `i` on, in order.
unfoldable pub ids : ℕ → ℕ → List ℕ
ids i zero = []
ids i (suc n) = i ∷ ids (suc i) n

module _ {ℓ} {A : Type ℓ} where
  -- `lightfs_queue_init`.
  unfoldable pub lightfs_queue_init : ℕ → LightfsQueue A
  lightfs_queue_init cnt = record {
    free_tag_list = ids 0 cnt;
    processing_tag_list = [];
    item_data = replicate cnt none;
    slots = cnt;
    items = 0;
    cap = cnt;
  }

  -- `lightfs_queue_push`: the id of the item that takes the data.
  unfoldable pub lightfs_queue_push : LightfsQueue A → A → Outcome (LightfsQueue A × ℕ)
  lightfs_queue_push q data_ = do
    n ← down q.slots
    (id, rest) ← list_first_entry q.free_tag_list
    done (
      record q {
        slots = n;
        free_tag_list = rest;
        processing_tag_list = q.processing_tag_list ++ (id ∷ []);
        item_data = set q.item_data id (some data_);
        items = suc q.items;
      },
      id,
    )

  -- `lightfs_queue_peek`: the item leaves the list, and its slot stays taken until the pop.
  unfoldable pub lightfs_queue_peek : LightfsQueue A → Outcome (LightfsQueue A × Option A)
  lightfs_queue_peek q = do
    n ← down q.items
    (id, rest) ← list_first_entry q.processing_tag_list
    done (record q { items = n; processing_tag_list = rest }, get_or q.item_data id none)

  -- `lightfs_queue_pop`.
  unfoldable pub lightfs_queue_pop : LightfsQueue A → ℕ → LightfsQueue A
  lightfs_queue_pop q id = record q {
    free_tag_list = q.free_tag_list ++ (id ∷ []);
    slots = suc q.slots;
  }

  -- `lightfs_queue_peek_and_pop`.
  unfoldable pub lightfs_queue_peek_and_pop : LightfsQueue A → Outcome (LightfsQueue A × Option A)
  lightfs_queue_peek_and_pop q = do
    n ← down q.items
    (id, rest) ← list_first_entry q.processing_tag_list
    done (
      record q {
        items = n;
        processing_tag_list = rest;
        free_tag_list = q.free_tag_list ++ (id ∷ []);
        slots = suc q.slots;
      },
      get_or q.item_data id none,
    )

  -- `lightfs_queue_is_empty`.
  unfoldable pub lightfs_queue_is_empty : LightfsQueue A → Bool
  lightfs_queue_is_empty q = elim q.processing_tag_list [ [] ↦ true | _ ∷ _ ↦ false ]
