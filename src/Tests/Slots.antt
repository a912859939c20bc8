-- ===== src/Tests/Slots.antt =====
-- The request slots on concrete input: the addresses of the two huge pages as kevinfs/cheeze/cheeze.h
-- has them, and two slots.
use kevin.Base.{ℕ, [], ◌∷◌, ◌≡◌, ◌⊎◌, refl, true, none, arith, length, blocked}
use kevin.Queue.Order.{occurs}
use kevin.Cheeze.{empty_user, Cheeze, empty_req, cheeze_prepare_io}
use kevin.Cheeze.Slots.{IsValid, prepared, Prepares, cheeze_prepare_io-Prepares}

abbrev pub page0 : ℕ
page0 = 0x3f00000000

abbrev pub page1 : ℕ
page1 = 0x3ec0000000

-- Two slots, of which the second is in use.
abbrev pub one_used : Cheeze
one_used = record {
  free_tag_list = 0 ∷ [];
  processing_tag_list = 1 ∷ [];
  reqs = empty_req ∷ empty_req ∷ [];
  slots = 1;
  items = 1;
  qd = 1;
  seq = 1;
}

pub one_used-IsValid : IsValid 2 one_used
unfolding occurs
one_used-IsValid = record {
  once = λ i h. ground (arith, h);
  never = λ i h. ground (arith, h);
  slots_are = refl;
  places = omega arith;
  room = refl;
}

cheeze_prepare_io-Prepares_example :
    ((length one_used.processing_tag_list ≡ 2)
      × (cheeze_prepare_io (page0, page1) one_used empty_user true none true ≡ blocked))
    ⊎ Prepares 2 one_used
        (prepared (page0, page1) empty_user true none true)
        (cheeze_prepare_io (page0, page1) one_used empty_user true none true)
cheeze_prepare_io-Prepares_example =
    cheeze_prepare_io-Prepares 2 (page0, page1) one_used empty_user true none true one_used-IsValid

slot_one_used : occurs 1 one_used.processing_tag_list ≡ 1
unfolding occurs
slot_one_used = ground arith
