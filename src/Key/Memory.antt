-- ===== src/Key/Memory.antt =====
-- Copies into a buffer, byte by byte.
use kevin.Base.{
  ℕ, ◌+◌, ◌-◌, ◌≤◌, ◌<◌, List, ◌++◌, ◌≡◌, ap, ◌∙◌, arith, length, take, drop, get_or, length-append,
  length-take, length-drop, get_or-append_right, get_or-append_left, get_or-take, get_or-drop,
  length-replicate, replicate,
}
use kevin.Key.{memcpy, memset}

pub length-memcpy :
    (dst : List ℕ) (off : ℕ) (src : List ℕ) (n : ℕ)
    → off + n ≤ length dst
    → n ≤ length src
    → length (memcpy dst off src n) ≡ length dst
length-memcpy dst off src n h k = omega (
  arith,
  length-append (take off dst) (take n src ++ drop (off + n) dst),
  length-append (take n src) (drop (off + n) dst),
  length-take off dst,
  length-take n src,
  length-drop (off + n) dst,
)

pub get_or-memcpy_beyond :
    (dst : List ℕ) (off : ℕ) (src : List ℕ) (n i : ℕ)
    → off + n ≤ length dst
    → n ≤ length src
    → off + n ≤ i
    → get_or (memcpy dst off src n) i 0 ≡ get_or dst i 0
get_or-memcpy_beyond dst off src n i h k le =
    let front : length (take off dst) ≡ off = omega (arith, length-take off dst) in
    let middle : length (take n src) ≡ n = omega (arith, length-take n src) in
    get_or-append_right (take off dst) (take n src ++ drop (off + n) dst) i 0 (omega arith)
    ∙ get_or-append_right (take n src) (drop (off + n) dst) (i - length (take off dst)) 0
        (omega arith)
    ∙ get_or-drop (off + n) dst (i - length (take off dst) - length (take n src)) 0
    ∙ ap (λ k. get_or dst k 0) (omega arith)

pub get_or-memcpy_before :
    (dst : List ℕ) (off : ℕ) (src : List ℕ) (n i : ℕ)
    → off ≤ length dst
    → i < off
    → get_or (memcpy dst off src n) i 0 ≡ get_or dst i 0
get_or-memcpy_before dst off src n i h lt =
    get_or-append_left (take off dst) (take n src ++ drop (off + n) dst) i 0
      (omega (arith, length-take off dst))
    ∙ get_or-take off dst i 0 lt

pub get_or-memcpy_inside :
    (dst : List ℕ) (off : ℕ) (src : List ℕ) (n i : ℕ)
    → off + n ≤ length dst
    → n ≤ length src
    → off ≤ i
    → i < off + n
    → get_or (memcpy dst off src n) i 0 ≡ get_or src (i - off) 0
get_or-memcpy_inside dst off src n i h k le lt =
    let front : length (take off dst) ≡ off = omega (arith, length-take off dst) in
    get_or-append_right (take off dst) (take n src ++ drop (off + n) dst) i 0 (omega arith)
    ∙ ap (λ j. get_or (take n src ++ drop (off + n) dst) (i - j) 0) front
    ∙ get_or-append_left (take n src) (drop (off + n) dst) (i - off) 0
        (omega (arith, length-take n src))
    ∙ get_or-take n src (i - off) 0 (omega arith)

pub length-memset :
    (dst : List ℕ) (off c n : ℕ) → off + n ≤ length dst → length (memset dst off c n) ≡ length dst
length-memset dst off c n h =
    length-memcpy dst off (replicate n c) n h (omega (arith, length-replicate n c))
