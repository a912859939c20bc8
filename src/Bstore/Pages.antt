-- ===== src/Bstore/Pages.antt =====
-- One page of a file: what `lightfs_scan_pages_cb` puts there, and the pages as a list.
use kevin.Base.{
  ℕ, zero, suc, ◌+◌, ◌-◌, ◌≤◌, List, [], ◌∷◌, ◌++◌, some, ◌&&◌, ◌==◌, ltb, if◌then◌else◌, ◌≡◌, refl,
  ap, ◌∙◌, arith, length, get_elem?, set, take, drop, replicate, length-take, append-nil,
}
use kevin.Key.{memcpy, memset}
use kevin.Bstore.{lightfs_get_block_num_by_size, block_get_off_by_position}
use kevin.Bstore.Scan.{Page, page_to_block_num, fill_page}

module _ {ℓ} {A : Type ℓ} where
  pub get_elem?-append :
      (xs : List A) (y : A) (ys : List A) → get_elem? (xs ++ (y ∷ ys)) (length xs) ≡ some y
  get_elem?-append [] y ys = refl
  get_elem?-append (x ∷ xs) y ys = get_elem?-append xs y ys

  pub set-append :
      (xs : List A) (y : A) (ys : List A) (z : A)
      → set (xs ++ (y ∷ ys)) (length xs) z ≡ xs ++ (z ∷ ys)
  set-append [] y ys z = refl
  set-append (x ∷ xs) y ys z = ap (◌∷◌ x) (set-append xs y ys z)

-- The bytes of a block of a file of some size: zeros behind the end of the file.
unfoldable pub file_block : ℕ → ℕ → List ℕ → List ℕ
file_block size block bytes =
    let block_off = block_get_off_by_position size in
    if block == lightfs_get_block_num_by_size size && ltb 0 block_off
    then take block_off bytes ++ replicate (4096 - block_off) 0
    else bytes

-- The pages with the blocks of an answer, and with zeros.
unfoldable pub file_pages : ℕ → List Page → List ℕ → List Page
file_pages size [] buf = []
file_pages size (p ∷ ps) buf =
    record p { bytes = file_block size (p.index + 1) (take 4096 buf) }
    ∷ file_pages size ps (drop 4096 buf)

unfoldable pub zero_pages : List Page → List Page
zero_pages [] = []
zero_pages (p ∷ ps) = record p { bytes = replicate 4096 0 } ∷ zero_pages ps

-- Pages of consecutive indices from `start` on, of 4096 bytes each.
unfoldable pub AreFrom : ℕ → List Page → Type 0
AreFrom start [] = Unit
AreFrom start (p ∷ ps) = (p.index ≡ start) × (length p.bytes ≡ 4096) × AreFrom (start + 1) ps

drop_all : (n : ℕ) (xs : List ℕ) → length xs ≤ n → drop n xs ≡ []
drop_all zero [] h = refl
drop_all zero (x ∷ xs) h = absurd (omega (arith, h))
drop_all (suc n) [] h = refl
drop_all (suc n) (x ∷ xs) h = drop_all n xs (omega (arith, h))

-- A copy of a whole page, and the end of one zeroed.
pub memcpy_page : (old new : List ℕ) → length old ≡ 4096 → memcpy old 0 new 4096 ≡ take 4096 new
memcpy_page old new e =
    ap (λ r. take 4096 new ++ r) (drop_all 4096 old (omega (arith, e))) ∙ append-nil (take 4096 new)

take-replicate : (n : ℕ) → take n (replicate {A = ℕ} n 0) ≡ replicate n 0
take-replicate zero = refl
take-replicate (suc n) = ap (◌∷◌ 0) (take-replicate n)

pub zero_tail :
    (n : ℕ) (bytes : List ℕ) (off : ℕ)
    → length bytes ≡ n
    → off ≤ n
    → memset bytes off 0 (n - off) ≡ take off bytes ++ replicate (n - off) 0
zero_tail n bytes off e le =
    ap (λ r. take off bytes ++ (take (n - off) (replicate (n - off) 0) ++ r))
      (drop_all (off + (n - off)) bytes (omega (arith, e, le)))
    ∙ ap (λ r. take off bytes ++ r)
        (append-nil (take (n - off) (replicate (n - off) 0)) ∙ take-replicate (n - off))

pub fill_page-file_block :
    (size : ℕ) (p : Page) (buf : List ℕ)
    → length p.bytes ≡ 4096
    → 4096 ≤ length buf
    → fill_page size p buf 4096 ≡ file_block size (p.index + 1) (take 4096 buf)
unfolding fill_page file_block
fill_page-file_block size p buf e long =
    let off = block_get_off_by_position size in
    let is_last = (page_to_block_num p == lightfs_get_block_num_by_size size && ltb 0 off) in
    let whole : length (take 4096 buf) ≡ 4096 = omega (arith, length-take 4096 buf, long) in
    ap (λ b. if is_last then memset b off 0 (4096 - off) else b) (memcpy_page p.bytes buf e)
    ∙ ap (λ b. if is_last then b else take 4096 buf)
        (zero_tail 4096 (take 4096 buf) off whole (omega arith))
