-- ===== src/Tests/Blocks.antt =====
-- The block store on concrete input.
use kevin.Base.{
  ℕ, [], ◌∷◌, Option, some, ◌≡◌, refl, arith, done, List, All, replicate, length-replicate, length,
  leb, ltb, ◌&&◌, if◌then◌else◌,
}
use kevin.Key.{Dbt, dbt_setup}
use kevin.Bstore.{BlockUpdateCbInfo, env_update_cb, setattr_trunc, lightfs_get_block_num_by_size}
use kevin.Base.{◌++◌, ◌*◌, true, false, pos}
use kevin.Bstore.OnePage.{
  Values, page_bytes, lightfs_bstore_scan_one_page, lightfs_bstore_scan_one_page_lem,
}
use kevin.Bstore.Scan.{Page, Blocks, lightfs_bstore_scan_pages}
use kevin.Bstore.Pages.{file_pages, zero_pages, AreFrom}
use kevin.Bstore.Read.{lightfs_bstore_scan_pages_lem, lightfs_bstore_scan_pages_zero}
use kevin.Bstore.Padding.{new_size}
use kevin.Bstore.Update.{Sets, env_update_cb_lem}
use kevin.Bstore.Trunc.{IsCall, deletions, setattr_trunc_lem}

abbrev fresh : ℕ → Option (List ℕ)
fresh n = some (replicate n 7)

fresh_gives : (n : ℕ) → (mem : List ℕ) × (fresh n ≡ some mem) × (length mem ≡ n)
fresh_gives n = (replicate n 7, refl, length-replicate n 7)

-- Two bytes at offset 3 of a value of one byte.
abbrev two_bytes : BlockUpdateCbInfo
two_bytes = record { offset = 3; size = 2; buf = 8 ∷ 9 ∷ [] }

abbrev one_byte : Dbt
one_byte = dbt_setup (5 ∷ []) 1

env_update_cb_lem_example :
    Sets (some one_byte) two_bytes (env_update_cb fresh (some one_byte) two_bytes)
unfolding new_size
env_update_cb_lem_example =
    env_update_cb_lem fresh fresh_gives (some one_byte) two_bytes (omega arith) (omega arith)
      (omega arith)

-- A file of 2000 blocks is cut to 5000 bytes: blocks 3 to 2000 go, 310 at a time.
setattr_trunc_lem_example :
    (calls : List (Dbt × ℕ)) × (setattr_trunc (some (replicate 17 0)) 258 8192000 5000
      ≡ done (some calls))
    × All (IsCall 258) calls
    × ((b : ℕ)
        → deletions b calls ≡ (
            if ltb (lightfs_get_block_num_by_size 5000) b
              && leb b (lightfs_get_block_num_by_size 8192000)
            then 1
            else 0))
setattr_trunc_lem_example =
    setattr_trunc_lem (replicate 17 0) 258 8192000 5000 (omega arith) (omega arith) (omega arith)

-- Two pages of a file of 5000 bytes, and a device that has both blocks.
abbrev blank : ℕ → Page
blank index = record { index = index; bytes = replicate 4096 1 }

abbrev has_blocks : Blocks
has_blocks key cnt = some (replicate (4096 * cnt) 2)

two_pages-AreFrom : AreFrom 0 (blank 0 ∷ blank 1 ∷ [])
unfolding AreFrom
two_pages-AreFrom =
    (refl, length-replicate {A = ℕ} 4096 1, (refl, length-replicate {A = ℕ} 4096 1, tt))

lightfs_bstore_scan_pages_lem_example :
    lightfs_bstore_scan_pages has_blocks 2
      (some (replicate 17 0))
      true
      (record { lightfs_io_vec = blank 0 ∷ blank 1 ∷ []; lightfs_bvidx = 0 })
      258
      5000
    ≡ done (
        some (record {
          lightfs_io_vec = file_pages 5000 (blank 0 ∷ blank 1 ∷ []) (replicate 8192 2) ++ [];
          lightfs_bvidx = length (file_pages 5000 (blank 0 ∷ blank 1 ∷ []) (replicate 8192 2));
        }))
lightfs_bstore_scan_pages_lem_example =
    lightfs_bstore_scan_pages_lem has_blocks 0 (replicate 17 0) 258 5000 0 (blank 0) (blank 1 ∷ [])
      (omega arith) (omega arith) two_pages-AreFrom (omega arith) (replicate 8192 2) refl
      (omega (arith, length-replicate {A = ℕ} 8192 2))

lightfs_bstore_scan_pages_zero_example :
    lightfs_bstore_scan_pages has_blocks 1
      (some (replicate 17 0))
      false
      (record { lightfs_io_vec = blank 0 ∷ blank 1 ∷ []; lightfs_bvidx = 0 })
      258
      5000
    ≡ done (
        some (record {
          lightfs_io_vec = zero_pages (blank 0 ∷ blank 1 ∷ []) ++ [];
          lightfs_bvidx = length (zero_pages (blank 0 ∷ blank 1 ∷ []));
        }))
lightfs_bstore_scan_pages_zero_example =
    lightfs_bstore_scan_pages_zero has_blocks 0 (replicate 17 0) 258 5000 0 (blank 0) (blank 1 ∷ [])
      (omega arith) (omega arith) two_pages-AreFrom (omega arith)

-- Page 1 of the same file alone.
abbrev has_values : Values
has_values key = some (replicate 4096 2)

lightfs_bstore_scan_one_page_lem_example :
    lightfs_bstore_scan_one_page has_values (some (replicate 17 0)) (blank 1) 258 5000
    ≡ (record (blank 1) { bytes = page_bytes 5000 2 (some (replicate 4096 2)) }, pos 0)
lightfs_bstore_scan_one_page_lem_example =
    lightfs_bstore_scan_one_page_lem has_values (replicate 17 0) (blank 1) 258 5000
      (length-replicate {A = ℕ} 4096 1) (some (replicate 4096 2)) (omega arith) refl
      (length-replicate {A = ℕ} 4096 2)
