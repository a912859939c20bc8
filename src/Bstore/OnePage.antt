-- ===== src/Bstore/OnePage.antt =====
-- Reading one page: `lightfs_bstore_get` and `lightfs_bstore_scan_one_page` of kevinfs/lightfs_bstore.c.
-- What the store has under a key is a parameter.
use kevin.Base.{
  ℕ, ◌-◌, ◌^◌, ◌<◌, List, Option, none, some, Bool, true, false, ◌&&◌, ◌==◌, ltb, if◌then◌else◌, ℤ,
  pos, negsuc, ◌≡◌, ap, sym, ◌∙◌, arith, length, take, replicate, take_all,
}
use kevin.Key.{Dbt, dbt_setup, memcpy, memset}
use kevin.Key.Layout.{data_key, alloc_data_dbt_from_ino, lightfs_data_key_get_blocknum}
use kevin.Key.Data.{data_key_blocknum}
use kevin.Bstore.{lightfs_get_block_num_by_size, block_get_off_by_position}
use kevin.Bstore.Scan.{Page, page_to_block_num, zero_user_segment}
use kevin.Bstore.Pages.{file_block, memcpy_page, zero_tail}

-- The bytes of a value, `none` for DB_NOTFOUND.
abbrev pub Values : Type 0
Values = Dbt → Option (List ℕ)

-- What `lightfs_bstore_get` makes of the value: the bytes behind the end of the file are zeroed.
unfoldable pub cut_at_end : List ℕ → ℕ → Bool → Option (List ℕ) → Option (List ℕ)
cut_at_end buf size is_last none = none
cut_at_end buf size is_last (some value) =
    let block_off = block_get_off_by_position size in
    let bytes = memcpy buf 0 value (length value) in
    some (
      if is_last && (ltb 0 block_off && ltb block_off 4096)
      then memset bytes block_off 0 (4096 - block_off)
      else bytes)

-- `lightfs_bstore_get`: the buffer, `none` for -ENOENT.
unfoldable pub lightfs_bstore_get : Values → Dbt → List ℕ → ℕ → Option (List ℕ)
lightfs_bstore_get values data_dbt buf size =
    cut_at_end buf size
      (lightfs_data_key_get_blocknum data_dbt.buf data_dbt.size
        == lightfs_get_block_num_by_size size)
      (values data_dbt)

abbrev pub enomem : ℤ
enomem = negsuc 11

-- The page after the read: zeros where there is no block.
unfoldable pub read_into : Page → Option (List ℕ) → Page × ℤ
read_into page none = (record page { bytes = memset page.bytes 0 0 4096 }, pos 0)
read_into page (some bytes) = (record page { bytes = bytes }, pos 0)

unfoldable pub scan_allocated : Values → Option Dbt → Page → ℕ → Page × ℤ
scan_allocated values none page size = (page, enomem)
scan_allocated values (some data_dbt) page size =
    read_into page (lightfs_bstore_get values data_dbt page.bytes size)

-- `lightfs_bstore_scan_one_page`, for an inode's number and size: the page and the return value.
unfoldable pub lightfs_bstore_scan_one_page : Values → Option (List ℕ) → Page → ℕ → ℕ → Page × ℤ
lightfs_bstore_scan_one_page values mem page ino size =
    let page_block_num = page_to_block_num page in
    if ltb (lightfs_get_block_num_by_size size) page_block_num
    then (record page { bytes = zero_user_segment page.bytes 0 4096 }, pos 0)
    else scan_allocated values (alloc_data_dbt_from_ino mem ino page_block_num) page size

-- The bytes that a page of a file should have.
unfoldable pub block_bytes : ℕ → ℕ → Option (List ℕ) → List ℕ
block_bytes size block none = replicate 4096 0
block_bytes size block (some value) = file_block size block value

unfoldable pub page_bytes : ℕ → ℕ → Option (List ℕ) → List ℕ
page_bytes size block answer =
    if ltb (lightfs_get_block_num_by_size size) block
    then replicate 4096 0
    else block_bytes size block answer

abbrev pub IsBlock : Option (List ℕ) → Type 0
IsBlock none = Unit
IsBlock (some value) = length value ≡ 4096

module _ (values : Values) (mem : List ℕ) (page : Page) (ino size : ℕ)
    (whole : length page.bytes ≡ 4096) where
  abbrev block : ℕ
  block = page_to_block_num page

  abbrev asked : Dbt
  asked = dbt_setup (data_key mem ino block) 17

  zeroed : memset page.bytes 0 0 4096 ≡ replicate 4096 0
  zeroed = zero_tail 4096 page.bytes 0 whole (omega arith)

  abbrev off : ℕ
  off = block_get_off_by_position size

  abbrev last : ℕ
  last = lightfs_get_block_num_by_size size

  copied : (value : List ℕ) → length value ≡ 4096 → memcpy page.bytes 0 value (length value) ≡ value
  copied value long =
      ap (memcpy page.bytes 0 value) long
      ∙ memcpy_page page.bytes value whole
      ∙ ap (λ n. take n value) (sym long)
      ∙ take_all value

  always : (c : Bool) → (c && (ltb 0 off && ltb off 4096)) ≡ (c && ltb 0 off)
  always c = ground arith

  cut_lem :
      (value : List ℕ)
      → length value ≡ 4096
      → cut_at_end page.bytes size (block == last) (some value) ≡ some (file_block size block value)
  unfolding cut_at_end file_block
  cut_lem value long =
      ap
        (λ b. some (
          if (block == last) && (ltb 0 off && ltb off 4096)
          then memset b off 0 (4096 - off)
          else b))
        (copied value long)
      ∙ ap (λ c. some (if c then memset value off 0 (4096 - off) else value))
          (always (block == last))
      ∙ ap (λ z. some (if (block == last) && ltb 0 off then z else value))
          (zero_tail 4096 value off long (omega arith))

  read_lem :
      (answer : Option (List ℕ))
      → IsBlock answer
      → read_into page (cut_at_end page.bytes size (block == last) answer)
        ≡ (record page { bytes = block_bytes size block answer }, pos 0)
  unfolding read_into cut_at_end block_bytes
  read_lem none long = ap (λ b. (record page { bytes = b }, pos 0)) zeroed
  read_lem (some value) long = ap (read_into page) (cut_lem value long)

  beyond_or :
      (c : Bool) (answer : Option (List ℕ)) (out : Page × ℤ)
      → out ≡ (record page { bytes = block_bytes size block answer }, pos 0)
      → (if c then (record page { bytes = zero_user_segment page.bytes 0 4096 }, pos 0) else out)
        ≡ (
          record page { bytes = if c then replicate 4096 0 else block_bytes size block answer },
          pos 0,
        )
  beyond_or true answer out e = ap (λ b. (record page { bytes = b }, pos 0)) zeroed
  beyond_or false answer out e = e

  -- For a page of 4096 bytes, of a block number of 64 bits, and memory for a key,
  -- `lightfs_bstore_scan_one_page` returns 0 with the page filled by the file's block, with zeros behind
  -- the end of the file, and by zeros where the file has no such block.
  pub lightfs_bstore_scan_one_page_lem :
      (answer : Option (List ℕ))
      → block < 2 ^ 64
      → values asked ≡ answer
      → IsBlock answer
      → lightfs_bstore_scan_one_page values (some mem) page ino size
        ≡ (record page { bytes = page_bytes size block answer }, pos 0)
  unfolding lightfs_bstore_scan_one_page scan_allocated lightfs_bstore_get alloc_data_dbt_from_ino
      page_bytes
  lightfs_bstore_scan_one_page_lem answer small got long =
      beyond_or (ltb last block) answer
        (read_into page (lightfs_bstore_get values asked page.bytes size))
        (ap (λ b. read_into page (cut_at_end page.bytes size (b == last) (values asked)))
            (data_key_blocknum mem ino block small)
          ∙ ap (λ o. read_into page (cut_at_end page.bytes size (block == last) o)) got
          ∙ read_lem answer long)
