-- ===== src/Tests/Readahead.antt =====
-- Readahead on concrete input.
use kevin.Base.{
  ℕ, zero, suc, ◌+◌, ◌-◌, [], ◌∷◌, ◌++◌, List, some, true, false, ◌≡◌, refl, ap, arith, done,
  length, length-replicate, replicate, take, drop,
}
use kevin.Bstore.Scan.{Page}
use kevin.Bstore.Pages.{AreFrom}
use kevin.Reada.{
  ReadaEntry, LightfsInode, lightfs_reada_flush, lightfs_reada_buffer_get, search_readahead,
}
use kevin.Reada.Flush.{IsValid, tags, without, lightfs_reada_flush_lem}
use kevin.Reada.Hit.{shifted, lightfs_reada_buffer_get-shifted, search_readahead_half}

abbrev entry : ℕ → ℕ → ReadaEntry
entry id start = record {
  id = id;
  buf = replicate 131072 5;
  reada_block_start = start;
  reada_block_len = 32;
  tag = id + 100;
  is_empty = false;
  is_done = true;
}

-- Blocks 1 to 32 and 33 to 64 are read ahead.
abbrev two_entries : LightfsInode
two_entries = record {
  last_block_start = 1;
  last_block_len = 64;
  ra_entry = some 0;
  ra_list = entry 0 1 ∷ entry 1 33 ∷ [];
  ra_entry_cnt = 2;
}

two_entries-IsValid : IsValid two_entries
two_entries-IsValid = record { first = refl; count = refl; few = omega arith }

lightfs_reada_flush_lem_example :
    (lightfs_reada_flush two_entries 1
      ≡ done (without two_entries (drop 1 two_entries.ra_list), tags (take 1 two_entries.ra_list)))
    × IsValid (without two_entries (drop 1 two_entries.ra_list))
lightfs_reada_flush_lem_example =
    lightfs_reada_flush_lem two_entries 1 two_entries-IsValid (refl, tt)

-- Pages of consecutive indices.
abbrev blanks : ℕ → ℕ → List Page
blanks start zero = []
blanks start (suc n) = record { index = start; bytes = replicate 4096 1 } ∷ blanks (start + 1) n

blanks-AreFrom : (start n : ℕ) → AreFrom start (blanks start n)
unfolding AreFrom
blanks-AreFrom start zero = tt
blanks-AreFrom start (suc n) = (refl, length-replicate {A = ℕ} 4096 1, blanks-AreFrom (start + 1) n)

length-blanks : (start n : ℕ) → length (blanks start n) ≡ n
length-blanks start zero = refl
length-blanks start (suc n) = ap suc (length-blanks (start + 1) n)

abbrev first_page : Page
first_page = record { index = 0; bytes = replicate 4096 1 }

abbrev long_entry : ReadaEntry
long_entry = record (entry 0 1) { reada_block_len = 64; buf = replicate 262144 5 }

lightfs_reada_buffer_get-shifted_example :
    lightfs_reada_buffer_get long_entry two_entries
      (record { lightfs_io_vec = first_page ∷ blanks 1 63; lightfs_bvidx = 0 })
      (length (first_page ∷ blanks 1 63))
    ≡ done (
      record {
        lightfs_io_vec = shifted (0 + 1 - 1) long_entry.buf (first_page ∷ blanks 1 63) ++ [];
        lightfs_bvidx = length (shifted (0 + 1 - 1) long_entry.buf (first_page ∷ blanks 1 63));
      },
      length (first_page ∷ blanks 1 63),
    )
lightfs_reada_buffer_get-shifted_example =
    lightfs_reada_buffer_get-shifted long_entry two_entries 0 first_page (blanks 1 63) refl refl
      refl (omega (arith, length-blanks 1 63)) (blanks-AreFrom 0 64) (omega arith)
      (omega (arith, length-blanks 1 63))

search_readahead_half_example :
    search_readahead two_entries
      (record { lightfs_io_vec = (first_page ∷ blanks 1 31) ++ blanks 32 32; lightfs_bvidx = 0 })
      64
    ≡ done (
      record {
        lightfs_io_vec =
            shifted (0 + 1 - 1) (entry 0 1).buf (first_page ∷ blanks 1 31) ++ blanks 32 32;
        lightfs_bvidx = length (shifted (0 + 1 - 1) (entry 0 1).buf (first_page ∷ blanks 1 31));
      },
      two_entries,
      [],
      false,
    )
search_readahead_half_example =
    search_readahead_half (entry 0 1) (entry 1 33 ∷ []) two_entries 0 64 first_page (blanks 1 31)
      (blanks 32 32) refl refl refl refl (omega arith, omega arith) (blanks-AreFrom 0 32)
      (omega arith) (omega (arith, length-blanks 1 31)) (omega (arith, length-blanks 1 31))
