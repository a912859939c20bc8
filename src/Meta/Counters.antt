-- ===== src/Meta/Counters.antt =====
-- Inode numbers: `lightfs_next_ino` and the counters that `lightfs_fill_super` sets, of
-- kevinfs/lightfs_super.c, and `lightfs_bstore_update_ino` of kevinfs/lightfs_bstore.c. What the store
-- answers is a parameter, as is the order of the bytes of an `ino_t`.
use kevin.Base.{
  ℕ, zero, ◌+◌, ◌*◌, ◌%◌, ◌^◌, List, [], ◌∷◌, Option, none, some, true, false, ◌==◌, leb, ltb,
  if◌then◌else◌, ℤ, pos, Outcome, done, bug, ◌>>=◌,
}
use kevin.Key.{Dbt, dbt_setup}
use kevin.Txn.{DbTxn, lightfs_txn_init, meta_set}
use kevin.Txn.Insert.{lightfs_bstore_txn_insert}
use kevin.Cache.{upd}

-- `struct lightfs_info` of one processor.
pub record LightfsInfo : Type 0 where
  pub next_ino : ℕ
  pub max_ino : ℕ

-- The fields of `struct lightfs_sb_info` that the counters are in.
pub record SbInfo : Type 0 where
  pub s_nr_cpus : ℕ
  pub s_lightfs_info : ℕ → LightfsInfo

-- The bytes of an `ino_t` in memory, and back.
pub record InoBytes : Type 0 where
  pub bytes : ℕ → List ℕ
  pub value : List ℕ → ℕ

abbrev pub u64 : ℕ
u64 = 2 ^ 64

abbrev pub lightfs_ino_max : ℕ
lightfs_ino_max = 1000000000000

-- `ino_key`, with its closing zero.
abbrev pub ino_key : Dbt
ino_key =
    dbt_setup
      (109 ∷ 0 ∷ 0 ∷ 0 ∷ 0 ∷ 0 ∷ 0 ∷ 0 ∷ 0 ∷ 110 ∷ 101 ∷ 120 ∷ 116 ∷ 95 ∷ 105 ∷ 110 ∷ 111 ∷ 0 ∷ [])
      18

-- What `lightfs_fill_super` sets for a processor, from LIGHTFS_INO_CUR on.
abbrev pub first_info : ℕ → LightfsInfo
first_info cpu = record { next_ino = (1 + cpu) % u64; max_ino = lightfs_ino_max }

-- Its loop over the possible processors, whose numbers may have gaps.
unfoldable pub fill_cpus : SbInfo → List ℕ → SbInfo
fill_cpus sbi [] = sbi
fill_cpus sbi (cpu ∷ possible) =
    fill_cpus
      (record {
        s_nr_cpus = (sbi.s_nr_cpus + 1) % 2 ^ 32;
        s_lightfs_info = upd sbi.s_lightfs_info cpu (first_info cpu);
      })
      possible

-- The counters after `lightfs_fill_super`; `alloc_percpu` gives zeros.
unfoldable pub fill_super_info : List ℕ → SbInfo
fill_super_info possible =
    fill_cpus (record { s_nr_cpus = 0; s_lightfs_info = λ _. record { next_ino = 0; max_ino = 0 } })
      possible

module _ (order : InoBytes) (get : Dbt → Dbt → ℤ × Dbt) (page : List ℕ) where
  -- `lightfs_bstore_update_ino`; `old` is what `curr_ino` holds before it is read.
  unfoldable pub lightfs_bstore_update_ino : List ℕ → DbTxn → ℕ → DbTxn × ℤ
  lightfs_bstore_update_ino old txn ino =
      let answer = get ino_key (dbt_setup old 8) in
      elim answer.0 [
        | pos zero ↦
            if ltb (order.value answer.1.buf) ino
            then (
              lightfs_bstore_txn_insert txn ino_key (some (dbt_setup (order.bytes ino) 8)) page 0
                  meta_set,
              pos 0,
            )
            else (txn, pos 0)
        | other ↦ (txn, other)
      ]

  -- `DBOP_JUMP_ON_CONFLICT` does not jump: the store never answers with a conflict.
  -- `lightfs_next_ino` on a processor: the counters, the number, and the transaction it committed.
  unfoldable pub lightfs_next_ino : List ℕ → SbInfo → ℕ → Outcome (SbInfo × ℕ × Option DbTxn)
  lightfs_next_ino old sbi cpu =
      let info = sbi.s_lightfs_info cpu in
      let stepped = (info.next_ino + sbi.s_nr_cpus) % u64 in
      let new_max = (info.max_ino + sbi.s_nr_cpus * 1000) % u64 in
      elim (leb info.max_ino info.next_ino) [
        | false ↦ done (
          record sbi {
            s_lightfs_info = upd sbi.s_lightfs_info cpu (record info { next_ino = stepped });
          },
          info.next_ino,
          none,
        )
        | true ↦
            let grown = record sbi {
              s_lightfs_info =
                  upd sbi.s_lightfs_info cpu (record { next_ino = stepped; max_ino = new_max });
            } in
            elim (new_max == 0) [
              | true ↦ done (grown, info.next_ino, none)
              | false ↦
                  let (txn, ret) = lightfs_bstore_update_ino old lightfs_txn_init new_max in
                  elim ret [ pos zero ↦ done (grown, info.next_ino, some txn) | other ↦ bug ]
            ]
      ]

  -- Calls on the processors of a list, in this order: the counters and the numbers.
  unfoldable pub next_inos : List ℕ → SbInfo → List ℕ → Outcome (SbInfo × List ℕ)
  next_inos old sbi [] = done (sbi, [])
  next_inos old sbi (cpu ∷ cpus) = do
    (sbi, ino, _) ← lightfs_next_ino old sbi cpu
    (sbi, inos) ← next_inos old sbi cpus
    done (sbi, ino ∷ inos)
