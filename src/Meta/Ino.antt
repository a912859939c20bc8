-- ===== src/Meta/Ino.antt =====
-- The numbers that the calls of `lightfs_next_ino` in kevinfs/lightfs_super.c give are all different.
use kevin.Base.{
  ℕ, zero, suc, ◌+◌, ◌*◌, ◌%◌, ◌^◌, ◌≤◌, ◌<◌, List, [], ◌∷◌, none, true, false, ◌==◌, leb, ℤ, done,
  ◌≡◌, ◌≢◌, refl, sym, ap, subst, ◌∙◌, arith, length, All, Bool-cases, inl, inr,
}
use kevin.Key.{Dbt}
use kevin.Queue.Order.{occurs}
use kevin.Cache.{upd}
use kevin.Cache.Table.{upd-rule}
use kevin.Meta.Counters.{
  LightfsInfo, SbInfo, InoBytes, u64, lightfs_ino_max, first_info, fill_cpus, fill_super_info,
  lightfs_next_ino, next_inos,
}

-- The numbers of one processor: `n` apart, from `a`.
steps : ℕ → ℕ → ℕ → ℕ
steps a n zero = a
steps a n (suc k) = steps a n k + n

le-steps : (a n k : ℕ) → a ≤ steps a n k
unfolding steps
le-steps a n zero = omega arith
le-steps a n (suc k) = omega (arith, le-steps a n k)

steps-suc : (a n k : ℕ) → steps a n k + n ≡ steps a n (suc k)
unfolding steps
steps-suc a n k = refl

steps-zero : (a n : ℕ) → a ≡ steps a n zero
unfolding steps
steps-zero a n = refl

steps-mul : (a n k : ℕ) → steps a n k ≡ a + n * k
unfolding steps
steps-mul a n zero = grind arith
steps-mul a n (suc k) = grind (arith, steps-mul a n k)

steps-add : (a n k : ℕ) → steps (a + n) n k ≡ steps a n k + n
unfolding steps
steps-add a n zero = refl
steps-add a n (suc k) = omega (arith, steps-add a n k)

-- What a counter has room for, after one call and with fewer calls to come.
one_more :
    (i n room left : ℕ)
    → room ≡ suc left
    → i + n * room ≤ lightfs_ino_max
    → i + n + n * left ≤ lightfs_ino_max
one_more i n room left e le = omega (arith, steps-mul i n room, steps-mul (i + n) n left, shifted)
  where
    shifted : steps i n room ≡ steps (i + n) n left
    shifted = ap (steps i n) e ∙ sym (steps-suc i n left) ∙ sym (steps-add i n left)

fewer :
    (i n room left : ℕ)
    → left ≤ room
    → i + n * room ≤ lightfs_ino_max
    → i + n * left ≤ lightfs_ino_max
fewer i n room left less le = grind (arith, less, le)

occurs_here : (i : ℕ) (is : List ℕ) → occurs i (i ∷ is) ≡ suc (occurs i is)
unfolding occurs
occurs_here i is = ground arith

occurs_less : (i j : ℕ) (is : List ℕ) → occurs i is ≤ occurs i (j ∷ is)
unfolding occurs
occurs_less i j is = ground arith

kept :
    (given : ℕ → ℕ) (cpu a : ℕ) → (a == cpu) ≡ false → given a ≡ upd given cpu (suc (given cpu)) a
kept given cpu a ne = ground arith

-- No two processors share a number, and no processor has one twice.
steps_inj :
    (n a b m k : ℕ) → a < n → b < n → steps (1 + a) n m ≡ steps (1 + b) n k → (a ≡ b) × (m ≡ k)
unfolding steps
steps_inj n a b zero zero la lb e = (omega arith, refl)
steps_inj n a b zero (suc k) la lb e = absurd (omega (arith, le-steps (1 + b) n k))
steps_inj n a b (suc m) zero la lb e = absurd (omega (arith, le-steps (1 + a) n m))
steps_inj n a b (suc m) (suc k) la lb e =
    let (p, q) = steps_inj n a b m k la lb (omega arith) in (p, ap suc q)

used :
    (n : ℕ) (given : ℕ → ℕ) (b a m : ℕ)
    → a < n
    → b < n
    → m < given a
    → steps (1 + b) n (given b) ≢ steps (1 + a) n m
used n given b a m la lb lm e =
    let (p, q) = steps_inj n b a (given b) m lb la e in absurd (omega (arith, lm, ap given p, q))

abbrev pub Nodup : List ℕ → Type 0
Nodup [] = Unit
Nodup (i ∷ is) = All (λ j. j ≢ i) is × Nodup is

-- The loop counts the processors and leaves each of them with its first number.
fill_nr_cpus :
    (possible : List ℕ) (sbi : SbInfo)
    → sbi.s_nr_cpus + length possible < 2 ^ 32
    → (fill_cpus sbi possible).s_nr_cpus ≡ sbi.s_nr_cpus + length possible
unfolding fill_cpus
fill_nr_cpus [] sbi small = omega arith
fill_nr_cpus (cpu ∷ possible) sbi small =
    let s : SbInfo = record {
      s_nr_cpus = (sbi.s_nr_cpus + 1) % 2 ^ 32;
      s_lightfs_info = upd sbi.s_lightfs_info cpu (first_info cpu);
    } in
    let one : s.s_nr_cpus ≡ sbi.s_nr_cpus + 1 = omega (arith, small) in
    omega (arith, fill_nr_cpus possible s (omega (arith, small, one)), one)

fill_keeps :
    (possible : List ℕ) (sbi : SbInfo) (a : ℕ)
    → sbi.s_lightfs_info a ≡ first_info a
    → (fill_cpus sbi possible).s_lightfs_info a ≡ first_info a
unfolding fill_cpus
fill_keeps [] sbi a e = e
fill_keeps (cpu ∷ possible) sbi a e = fill_keeps possible _ a (
    upd-rule (λ a i. sbi.s_lightfs_info a ≡ first_info a → i ≡ first_info a) sbi.s_lightfs_info cpu
      (first_info cpu) (λ _. refl) (λ a _ h. h) a e)

fill_at :
    (possible : List ℕ) (sbi : SbInfo) (a : ℕ)
    → 0 < occurs a possible
    → (fill_cpus sbi possible).s_lightfs_info a ≡ first_info a
unfolding fill_cpus occurs
fill_at [] sbi a has = absurd (omega arith)
fill_at (cpu ∷ possible) sbi a has = elim (Bool-cases (a == cpu)) [
  | inl here ↦ fill_keeps possible _ a (
      upd-rule (λ a i. (a == cpu) ≡ true → i ≡ first_info a) sbi.s_lightfs_info cpu (first_info cpu)
        (λ _. refl) (λ a ne e. absurd (ground (arith, ne, e))) a here)
  | inr there ↦ fill_at possible _ a (ground (arith, has, there))
]

-- Each possible processor `a` has given out `given a` numbers and may give out `room a` more.
record Counts (Possible : ℕ → Type 0) (n : ℕ) (given room : ℕ → ℕ) (sbi : SbInfo) : Type 0 where
  cpus : sbi.s_nr_cpus ≡ n
  at : (a : ℕ) → Possible a → (sbi.s_lightfs_info a).next_ino ≡ steps (1 + a) n (given a)
  low : (a : ℕ) → Possible a → (sbi.s_lightfs_info a).next_ino + n * room a ≤ lightfs_ino_max
  max : (a : ℕ) → Possible a → (sbi.s_lightfs_info a).max_ino ≡ lightfs_ino_max

module _ (order : InoBytes) (get : Dbt → Dbt → ℤ × Dbt) (page old : List ℕ) (n : ℕ)
    (Possible : ℕ → Type 0) (below : (a : ℕ) → Possible a → a < n) where
  -- One call below the limit.
  one_call :
      (given room left : ℕ → ℕ) (sbi : SbInfo) (cpu : ℕ)
      → Counts Possible n given room sbi
      → Possible cpu
      → room cpu ≡ suc (left cpu)
      → ((a : ℕ) → left a ≤ room a)
      → (s : SbInfo) × (lightfs_next_ino order get page old sbi cpu
          ≡ done (s, (sbi.s_lightfs_info cpu).next_ino, none))
        × Counts Possible n (upd given cpu (suc (given cpu))) left s
  unfolding lightfs_next_ino
  one_call given room left sbi cpu h pc takes less =
      let lc = below cpu pc in
      let info = sbi.s_lightfs_info cpu in
      let info' : LightfsInfo = record info { next_ino = (info.next_ino + sbi.s_nr_cpus) % u64 } in
      let s : SbInfo = record sbi { s_lightfs_info = upd sbi.s_lightfs_info cpu info' } in
      let fits : info.next_ino + n + n * left cpu ≤ lightfs_ino_max =
        one_more info.next_ino n (room cpu) (left cpu) takes (h.low cpu pc) in
      let smaller : info.next_ino + n ≤ lightfs_ino_max = omega (arith, fits) in
      let below_max : leb info.max_ino info.next_ino ≡ false =
        ground (arith, h.max cpu pc, smaller, lc) in
      let stepped : info'.next_ino ≡ info.next_ino + n = omega (arith, smaller, h.cpus) in
      let more : suc (given cpu) ≡ upd given cpu (suc (given cpu)) cpu = ground arith in
      let here : info'.next_ino ≡ steps (1 + cpu) n (upd given cpu (suc (given cpu)) cpu) =
        stepped
        ∙ ap (λ i. i + n) (h.at cpu pc)
        ∙ steps-suc (1 + cpu) n (given cpu)
        ∙ ap (steps (1 + cpu) n) more in
      let there : (a : ℕ) → (a == cpu) ≡ false → given a ≡ upd given cpu (suc (given cpu)) a =
        λ a ne. kept given cpu a ne in
      (
        s,
        ground (arith, below_max),
        record {
          cpus = h.cpus;
          at =
              upd-rule
                (λ a i.
                  Possible a → i.next_ino ≡ steps (1 + a) n (upd given cpu (suc (given cpu)) a))
                sbi.s_lightfs_info cpu info' (λ _. here)
                (λ a ne pa. h.at a pa ∙ ap (steps (1 + a) n) (there a ne));
          low =
              upd-rule (λ a i. Possible a → i.next_ino + n * left a ≤ lightfs_ino_max)
                sbi.s_lightfs_info cpu info' (λ _. omega (arith, stepped, fits))
                (λ a _ pa.
                  fewer (sbi.s_lightfs_info a).next_ino n (room a) (left a) (less a) (h.low a pa));
          max =
              upd-rule (λ a i. Possible a → i.max_ino ≡ lightfs_ino_max) sbi.s_lightfs_info cpu
                info' (λ _. h.max cpu pc) (λ a _ pa. h.max a pa);
        },
      )

  -- A run below the limit gives numbers that no earlier call gave.
  run_lem :
      (cpus : List ℕ) (given : ℕ → ℕ) (sbi : SbInfo)
      → Counts Possible n given (λ a. occurs a cpus) sbi
      → All Possible cpus
      → (s : SbInfo) × (inos : List ℕ) × (next_inos order get page old sbi cpus ≡ done (s, inos))
        × (length inos ≡ length cpus)
        × Nodup inos
        × ((a m : ℕ) → Possible a → m < given a → All (λ i. i ≢ steps (1 + a) n m) inos)
  unfolding next_inos
  run_lem [] given sbi h all = (sbi, [], refl, refl, tt, λ a m pa lm. tt)
  run_lem (cpu ∷ cpus) given sbi h all =
      let (s, run, h') =
        one_call given (λ a. occurs a (cpu ∷ cpus)) (λ a. occurs a cpus) sbi cpu h all.0
          (occurs_here cpu cpus) (λ a. occurs_less a cpu cpus) in
      let given' = upd given cpu (suc (given cpu)) in
      let (s', inos, run', len, once, fresh) = run_lem cpus given' s h' all.1 in
      let ino = (sbi.s_lightfs_info cpu).next_ino in
      let grows : (a : ℕ) → given a ≤ given' a =
        upd-rule (λ a k. given a ≤ k) given cpu (suc (given cpu)) (omega arith)
          (λ a _. omega arith) in
      let more : suc (given cpu) ≡ given' cpu = ground arith in
      (
        s',
        ino ∷ inos,
        ground (arith, run, run'),
        ap suc len,
        (
          subst (λ k. All (λ j. j ≢ k) inos) (sym (h.at cpu all.0))
              (fresh cpu (given cpu) all.0 (omega (arith, more))),
          once,
        ),
        λ a m pa lm. (
          λ e.
              absurd
                (used n given cpu a m (below a pa) (below cpu all.0) lm (sym (h.at cpu all.0) ∙ e)),
          fresh a m pa (omega (arith, grows a, lm)),
        ),
      )

-- After `lightfs_fill_super`, calls of `lightfs_next_ino` on possible processors, in any order, end
-- and give numbers that are pairwise different, one for each call, when the numbers of the possible
-- processors are all below how many there are (so that they have no gaps), this fits 32 bits, and the
-- calls take no processor's counter past LIGHTFS_INO_MAX: it starts at 1 and the processor's number,
-- and each call on the processor adds how many processors are possible.
pub next_inos-Nodup :
    (order : InoBytes) (get : Dbt → Dbt → ℤ × Dbt) (page old : List ℕ) (possible cpus : List ℕ)
    → length possible < 2 ^ 32
    → ((a : ℕ) → 0 < occurs a possible → a < length possible)
    → All (λ a. 0 < occurs a possible) cpus
    → ((a : ℕ) → 0 < occurs a possible → 1 + a + length possible * occurs a cpus ≤ lightfs_ino_max)
    → (s : SbInfo) × (inos : List ℕ) × (next_inos order get page old (fill_super_info possible) cpus
        ≡ done (s, inos))
      × (length inos ≡ length cpus)
      × Nodup inos
unfolding fill_super_info
next_inos-Nodup order get page old possible cpus few dense on_possible room =
    let n = length possible in
    let info : (a : ℕ)
        → 0 < occurs a possible
        → (fill_super_info possible).s_lightfs_info a ≡ first_info a =
      λ a pa. fill_at possible _ a pa in
    let begins : (a : ℕ)
        → 0 < occurs a possible
        → ((fill_super_info possible).s_lightfs_info a).next_ino ≡ 1 + a =
      λ a pa. ap (λ i. i.next_ino) (info a pa) ∙ omega (arith, dense a pa, few) in
    let start : Counts (λ a. 0 < occurs a possible) n (λ _. 0) (λ a. occurs a cpus)
        (fill_super_info possible) =
      record {
        cpus = fill_nr_cpus possible _ (omega (arith, few)) ∙ omega arith;
        at = λ a pa. begins a pa ∙ steps-zero (1 + a) n;
        low = λ a pa. omega (arith, begins a pa, room a pa);
        max = λ a pa. ap (λ i. i.max_ino) (info a pa);
      } in
    let (s, inos, run, len, once, _) =
      run_lem order get page old n (λ a. 0 < occurs a possible) dense cpus (λ _. 0)
        (fill_super_info possible) start on_possible in
    (s, inos, run, len, once)
