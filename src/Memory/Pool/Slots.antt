-- ===== src/Memory/Pool/Slots.antt =====
-- Which slots of a `PoolAllocator` of include/novaboot/memory/pool_allocator.h are in use.
use novaboot.Base.{
  ℕ, zero, suc, ◌+◌, ◌*◌, ◌≤◌, ◌<◌, ◌≡◌, refl, inl, inr, ◌↔◌, List, [], ◌∷◌, ◌++◌, Option, none,
  some, if◌then◌else◌, leb, ◌==◌, ==_iff, length, length-append, arith, Bool-cases,
}
use mathlib.Core.Path.{subst}
use novaboot.Memory.Pool.{Pool, slot_size, chain, new_pool, take_head, allocate, deallocate}

-- How often an address stands in a list.
abbrev pub times : ℕ → List ℕ → ℕ
times p [] = 0
times p (q ∷ qs) = let rest = times p qs in if q == p then 1 + rest else rest

times-append : (p : ℕ) (xs ys : List ℕ) → times p (xs ++ ys) ≡ times p xs + times p ys
times-append p [] ys = omega arith
times-append p (x ∷ xs) ys = ground (arith, times-append p xs ys)

-- The pool with the pointers that are in use.
pub record Users : Type 0 where
  pub pool : Pool
  pub live : List ℕ

abbrev pub using : Option ℕ → List ℕ → List ℕ
using none live = live
using (some p) live = p ∷ live

-- An allocation, or the return of a pointer that is in use.
pub data Step : Users → Users → Type 0 where
  allocates :
      (u : Users)
      → Step u (record { pool = (allocate u.pool).0; live = using (allocate u.pool).1 u.live })
  returns :
      (pool : Pool) (before : List ℕ) (ptr : ℕ) (after : List ℕ)
      → Step
          (record { pool = pool; live = before ++ ptr ∷ after })
          (record { pool = deallocate ptr pool; live = before ++ after })

pub data Runs (start : Pool) : Users → Type 0 where
  starts : Runs start (record { pool = start; live = [] })
  then_step : {u v : Users} → Runs start u → Step u v → Runs start v

-- Every slot is free or in use, and not both; the counters agree.
abbrev pub Split : Pool → Users → Type 0
Split start u =
    ((p : ℕ) → times p u.pool.free_head + times p u.live ≡ times p start.free_head)
    × (u.pool.in_use ≡ length u.live)
    × (length u.pool.free_head + length u.live ≡ length start.free_head)
    × (u.pool.capacity ≡ start.capacity)

-- An address that moves from the free slots to those in use.
moved :
    (p node : ℕ) (next live : List ℕ) (n : ℕ)
    → times p (node ∷ next) + times p live ≡ n
    → times p next + times p (node ∷ live) ≡ n
moved p node next live n e = ground arith

allocate-Split :
    (start pool : Pool) (live free : List ℕ)
    → pool.free_head ≡ free
    → Split start (record { pool = pool; live = live })
    → Split start
        (record { pool = (take_head pool free).0; live = using (take_head pool free).1 live })
allocate-Split start pool live [] e s = s
allocate-Split start pool live (node ∷ next) e (slots, used, all, cap) =
    let (slots', all') =
      subst
        (λ free.
          ((p : ℕ) → times p free + times p live ≡ times p start.free_head)
          × (length free + length live ≡ length start.free_head))
        e (slots, all) in
    (
      λ p. moved p node next live (times p start.free_head) (slots' p),
      omega arith,
      omega arith,
      cap,
    )

moved_back :
    (p ptr : ℕ) (before after free : List ℕ) (n : ℕ)
    → times p free + times p (before ++ ptr ∷ after) ≡ n
    → times p (ptr ∷ free) + times p (before ++ after) ≡ n
moved_back p ptr before after free n e =
    let with_it = times-append p before (ptr ∷ after) in
    let without = times-append p before after in
    elim (Bool-cases (ptr == p)) [
      | inl this ↦
          let one_more = rw this at with_it in rw this (omega (arith, one_more, without, e))
      | inr other ↦
          let none_more = rw other at with_it in rw other (omega (arith, none_more, without, e))
    ]

deallocate-Split :
    (start pool : Pool) (before : List ℕ) (ptr : ℕ) (after : List ℕ)
    → Split start (record { pool = pool; live = before ++ ptr ∷ after })
    → Split start (record { pool = deallocate ptr pool; live = before ++ after })
unfolding deallocate
deallocate-Split start pool before ptr after (slots, used, all, cap) = (
  λ p. moved_back p ptr before after pool.free_head (times p start.free_head) (slots p),
  omega (arith, length-append before (ptr ∷ after), length-append before after),
  omega (arith, length-append before (ptr ∷ after), length-append before after),
  cap,
)

some-injective : {a b : Pool} → some a ≡ some b → a ≡ b
some-injective e = cc e

Step-Split : (start : Pool) (u v : Users) → Split start u → Step u v → Split start v
Step-Split start u v s (allocates _) =
    unfold allocate in allocate-Split start u.pool u.live u.pool.free_head refl s
Step-Split start u v s (returns pool before ptr after) =
    deallocate-Split start pool before ptr after s

Runs-Split : (start : Pool) (u : Users) → start.in_use ≡ 0 → Runs start u → Split start u
Runs-Split start u none_used starts = (λ p. omega arith, none_used, omega arith, refl)
Runs-Split start u none_used (then_step {u = before} r step) =
    Step-Split start before u (Runs-Split start before none_used r) step

-- The chained slots are as many as the capacity, and differ.
length-chain :
    (storage slot capacity : ℕ) (free : List ℕ)
    → length (chain storage slot capacity free) ≡ capacity + length free
unfolding chain
length-chain storage slot zero free = omega arith
length-chain storage slot (suc i) free =
    omega (arith, length-chain storage slot i ((storage + i * slot) ∷ free))

times-lowest :
    (x p : ℕ) (free : List ℕ)
    → times p free ≤ 1
    → (1 ≤ times p free → x < p)
    → (times p (x ∷ free) ≤ 1) × (1 ≤ times p (x ∷ free) → x ≤ p)
times-lowest x p free one above = elim (Bool-cases (x == p)) [
  | inl this ↦ elim (Bool-cases (leb 1 (times p free))) [
    | inl there ↦ absurd (omega (arith, above (ground arith), (==_iff x p).0 this))
    | inr nowhere ↦ rw this (ground arith, λ h. omega (arith, (==_iff x p).0 this))
  ]
  | inr other ↦ rw other (one, λ h. omega (arith, above h))
]

times-chain :
    (storage slot capacity p : ℕ) (free : List ℕ)
    → 1 ≤ slot
    → times p free ≤ 1
    → (1 ≤ times p free → storage + capacity * slot ≤ p)
    → times p (chain storage slot capacity free) ≤ 1
unfolding chain
times-chain storage slot zero p free positive one above = one
times-chain storage slot (suc i) p free positive one above =
    let next : suc i * slot ≡ i * slot + slot = grind arith in
    let (one_still, above_still) =
      times-lowest (storage + i * slot) p free one (λ h. omega (arith, above h, next)) in
    times-chain storage slot i p ((storage + i * slot) ∷ free) positive one_still above_still

new_pool-slots :
    (size_of align_of capacity : ℕ) (mapped : Option ℕ) (start : Pool)
    → 1 ≤ slot_size size_of align_of
    → new_pool size_of align_of capacity mapped ≡ some start
    → (start.in_use ≡ 0)
      × (start.capacity ≡ capacity)
      × (length start.free_head ≡ capacity)
      × ((p : ℕ) → times p start.free_head ≤ 1)
unfolding new_pool
new_pool-slots size_of align_of capacity none start positive e = absurd (cc e)
new_pool-slots size_of align_of capacity (some storage) start positive e =
    let made = some-injective e in
    rw (← made) (
      refl,
      refl,
      omega (arith, length-chain storage (slot_size size_of align_of) capacity []),
      λ p.
          times-chain storage (slot_size size_of align_of) capacity p [] positive (omega arith)
            (λ h. absurd (omega arith)),
    )

take_head-none : (p : Pool) (free : List ℕ) → ((take_head p free).1 ≡ none) ↔ (length free ≡ 0)
take_head-none p [] = (λ e. refl, λ e. refl)
take_head-none p (node ∷ next) = (λ e. absurd (cc e), λ e. absurd (omega arith))

allocate-none : (p : Pool) → ((allocate p).1 ≡ none) ↔ (length p.free_head ≡ 0)
unfolding allocate
allocate-none p = take_head-none p p.free_head

-- However a new pool is used, no slot is in use twice; the pool counts the slots in use, and an
-- allocation fails exactly when as many are in use as the capacity.
pub Runs-new_pool :
    (size_of align_of capacity : ℕ) (mapped : Option ℕ) (start : Pool) (u : Users)
    → 1 ≤ slot_size size_of align_of
    → new_pool size_of align_of capacity mapped ≡ some start
    → Runs start u
    → ((p : ℕ) → times p u.live ≤ 1)
      × (u.pool.in_use ≡ length u.live)
      × (((allocate u.pool).1 ≡ none) ↔ (length u.live ≡ capacity))
Runs-new_pool size_of align_of capacity mapped start u positive e r =
    let (fresh, cap, size, once) =
      new_pool-slots size_of align_of capacity mapped start positive e in
    let (slots, used, all, same_cap) = Runs-Split start u fresh r in
    (
      λ p. omega (arith, slots p, once p),
      used,
      (
        λ n. omega (arith, (allocate-none u.pool).0 n),
        λ full. (allocate-none u.pool).1 (omega arith),
      ),
    )
