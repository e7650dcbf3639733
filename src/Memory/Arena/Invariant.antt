-- ===== src/Memory/Arena/Invariant.antt =====
-- Allocations never overlap, are aligned, and lie in mapped memory.
use novaboot.Base.{
  ℕ, ◌+◌, ◌-◌, ◌%◌, ◌^◌, ◌≤◌, ◌<◌, ◌≡◌, ◌⊎◌, inl, inr, List, [], ◌∷◌, ◌++◌, Option, some, none,
  arith, ltb, leb, All, All-map, All-append, Last, Last-Exists, Last-append, Last-map, Exists,
  Exists-map, Exists-append_left, Exists-append_right, Bool-cases, Option-cases,
}
use mathlib.Core.Path.{subst}
use novaboot.Memory.Region.{
  Region, Inside, Apart, Inside-Apart, round_page, align_up, round_page_bounds, align_up_bounds,
  mod-align_up, mod_of_page,
}
use novaboot.Memory.Arena.{
  Arena, large_alloc_threshold, ◌>>=◌, allocate_new_block, allocate_large, allocate_small, bump,
  at_least_one, do_allocate,
}

-- The end of the user's address space.
abbrev pub space : ℕ
space = 2 ^ 47

-- What `mmap` is documented to return: whole pages in the user's address space, apart from all that
-- is mapped already; a request for no bytes fails.
pub record MapsFresh (mmap : ℕ → Option ℕ) (a : Arena) : Type 0 where
  pub nonempty : mmap 0 ≡ none
  pub on_page : (size start : ℕ) → mmap size ≡ some start → start % 4096 ≡ 0
  pub in_space : (size start : ℕ) → mmap size ≡ some start → start + size ≤ space
  pub apart_blocks :
      (size start : ℕ)
      → mmap size ≡ some start
      → All (Apart (record { start = start; size = size })) a.blocks
  pub apart_large :
      (size start : ℕ)
      → mmap size ≡ some start
      → All (Apart (record { start = start; size = size })) a.large_allocs

-- The part of the current block that is still free.
abbrev pub free_part : Arena → Region
free_part a = record { start = a.current_ptr; size = a.current_end - a.current_ptr }

abbrev pub Mapped : (Region → Type 0) → Arena → Type 0
Mapped P a = Exists P a.blocks ⊎ Exists P a.large_allocs

-- A live allocation lies in mapped memory and not in the free part.
abbrev pub Held : Arena → Region → Type 0
Held a x = Mapped (Inside x) a × Apart x (free_part a)

-- `live` are the allocations made since the last reset.
pub record Inv (a : Arena) (live : List Region) : Type 0 where
  pub in_order : a.current_ptr ≤ a.current_end
  pub in_space : a.current_end ≤ space
  pub in_last : Last (Inside (free_part a)) a.blocks
  pub blocks_in_space : All (λ r. r.start + r.size ≤ space) a.blocks
  pub held : All (Held a) live

free_mapped : {a : Arena} {live : List Region} → Inv a live → Exists (Inside (free_part a)) a.blocks
free_mapped {a} inv = Last-Exists _ a.blocks inv.in_last

abbrev large_arena : ℕ → ℕ → Arena → Arena
large_arena size p a = record a {
  large_allocs = a.large_allocs ++ record { start = p; size = size } ∷ [];
}

abbrev block_arena : ℕ → Arena → Arena
block_arena p a = record a {
  blocks = a.blocks ++ record { start = p; size = a.block_size } ∷ [];
  current_ptr = p;
  current_end = p + a.block_size;
}

allocate_large-some :
    (mmap : ℕ → Option ℕ) (size : ℕ) (a : Arena) {p : ℕ} {a' : Arena}
    → allocate_large mmap size a ≡ some (p, a')
    → (mmap size ≡ some p) × (a' ≡ large_arena size p a)
unfolding allocate_large
allocate_large-some mmap size a e = ground arith

-- What an allocation of `n` bytes at `p` gives, whichever way it was made.
pub record Granted (a' : Arena) (live : List Region) (p n : ℕ) : Type 0 where
  pub kept : Inv a' (record { start = p; size = n } ∷ live)
  pub apart : All (Apart (record { start = p; size = n })) live

-- A bump within the current block.
bump-Granted :
    (b : Arena) (live : List Region) (n alignment : ℕ)
    → Inv b live
    → 0 < alignment
    → b.current_ptr + alignment ≤ 2 ^ 64
    → align_up b.current_ptr alignment + n ≤ b.current_end
    → Granted (bump n alignment b).1 live (bump n alignment b).0 n
unfolding bump
bump-Granted b live n alignment inv pos small fits =
    let (above, _) = align_up_bounds b.current_ptr alignment pos small in
    record {
      kept = record {
        in_order = fits;
        in_space = inv.in_space;
        in_last = Last-map _ _ (λ r i. omega arith) b.blocks inv.in_last;
        blocks_in_space = inv.blocks_in_space;
        held = (
          (inl (Exists-map _ _ (λ r i. omega arith) b.blocks (free_mapped inv)), omega arith),
          All-map _ _ (λ x h. (h.0, omega (arith, h.1))) live inv.held,
        );
      };
      apart = All-map _ _ (λ x h. omega (arith, h.1)) live inv.held;
    }

Granted-bump :
    (b a' : Arena) (live : List Region) (n alignment p : ℕ)
    → Inv b live
    → 0 < alignment
    → alignment ≤ 2 ^ 63
    → align_up b.current_ptr alignment + n ≤ b.current_end
    → some (bump n alignment b) ≡ some (p, a')
    → Granted a' live p n × (p % alignment ≡ 0)
Granted-bump b a' live n alignment p inv pos bound fits e =
    let same_result : bump n alignment b ≡ (p, a') = cc in
    subst (λ r. Granted r.1 live r.0 n × (r.0 % alignment ≡ 0)) same_result
      (
        bump-Granted b live n alignment inv pos (omega (arith, inv.in_order, inv.in_space)) fits,
        unfold bump in mod-align_up b.current_ptr alignment,
      )

module _ {mmap : ℕ → Option ℕ} {a : Arena} {live : List Region} (fresh : MapsFresh mmap a)
    (inv : Inv a live) where
  -- A region that `mmap` has just returned is apart from every live allocation.
  fresh_live :
      (size start : ℕ)
      → mmap size ≡ some start
      → All (λ x. Apart x (record { start = start; size = size })) live
  fresh_live size start e =
      All-map (Held a) _
        (λ x held. elim held.0 [
          | inl i ↦ Inside-Apart x _ a.blocks i (fresh.apart_blocks size start e)
          | inr i ↦ Inside-Apart x _ a.large_allocs i (fresh.apart_large size start e)
        ])
        live inv.held

  large_arena-Granted :
      (size n p : ℕ) → n ≤ size → mmap size ≡ some p → Granted (large_arena size p a) live p n
  large_arena-Granted size n p le e = record {
    kept = record {
      in_order = inv.in_order;
      in_space = inv.in_space;
      in_last = inv.in_last;
      blocks_in_space = inv.blocks_in_space;
      held = (new_held, All-map _ _ (λ x h. (grow x h.0, h.1)) live inv.held);
    };
    apart = All-map _ _ (λ x h. omega (arith, h)) live (fresh_live size p e);
  }
    where
      region : Region
      region = record { start = p; size = size }

      grow : (x : Region) → Mapped (Inside x) a → Mapped (Inside x) (large_arena size p a)
      grow x (inl i) = inl i
      grow x (inr i) = inr (Exists-append_left (Inside x) a.large_allocs (region ∷ []) i)

      new_held : Held (large_arena size p a) (record { start = p; size = n })
      new_held = (
        inr (Exists-append_right _ a.large_allocs (region ∷ []) (inl (omega arith))),
        omega (
          arith,
          Inside-Apart (free_part a) region a.blocks (free_mapped inv)
              (fresh.apart_blocks size p e),
        ),
      )

  block_arena-Inv : (p : ℕ) → mmap a.block_size ≡ some p → Inv (block_arena p a) live
  block_arena-Inv p e = record {
    in_order = omega arith;
    in_space = fresh.in_space a.block_size p e;
    in_last = Last-append _ a.blocks region (omega arith);
    blocks_in_space =
        All-append _ a.blocks (region ∷ []) inv.blocks_in_space
          (fresh.in_space a.block_size p e, tt);
    held = All-map _ _ settle live (both live inv.held (fresh_live a.block_size p e));
  }
    where
      region : Region
      region = record { start = p; size = a.block_size }

      grow : (x : Region) → Mapped (Inside x) a → Mapped (Inside x) (block_arena p a)
      grow x (inl i) = inl (Exists-append_left (Inside x) a.blocks (region ∷ []) i)
      grow x (inr i) = inr i

      settle : (x : Region) → Held a x × Apart x region → Held (block_arena p a) x
      settle x h = (grow x h.0.0, omega (arith, h.1))

      both :
          (xs : List Region)
          → All (Held a) xs
          → All (λ x. Apart x region) xs
          → All (λ x. Held a x × Apart x region) xs
      both [] h k = tt
      both (x ∷ xs) h k = ((h.0, k.0), both xs h.1 k.1)

  Granted-large :
      (size n p : ℕ) {a' : Arena}
      → (size ≡ 0) ⊎ (n ≤ size)
      → allocate_large mmap size a ≡ some (p, a')
      → Granted a' live p n × (p % 4096 ≡ 0)
  Granted-large size n p (inl z) e =
      let (mapped, _) = allocate_large-some mmap size a e in cc (z, fresh.nonempty, mapped)
  Granted-large size n p (inr le) e =
      let (mapped, same_arena) = allocate_large-some mmap size a e in
      rw same_arena (large_arena-Granted size n p le mapped, fresh.on_page size p mapped)

  Granted-new_block :
      (n alignment p : ℕ) {a' : Arena}
      → 0 < alignment
      → n + alignment ≤ a.block_size
      → alignment ≤ 2 ^ 63
      → (allocate_new_block mmap a >>= λ b. some (bump n alignment b)) ≡ some (p, a')
      → Granted a' live p n × (p % alignment ≡ 0)
  unfolding allocate_new_block
  Granted-new_block n al p {a'} pos room bound e = elim (Option-cases (mmap a.block_size)) [
    | inl failed ↦ absurd (cc (rw (failed, allocate_new_block) at e))
    | inr (q, mapped) ↦
        let block = block_arena-Inv q mapped in
        let above = align_up_bounds q al pos (omega (arith, block.in_order, block.in_space)) in
        Granted-bump (block_arena q a) a' live n al p block pos bound (omega (arith, above))
          (rw (mapped, allocate_new_block) at e)
  ]

  Granted-small :
      (n alignment p : ℕ) {a' : Arena}
      → 0 < n
      → n < 2 ^ 32
      → 0 < alignment
      → alignment ≤ 2 ^ 63
      → allocate_small mmap n alignment a ≡ some (p, a')
      → Granted a' live p n × (4096 % alignment ≡ 0 → p % alignment ≡ 0)
  unfolding allocate_small
  Granted-small n al p {a'} pos small apos abound e =
      elim (Bool-cases (ltb a.current_end (align_up a.current_ptr al + n))) [
        | inr fits ↦
            let g =
              Granted-bump a a' live n al p inv apos abound (ground arith)
                (rw (fits, allocate_small) at e) in
            (g.0, λ _. g.1)
        | inl full ↦ elim (Bool-cases (ltb a.block_size (n + al))) [
          | inl big ↦
              let g =
                Granted-large (round_page (n + al)) n p
                  (omega (arith, round_page_bounds (n + al) (omega arith) (omega arith)))
                  (rw (full, big, allocate_small) at e) in
              (g.0, mod_of_page p al g.1)
          | inr room ↦
              let g =
                Granted-new_block n al p apos (ground arith) abound
                  (rw (full, room, allocate_small) at e) in
              (g.0, λ _. g.1)
        ]
      ]

  -- In an arena with the invariant, and with mmap as documented, a successful allocation of fewer
  -- than 2^64 bytes with an alignment from 1 to 2^63 keeps the invariant: it lies in mapped memory,
  -- overlaps no live allocation, and has its alignment, where that divides the page size.
  pub do_allocate-Granted :
      (bytes alignment p : ℕ) {a' : Arena}
      → bytes < 2 ^ 64
      → 0 < alignment
      → alignment ≤ 2 ^ 63
      → do_allocate mmap bytes alignment a ≡ some (p, a')
      → Granted a' live p (at_least_one bytes) × (4096 % alignment ≡ 0 → p % alignment ≡ 0)
  unfolding do_allocate
  do_allocate-Granted bytes al p word apos abound e =
      elim (Bool-cases (leb large_alloc_threshold (at_least_one bytes))) [
        | inl large ↦
            let g =
              Granted-large (round_page (at_least_one bytes)) (at_least_one bytes) p
                (round_page_bounds (at_least_one bytes) (ground arith) (ground arith))
                (rw (large, do_allocate) at e) in
            (g.0, mod_of_page p al g.1)
        | inr small ↦
            Granted-small (at_least_one bytes) al p (ground arith) (ground arith) apos abound
              (rw (small, do_allocate) at e)
      ]
