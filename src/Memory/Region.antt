-- ===== src/Memory/Region.antt =====
-- Ranges of addresses, and the pages that the operating system maps.
use novaboot.Base.{
  ℕ, ◌+◌, ◌-◌, ◌*◌, ◌/◌, ◌%◌, ◌^◌, ◌≤◌, ◌<◌, ◌≡◌, ◌⊎◌, inl, inr, List, [], ◌∷◌, ◌++◌, arith, All,
  Exists,
}
use native.Mathlib.Nat.{
  mod-lt, div-add-mod, mul-mod_right, mod-eq-zero_of_dvd, dvd_of_mod-eq-zero, dvd_trans,
}

pub record Region : Type 0 where
  pub start : ℕ
  pub size : ℕ

abbrev pub Inside : Region → Region → Type 0
Inside x r = (r.start ≤ x.start) × (x.start + x.size ≤ r.start + r.size)

abbrev pub Apart : Region → Region → Type 0
Apart x y = (x.start + x.size ≤ y.start) ⊎ (y.start + y.size ≤ x.start)

abbrev pub total : List Region → ℕ
total [] = 0
total (r ∷ rs) = r.size + total rs

pub total-append : (rs qs : List Region) → total (rs ++ qs) ≡ total rs + total qs
total-append [] qs = omega arith
total-append (r ∷ rs) qs = omega (arith, total-append rs qs)

-- What lies inside one of the regions is apart from whatever is apart from all of them.
pub Inside-Apart :
    (x y : Region) (rs : List Region) → Exists (Inside x) rs → All (Apart y) rs → Apart x y
Inside-Apart x y [] e a = absurd e
Inside-Apart x y (r ∷ rs) (inl i) (a, as') = omega arith
Inside-Apart x y (r ∷ rs) (inr e) (a, as') = Inside-Apart x y rs e as'

-- `(n + 4095) & ~4095` on 64 bits.
unfoldable pub round_page : ℕ → ℕ
round_page n = let y = (n + 4095) % 2 ^ 64 in y - y % 4096

-- `(address + alignment - 1) & ~(alignment - 1)` on 64 bits; the alignment is a power of two, so
-- the mask clears the remainder.
unfoldable pub align_up : ℕ → ℕ → ℕ
align_up x alignment = let y = (x + alignment - 1) % 2 ^ 64 in y - y % alignment

pub round_page_bounds : (n : ℕ) → 0 < n → n < 2 ^ 64 → (round_page n ≡ 0) ⊎ (n ≤ round_page n)
unfolding round_page
round_page_bounds n p q = omega arith

pub align_up_bounds :
    (x a : ℕ) → 0 < a → x + a ≤ 2 ^ 64 → (x ≤ align_up x a) × (align_up x a < x + a)
unfolding align_up
align_up_bounds x a p q =
    let exact : (x + a - 1) % 2 ^ 64 ≡ x + a - 1 = omega arith in
    rw exact (omega (arith, mod-lt (x + a - 1) p))

pub mod-align_up : (x a : ℕ) → align_up x a % a ≡ 0
unfolding align_up
mod-align_up x a =
    let y : ℕ = (x + a - 1) % 2 ^ 64 in
    let multiple : y - y % a ≡ a * (y / a) = omega (arith, div-add-mod y a) in
    rw multiple (mul-mod_right a (y / a))

-- Page boundaries have every alignment that divides a page.
pub mod_of_page : (p a : ℕ) → p % 4096 ≡ 0 → 4096 % a ≡ 0 → p % a ≡ 0
mod_of_page p a h k =
    mod-eq-zero_of_dvd a (dvd_trans a (dvd_of_mod-eq-zero a k) (dvd_of_mod-eq-zero 4096 h))
