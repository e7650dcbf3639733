-- ===== src/Middleware/Forwarded/Bits.antt =====
-- The comparison of address prefixes in src/middleware/trusted_forwarded_headers_middleware.cpp, held
-- to the bits of the addresses.
use novaboot.Base.{
  inl, inr, ℕ, zero, suc, ◌+◌, ◌-◌, ◌*◌, ◌/◌, ◌%◌, ◌≤◌, ◌<◌, ◌≡◌, refl, sym, ap, ◌∙◌, Bool, true,
  false, ◌&&◌, ◌↔◌, List, [], ◌∷◌, ◌++◌, if◌then◌else◌, leb, ◌==◌, arith, Text, same, length, take,
  take-append, All, Bool-cases,
}
use novaboot.Middleware.Forwarded.{masked, same_prefix}

-- The bits of a byte and of an address, the highest first.
abbrev pub bits : ℕ → List ℕ
bits b =
    b / 128 % 2
    ∷ b / 64 % 2
    ∷ b / 32 % 2
    ∷ b / 16 % 2
    ∷ b / 8 % 2
    ∷ b / 4 % 2
    ∷ b / 2 % 2
    ∷ b % 2
    ∷ []

abbrev pub address_bits : Text → List ℕ
address_bits [] = []
address_bits (b ∷ bytes) = bits b ++ address_bits bytes

masked_iff :
    (p a b : ℕ)
    → p ≤ 7
    → a < 256
    → b < 256
    → ((masked p a == masked p b) ≡ true) ↔ (take p (bits a) ≡ take p (bits b))
masked_iff zero a b few m n = (λ h. grind arith, λ h. grind arith)
masked_iff (suc zero) a b few m n = (λ h. grind arith, λ h. grind arith)
masked_iff (suc (suc zero)) a b few m n = (λ h. grind arith, λ h. grind arith)
masked_iff (suc (suc (suc zero))) a b few m n = (λ h. grind arith, λ h. grind arith)
masked_iff (suc (suc (suc (suc zero)))) a b few m n = (λ h. grind arith, λ h. grind arith)
masked_iff (suc (suc (suc (suc (suc zero))))) a b few m n = (λ h. grind arith, λ h. grind arith)
masked_iff (suc (suc (suc (suc (suc (suc zero)))))) a b few m n =
    (λ h. grind arith, λ h. grind arith)
masked_iff (suc (suc (suc (suc (suc (suc (suc zero))))))) a b few m n =
    (λ h. grind arith, λ h. grind arith)
masked_iff (suc (suc (suc (suc (suc (suc (suc (suc p)))))))) a b few m n = absurd (omega arith)

byte_iff :
    (a b : ℕ) (s t : List ℕ)
    → a < 256
    → b < 256
    → (((a == b) ≡ true) × (s ≡ t)) ↔ (bits a ++ s ≡ bits b ++ t)
byte_iff a b s t m n = (λ (h, e). grind arith, λ h. (grind arith, grind arith))

pub zero_add : (k : ℕ) → 0 + k ≡ k
zero_add k = omega arith

pub suc_add : (n k : ℕ) → suc n + k ≡ suc (n + k)
suc_add n k = omega arith

take-beyond : (k : ℕ) (xs ys : List ℕ) → take (length xs + k) (xs ++ ys) ≡ xs ++ take k ys
take-beyond k [] ys = ap (λ n. take n ys) (zero_add k)
take-beyond k (x ∷ xs) ys =
    ap (λ n. take n (x ∷ (xs ++ ys))) (suc_add (length xs) k)
    ∙ ap (λ l. x ∷ l) (take-beyond k xs ys)

both : (x s r : Bool) → (if x && s then r else false) ≡ (x && (if s then r else false))
both true s r = refl
both false s r = refl

-- The first byte, and the prefix of what follows.
same_prefix-cons :
    (p q a b : ℕ) (n c : Text)
    → p ≡ 8 + q
    → same_prefix p (a ∷ n) (b ∷ c) ≡ (a == b && same_prefix q n c)
unfolding same_prefix same
same_prefix-cons p q a b n c e =
    let quotient : p / 8 ≡ suc (q / 8) = omega arith in
    let remainder : p % 8 ≡ q % 8 = omega arith in
    rw (quotient, remainder) (both (a == b) (same (take (q / 8) n) (take (q / 8) c)) _)

unmasked :
    (p a b : ℕ)
    → a < 256
    → b < 256
    → (if p == 0 then true else (masked p a == masked p b)) ≡ (masked p a == masked p b)
unmasked zero a b m n = grind arith
unmasked (suc p) a b m n = grind arith

-- Less than a byte.
same_prefix-short :
    (p a b : ℕ) (n c : Text)
    → p ≤ 7
    → a < 256
    → b < 256
    → same_prefix p (a ∷ n) (b ∷ c) ≡ (masked p a == masked p b)
unfolding same_prefix same
same_prefix-short p a b n c few ma mb =
    let quotient : p / 8 ≡ 0 = omega arith in
    let remainder : p % 8 ≡ p = omega arith in rw (quotient, remainder) (unmasked p a b ma mb)

pub and_iff : (x y : Bool) → ((x && y) ≡ true) ↔ ((x ≡ true) × (y ≡ true))
and_iff true y = (λ h. (refl, h), λ (h, k). k)
and_iff false y = (λ h. absurd (cc h), λ (h, k). h)

abbrev pub IsByte : ℕ → Type 0
IsByte b = b < 256

same_prefix-nil : (p : ℕ) → p ≡ 0 → same_prefix p [] [] ≡ true
unfolding same_prefix same
same_prefix-nil p e = rw e refl

along :
    {x y : Bool} {s t u v : List ℕ}
    → x ≡ y
    → s ≡ u
    → t ≡ v
    → ((y ≡ true) ↔ (u ≡ v))
    → ((x ≡ true) ↔ (s ≡ t))
along e f g iff = (λ h. f ∙ iff.0 (sym e ∙ h) ∙ sym g, λ h. e ∙ iff.1 (sym f ∙ h ∙ g))

-- A whole byte, and what is known of the rest.
byte_and :
    (a b : ℕ) (r : Bool) (s t : List ℕ)
    → a < 256
    → b < 256
    → ((r ≡ true) ↔ (s ≡ t))
    → (((a == b && r) ≡ true) ↔ (bits a ++ s ≡ bits b ++ t))
byte_and a b r s t m n iff = (
  λ h. let whole = (and_iff (a == b) r).0 h in (byte_iff a b s t m n).0 (whole.0, iff.0 whole.1),
  λ h. let parts = (byte_iff a b s t m n).1 h in (and_iff (a == b) r).1 (parts.0, iff.1 parts.1),
)

-- Addresses of one length agree in a prefix, as the code compares it, if and only if the first bits
-- of both, as many as the prefix says, are the same.
pub same_prefix_iff :
    (p : ℕ) (network candidate : Text)
    → length network ≡ length candidate
    → All IsByte network
    → All IsByte candidate
    → p ≤ 8 * length network
    → (same_prefix p network candidate ≡ true)
      ↔ (take p (address_bits network) ≡ take p (address_bits candidate))
same_prefix_iff p [] [] e m n fits = (λ _. refl, λ _. same_prefix-nil p (omega arith))
same_prefix_iff p [] (b ∷ c) e m n fits = absurd (omega arith)
same_prefix_iff p (a ∷ network) [] e m n fits = absurd (omega arith)
same_prefix_iff p (a ∷ network) (b ∷ candidate) e (ma, ms) (nb, ns) fits =
    elim (Bool-cases (leb p 7)) [
      | inl few ↦
          along (same_prefix-short p a b network candidate (ground arith) ma nb)
            (take-append p (bits a) (address_bits network) (ground arith))
            (take-append p (bits b) (address_bits candidate) (ground arith))
            (masked_iff p a b (ground arith) ma nb)
      | inr many ↦
          let split : p ≡ 8 + (p - 8) = ground arith in
          along (same_prefix-cons p (p - 8) a b network candidate split)
            (ap (λ k. take k (bits a ++ address_bits network)) split
              ∙ take-beyond (p - 8) (bits a) (address_bits network))
            (ap (λ k. take k (bits b ++ address_bits candidate)) split
              ∙ take-beyond (p - 8) (bits b) (address_bits candidate))
            (byte_and a b (same_prefix (p - 8) network candidate) _ _ ma nb
              (same_prefix_iff (p - 8) network candidate (omega arith) ms ns (omega arith)))
    ]
