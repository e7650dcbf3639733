-- ===== src/Middleware/Forwarded/Networks.antt =====
-- Which peers a network of src/middleware/trusted_forwarded_headers_middleware.cpp contains.
use novaboot.Base.{
  ℕ, ◌*◌, ◌≤◌, ◌≡◌, refl, ap, true, ◌↔◌, ◌∷◌, ◌++◌, Option, none, some, leb, ◌==◌, arith, Text,
  length, take, All,
}
use novaboot.Base.{
  [], zero, suc, ◌+◌, ◌-◌, ◌%◌, ◌^◌, ◌<◌, sym, not, ◌&&◌, inl, inr, Bool-cases, if◌then◌else◌,
}
use mathlib.Core.Path.{subst}
use novaboot.Http.Texts.{Lacks, divide-append}
use novaboot.Middleware.Forwarded.{
  Family, inet, inet6, Address, max_bits, same_family, is_digit, is_negative, prefix_length,
  in_network, c_string, parsed, parse_ip, cidr_contains,
}
use novaboot.Middleware.Forwarded.Bits.{
  address_bits, IsByte, same_prefix_iff, and_iff, zero_add, suc_add,
}

-- An address has as many bytes as its family says.
pub record IsAddress (a : Address) : Type 0 where
  pub size : 8 * length a.bytes ≡ max_bits a.family
  pub bytes : All IsByte a.bytes

-- All that is asked of `inet_pton`, which is documented to write the bytes of an address.
abbrev pub WritesBytes : (Family → Text → Option Text) → Type 0
WritesBytes inet_pton =
    (f : Family) (t bytes : Text)
    → inet_pton f t ≡ some bytes
    → IsAddress (record { family = f; bytes = bytes })

-- The prefix and both addresses are read, the addresses are of one family, which has so many bits,
-- and the first bits of both, as many as the prefix says, are the same.
abbrev pub InNetwork : Option ℕ → Option Address → Option Address → Type 0
InNetwork (some p) (some n) (some c) =
    (n.family ≡ c.family)
    × ((p ≤ max_bits n.family) × (take p (address_bits n.bytes) ≡ take p (address_bits c.bytes)))
InNetwork (some p) (some n) none = ⊥
InNetwork (some p) none candidate = ⊥
InNetwork none network candidate = ⊥

-- The number that is written, in decimal.
abbrev pub value_of : ℕ → Text → Option ℕ
value_of n [] = some n
value_of n (b ∷ t) = let rest = value_of (n * 10 + (b - 48)) t in if is_digit b then rest else none

-- The powers of ten.
abbrev power : ℕ → ℕ
power zero = 1
power (suc k) = 10 * power k

power-le : (k m : ℕ) → power k ≤ power (m + k)
power-le k zero = subst (λ n. power k ≤ power n) (sym (zero_add k)) (omega arith)
power-le k (suc m) =
    subst (λ n. power k ≤ power n) (sym (suc_add m k)) (let h = power-le k m in omega arith)

power_bound : (k : ℕ) → k ≤ 9 → power k ≤ 1000000000
power_bound k small = subst (λ n. power k ≤ power n) (cancel k small) (power-le k (9 - k))
  where
    cancel : (k : ℕ) → k ≤ 9 → 9 - k + k ≡ 9
    cancel k small = omega arith

-- Nine digits fit an `int`.
prefix_length-value_of :
    (k n : ℕ) (t : Text) → k + length t ≤ 9 → n < power k → prefix_length n t ≡ value_of n t
unfolding prefix_length
prefix_length-value_of k n [] short small = refl
prefix_length-value_of k n (b ∷ t) short small = elim (Bool-cases (is_digit b)) [
  | inl digit ↦
      let bound = power_bound (suc k) (omega arith) in
      let fits : (n * 10 + (b - 48)) % 2 ^ 32 ≡ n * 10 + (b - 48) = ground arith in
      rw (digit, fits)
        (prefix_length-value_of (suc k) (n * 10 + (b - 48)) t (omega arith) (ground arith))
  | inr other ↦ rw other refl
]

max_bits-le : (f : Family) → max_bits f ≤ 128
max_bits-le inet = omega arith
max_bits-le inet6 = omega arith

-- The two tests of the prefix, in the code's order.
prefix_fits_iff :
    (p : ℕ) (f : Family) → ((not (is_negative p) && leb p (max_bits f)) ≡ true) ↔ (p ≤ max_bits f)
prefix_fits_iff p f = let most = max_bits-le f in (λ h. ground arith, λ h. ground arith)

same_family_sound : (f g : Family) → same_family f g ≡ true → f ≡ g
same_family_sound inet inet h = refl
same_family_sound inet6 inet6 h = refl
same_family_sound inet inet6 h = absurd (cc h)
same_family_sound inet6 inet h = absurd (cc h)

same_family_refl : (f g : Family) → f ≡ g → same_family f g ≡ true
same_family_refl inet g e = rw (← e) refl
same_family_refl inet6 g e = rw (← e) refl

same_size :
    (n c : Address)
    → IsAddress n
    → IsAddress c
    → n.family ≡ c.family
    → length n.bytes ≡ length c.bytes
same_size n c hn hc e =
    let first = hn.size in let second = hc.size in let bits_of = ap max_bits e in omega arith

in_network_iff :
    (p : ℕ) (n c : Address)
    → IsAddress n
    → IsAddress c
    → (in_network (some p) (some n) (some c) ≡ true) ↔ InNetwork (some p) (some n) (some c)
in_network_iff p n c hn hc = (
  λ h.
      let first = (and_iff (same_family n.family c.family) _).0 h in
      let second = (and_iff (not (is_negative p) && leb p (max_bits n.family)) _).0 first.1 in
      let family = same_family_sound n.family c.family first.0 in
      let fits = (prefix_fits_iff p n.family).0 second.0 in
      let size = hn.size in
      (
        family,
        (
          fits,
          (same_prefix_iff p n.bytes c.bytes (same_size n c hn hc family) hn.bytes hc.bytes
                (omega arith)).0
              second.1,
        ),
      ),
  λ (family, (fits, agree)).
      let size = hn.size in
      (and_iff (same_family n.family c.family) _).1 (
        same_family_refl n.family c.family family,
        (and_iff (not (is_negative p) && leb p (max_bits n.family)) _).1 (
          (prefix_fits_iff p n.family).1 fits,
          (same_prefix_iff p n.bytes c.bytes (same_size n c hn hc family) hn.bytes hc.bytes
                (omega arith)).1
              agree,
        ),
      ),
)

abbrev Known : Option Address → Type 0
Known found = (a : Address) → found ≡ some a → IsAddress a

in_network-options :
    (prefix : Option ℕ) (network candidate : Option Address)
    → Known network
    → Known candidate
    → (in_network prefix network candidate ≡ true) ↔ InNetwork prefix network candidate
in_network-options (some p) (some n) (some c) kn kc = in_network_iff p n c (kn n refl) (kc c refl)
in_network-options (some p) (some n) none kn kc = (λ h. cc h, λ h. absurd h)
in_network-options (some p) none candidate kn kc = (λ h. cc h, λ h. absurd h)
in_network-options none network candidate kn kc = (λ h. cc h, λ h. absurd h)

some_injective : {a b : Address} → ◌≡◌ {A = Option Address} (some a) (some b) → a ≡ b
some_injective e = cc e

none-some : {a : Address} → ◌≡◌ {A = Option Address} none (some a) → ⊥
none-some e = cc e

parsed-Known :
    (first second : Option Text)
    → ((bytes : Text) → first ≡ some bytes → IsAddress (record { family = inet; bytes = bytes }))
    → ((bytes : Text) → second ≡ some bytes → IsAddress (record { family = inet6; bytes = bytes }))
    → Known (parsed first second)
parsed-Known (some bytes) second four six a e = subst IsAddress (some_injective e) (four bytes refl)
parsed-Known none (some bytes) four six a e = subst IsAddress (some_injective e) (six bytes refl)
parsed-Known none none four six a e = absurd (none-some e)

parse_ip-Known :
    (inet_pton : Family → Text → Option Text) (value : Text)
    → WritesBytes inet_pton
    → Known (parse_ip inet_pton value)
unfolding parse_ip
parse_ip-Known inet_pton value writes =
    parsed-Known (inet_pton inet (c_string value)) (inet_pton inet6 (c_string value))
      (writes inet (c_string value)) (writes inet6 (c_string value))

-- For an address without a slash, a prefix of at most nine characters, and an `inet_pton` that writes
-- as many bytes as the family says, a network as such an address, a slash and the prefix contains a
-- peer if and only if the prefix has digits only, the address and the peer are read and are of one
-- family, the number is no more than the bits of an address of it (no digits stand for 0), and the
-- addresses have the same first bits, as many as this number.
pub cidr_contains_iff :
    (inet_pton : Family → Text → Option Text)
    → WritesBytes inet_pton
    → (address prefix peer : Text) → Lacks (λ b. b == 47) address
    → length prefix ≤ 9
    → (cidr_contains inet_pton (address ++ 47 ∷ prefix) peer ≡ true)
      ↔ InNetwork (value_of 0 prefix) (parse_ip inet_pton address) (parse_ip inet_pton peer)
unfolding cidr_contains
cidr_contains_iff inet_pton writes address prefix peer l short =
    rw
      (
        divide-append 47 address prefix l,
        prefix_length-value_of 0 0 prefix (omega arith) (omega arith),
      )
      (in_network-options (value_of 0 prefix) (parse_ip inet_pton address) (parse_ip inet_pton peer)
        (parse_ip-Known inet_pton address writes) (parse_ip-Known inet_pton peer writes))
