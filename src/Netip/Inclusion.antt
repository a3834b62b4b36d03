-- ===== src/Netip/Inclusion.antt =====
-- When one prefix lies in another, as sets of addresses.
use native.Mathlib.Nat.{div-div-eq-div-mul, mul_assoc, pow-suc, add-suc, add-zero, mul-one}
use soha_app.Base.{
  ℕ, zero, suc, ◌+◌, ◌-◌, ◌*◌, ◌/◌, ◌^◌, ◌≤◌, true, ◌≡◌, ◌∙◌, leb, leb→le, ==_iff, sym, is_empty,
  refl, arith,
}
use soha_app.Netip.Addr.{Addr, Prefix, bit_len, contains_addr, span}

-- The addresses of a family that a prefix has.
abbrev pub IsIn : ℕ → Prefix → Type 0
IsIn a p = a / span p ≡ p.addr.value / span p

-- Every address of `q` is one of `p`.
abbrev pub Includes : Prefix → Prefix → Type 0
Includes p q = (p.addr.is6 ≡ q.addr.is6) × ((a : ℕ) → IsIn a q → IsIn a p)

pow-+ : (n d : ℕ) → 2 ^ (n + d) ≡ 2 ^ n * 2 ^ d
pow-+ n zero = rw (add-zero n, mul-one (2 ^ n)) refl
pow-+ n (suc d) =
    rw (add-suc n d, pow-suc 2 (n + d), pow-suc 2 d, pow-+ n d, mul_assoc (2 ^ n) (2 ^ d) 2) refl

pow_split : (m n : ℕ) → n ≤ m → 2 ^ m ≡ 2 ^ n * 2 ^ (m - n)
pow_split m n h = let whole : n + (m - n) ≡ m = omega arith in rw whole at (pow-+ n (m - n))

-- Two numbers that agree above `n` bits agree above `m` bits.
coarser : (a b m n : ℕ) → n ≤ m → a / 2 ^ n ≡ b / 2 ^ n → a / 2 ^ m ≡ b / 2 ^ m
coarser a b m n h e =
    let split = pow_split m n h in
    let at_a = div-div-eq-div-mul a (2 ^ n) (2 ^ (m - n)) in
    let at_b = div-div-eq-div-mul b (2 ^ n) (2 ^ (m - n)) in cc

family : (p : Prefix) (a : Addr) → contains_addr p a ≡ true → p.addr.is6 ≡ a.is6
unfolding contains_addr
family p a h = ground arith

agrees :
    (p : Prefix) (a : Addr) → contains_addr p a ≡ true → a.value / span p ≡ p.addr.value / span p
unfolding contains_addr
agrees p a h = ground (arith, ==_iff (a.value / span p) (p.addr.value / span p))

bit_len_≡ : (a b : Addr) → a.is6 ≡ b.is6 → bit_len a ≡ bit_len b
unfolding bit_len
bit_len_≡ a b h = ground (arith, h)

-- A prefix that is not longer, and contains the address of another, has all its addresses.
pub contains_addr-Includes :
    (p q : Prefix) → leb p.bits q.bits ≡ true → contains_addr p q.addr ≡ true → Includes p q
unfolding span
contains_addr-Includes p q shorter h =
    let same_length = bit_len_≡ p.addr q.addr (family p q.addr h) in
    let le = leb→le p.bits q.bits shorter in
    (
      family p q.addr h,
      λ a inside.
          let coarse =
            coarser a q.addr.value (bit_len p.addr - p.bits) (bit_len q.addr - q.bits)
              (omega (arith, same_length, le)) inside in
          coarse ∙ agrees p q.addr h,
    )

-- The converse, for a prefix whose address has no zone: an address in both puts the longer prefix
-- into the other.
pub shared-contains_addr :
    (p q : Prefix) (a : ℕ)
    → leb p.bits q.bits ≡ true
    → p.addr.is6 ≡ q.addr.is6
    → is_empty q.addr.zone ≡ true
    → IsIn a p
    → IsIn a q
    → contains_addr p q.addr ≡ true
unfolding contains_addr
shared-contains_addr p q a shorter same no_zone in_p in_q =
    let same_length = bit_len_≡ p.addr q.addr same in
    let coarse =
      coarser a q.addr.value (bit_len p.addr - p.bits) (bit_len q.addr - q.bits)
        (omega (arith, same_length, leb→le p.bits q.bits shorter)) in_q in
    let agree : q.addr.value / span p ≡ p.addr.value / span p = sym coarse ∙ in_p in
    ground (arith, same, no_zone, (==_iff (q.addr.value / span p) (p.addr.value / span p)).1 agree)

pub contains_addr-IsIn :
    (p : Prefix) (a : Addr) → contains_addr p a ≡ true → (p.addr.is6 ≡ a.is6) × IsIn a.value p
contains_addr-IsIn p a h = (family p a h, agrees p a h)
