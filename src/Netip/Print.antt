-- ===== src/Netip/Print.antt =====
-- Addr.String and Prefix.String, as the codes of the text, for an address that is not Is4In6.
use soha_app.Base.{
  ℕ, zero, suc, ◌+◌, ◌-◌, ◌/◌, ◌%◌, ◌^◌, String, Bool, true, false, ◌&&◌, ◌||◌, List, [], ◌∷◌, ◌++◌,
  ltb, leb, ◌==◌, if◌then◌else◌, is_empty, codes,
}
use soha_app.Netip.Addr.{Addr, Prefix}

unfoldable pub codes_eq : List ℕ → List ℕ → Bool
codes_eq [] [] = true
codes_eq (c ∷ cs) (d ∷ ds) = c == d && codes_eq cs ds
codes_eq _ _ = false

digit_code : ℕ → ℕ
digit_code d = if ltb d 10 then b'0' + d else b'a' + (d - 10)

-- A number in a base, on fuel for its digits.
unfoldable pub digits_in : ℕ → ℕ → ℕ → List ℕ
unfolding digit_code
digits_in base zero n = []
digits_in base (suc fuel) n =
    let front = digits_in base fuel (n / base) in
    if ltb n base then digit_code n ∷ [] else front ++ (digit_code (n % base) ∷ [])

ipv4_codes : ℕ → List ℕ
unfolding digits_in
ipv4_codes v =
    digits_in 10 3 (v / 2 ^ 24)
    ++ (b'.' ∷ digits_in 10 3 (v / 2 ^ 16 % 256))
    ++ (b'.' ∷ digits_in 10 3 (v / 2 ^ 8 % 256))
    ++ (b'.' ∷ digits_in 10 3 (v % 256))

-- The 16 bits of group `i` of eight.
group_of : ℕ → ℕ → ℕ
group_of v i = v / 65536 ^ (7 - i) % 65536

-- How many groups from `i` on are zero, on fuel for the groups that are left.
zero_run : ℕ → ℕ → ℕ → ℕ
unfolding group_of
zero_run v i zero = 0
zero_run v i (suc left) =
    let rest = zero_run v (suc i) left in if group_of v i == 0 then suc rest else 0

-- The first longest run of at least two zero groups: its beginning and its length, from the groups
-- `i` on.
longest_run : ℕ → ℕ → ℕ → ℕ × ℕ
unfolding zero_run
longest_run v i zero = (8, 1)
longest_run v i (suc left) =
    let (start, run) = longest_run v (suc i) left in
    let here = zero_run v i (suc left) in
    if leb 2 here && leb run here then (i, here) else (start, run)

-- The groups from `i` on, with the run from `start` to `stop` as `::`.
groups_codes : ℕ → ℕ → ℕ → ℕ → ℕ → List ℕ
unfolding digits_in group_of
groups_codes v start run i zero = []
groups_codes v start run i (suc left) =
    let rest = groups_codes v start run (suc i) left in
    if i == start
    then b':' ∷ b':' ∷ rest
    else if leb start i && ltb i (start + run)
    then rest
    else (if i == 0 || i == start + run then [] else b':' ∷ [])
      ++ digits_in 16 4 (group_of v i)
      ++ rest

ipv6_codes : ℕ → List ℕ
unfolding longest_run groups_codes
ipv6_codes v = let (start, run) = longest_run v 0 8 in groups_codes v start run 0 8

unfoldable pub addr_codes : Addr → List ℕ
unfolding ipv4_codes ipv6_codes
addr_codes a =
    if a.is6
    then ipv6_codes a.value ++ (if is_empty a.zone then [] else b'%' ∷ a.zone)
    else ipv4_codes a.value

unfoldable pub prefix_codes : Prefix → List ℕ
unfolding addr_codes digits_in
prefix_codes p = addr_codes p.addr ++ (b'/' ∷ digits_in 10 3 p.bits)

-- a.String() == s
unfoldable pub prints_addr : Addr → String → Bool
unfolding addr_codes codes_eq
prints_addr a s = codes_eq (addr_codes a) (codes s)

-- p.String() == s
unfoldable pub prints_prefix : Prefix → String → Bool
unfolding prefix_codes codes_eq
prints_prefix p s = codes_eq (prefix_codes p) (codes s)
