-- ===== src/Routing.antt =====
-- The IPv4 route table (backend/internal/routing/routetable.go): longest-prefix match over its entries.
-- Reading the text of `route print` is not modelled here; an address or a mask is a 32-bit number.
pub mod Best
mod Tests
use connective.Prelude.{
  ℕ, zero, suc, ◌+◌, ◌*◌, ◌/◌, ◌%◌, ◌^◌, ◌==◌, ◌&&◌, ◌||◌, ltb, not, Bool, true, false,
  if◌then◌else◌, List, [], ◌∷◌, Option, none, some, Text,
}
use connective.Prelude.Int.{ℤ, ltb_ℤ}

-- `routeEntry`; the gateway and the interface are passed on as they are.
pub record RouteEntry : Type 0 where
  pub dest : ℕ
  pub mask : ℕ
  pub gateway : Text
  pub iface : Text
  pub metric : ℤ

-- The bits that both numbers have, of the lowest `n`: `a & b` on a uint32 for n = 32.
unfoldable pub bit_and : ℕ → ℕ → ℕ → ℕ
bit_and zero a b = 0
bit_and (suc n) a b = let rest = bit_and n (a / 2) (b / 2) in a % 2 * (b % 2) + 2 * rest

-- The loop of `maskBits`, from bit n - 1 down: the length of the run of ones.
unfoldable pub mask_bits : ℕ → ℕ → ℕ
mask_bits zero m = 0
mask_bits (suc n) m = let rest = mask_bits n m in if m / 2 ^ n % 2 == 0 then 0 else suc rest

abbrev pub prefix_length : RouteEntry → ℕ
prefix_length e = mask_bits 32 e.mask

-- `d & e.Mask == e.Dest`
abbrev pub matches : ℕ → RouteEntry → Bool
matches d e = bit_and 32 d e.mask == e.dest

-- The entry is better than the best one so far.
abbrev pub is_better : RouteEntry → RouteEntry → Bool
is_better e best =
    ltb (prefix_length best) (prefix_length e)
    || (prefix_length e == prefix_length best && ltb_ℤ e.metric best.metric)

abbrev pub choose : RouteEntry → Option RouteEntry → RouteEntry
choose e none = e
choose e (some best) = if is_better e best then e else best

-- The loop of `longestMatch`.
unfoldable pub match_from : ℕ → Option RouteEntry → List RouteEntry → Option RouteEntry
unfolding bit_and
match_from d best [] = best
match_from d best (e ∷ entries) =
    let skipped = match_from d best entries in
    let taken = match_from d (some (choose e best)) entries in
    if matches d e then taken else skipped

-- `longestMatch`; an address that is no IPv4 address is `none`.
unfoldable pub longest_match : List RouteEntry → Option ℕ → Option RouteEntry
unfolding match_from
longest_match entries none = none
longest_match entries (some d) = match_from d none entries
