-- ===== src/Prelude/Ip.antt =====
-- net.ParseIP and net.JoinHostPort on texts of codes: which texts are addresses.
use Prim.Native.Nat.{ℕ, zero, suc, ◌+◌, ◌-◌, ◌*◌}
use mathlib.Core.Bool.{Bool, true, false, not, ◌&&◌, ◌||◌}
use mathlib.Core.List.{List, [], ◌∷◌, ◌++◌}
use go_electrum_client.Prelude.Tests.{ltb, leb, ◌==◌, if◌then◌else◌}

abbrev is_digit : ℕ → Bool
is_digit c = leb 48 c && leb c 57

abbrev is_hex : ℕ → Bool
is_hex c = is_digit c || (leb 65 c && leb c 70) || (leb 97 c && leb c 102)

abbrev pub contains : ℕ → List ℕ → Bool
contains k [] = false
contains k (c ∷ s) = (c == k) || contains k s

-- Four decimal fields up to 255 with no leading zero: `fields` are read, and `digits` of the next
-- one, which is `value` so far.
ipv4_loop : ℕ → ℕ → ℕ → List ℕ → Bool
ipv4_loop fields value digits [] = (fields == 3) && ltb 0 digits
ipv4_loop fields value digits (c ∷ s) =
    let next = value * 10 + (c - 48) in
    let in_field = ipv4_loop fields next (suc digits) s in
    let after_dot = ipv4_loop (suc fields) 0 0 s in
    if is_digit c
    then not ((digits == 1) && (value == 0)) && leb next 255 && in_field
    else (c == 46) && ltb 0 digits && ltb fields 3 && after_dot

unfoldable is_ipv4 : List ℕ → Bool
unfolding ipv4_loop
is_ipv4 s = ipv4_loop 0 0 0 s

-- The number of hexadecimal digits at the front, and what follows them.
span_hex : List ℕ → ℕ × List ℕ
span_hex [] = (0, [])
span_hex (c ∷ s) = let (n, rest) = span_hex s in if is_hex c then (suc n, rest) else (0, c ∷ s)

-- At the end of an IPv6 text with `fields` fields, and whether it has had an ellipsis.
abbrev ipv6_end : ℕ → Bool → Bool
ipv6_end fields ellipsis = if ltb fields 8 then ellipsis else not ellipsis

-- After a colon; `go` reads the following fields.
ipv6_colon : ℕ → Bool → List ℕ → (Bool → List ℕ → Bool) → Bool
ipv6_colon fields ellipsis [] go = false
ipv6_colon fields ellipsis (c ∷ s) go =
    if c == 58
    then not ellipsis && elim s [ [] ↦ ipv6_end fields true | d ∷ t ↦ go true (d ∷ t) ]
    else go ellipsis (c ∷ s)

-- What follows a field: the end, a colon, or the dot that shows the field to be an IPv4 address.
ipv6_after : ℕ → Bool → List ℕ → List ℕ → (Bool → List ℕ → Bool) → Bool
unfolding ipv6_colon
ipv6_after fields ellipsis s [] go = ipv6_end (suc fields) ellipsis
ipv6_after fields ellipsis s (c ∷ rest) go =
    if c == 46
    then (ellipsis || (fields == 6)) && leb fields 6 && is_ipv4 s && ipv6_end (fields + 2) ellipsis
    else (c == 58) && ipv6_colon (suc fields) ellipsis rest go

-- At most eight fields.
ipv6_loop : ℕ → ℕ → Bool → List ℕ → Bool
unfolding ipv6_after span_hex
ipv6_loop zero fields ellipsis s = false
ipv6_loop (suc fuel) fields ellipsis s =
    let (n, rest) = span_hex s in
    ltb fields 8
    && ltb 0 n
    && leb n 4
    && ipv6_after fields ellipsis s rest (λ e t. ipv6_loop fuel (suc fields) e t)

is_ipv6 : List ℕ → Bool
unfolding ipv6_loop
is_ipv6 [] = false
is_ipv6 (c ∷ []) = ipv6_loop 9 0 false (c ∷ [])
is_ipv6 (c ∷ d ∷ s) =
    if (c == 58) && (d == 58)
    then elim s [ [] ↦ true | e ∷ t ↦ ipv6_loop 9 0 true (e ∷ t) ]
    else ipv6_loop 9 0 false (c ∷ d ∷ s)

-- The first dot or colon tells the two kinds apart; a zone after a percent sign is refused.
parse_by_first : List ℕ → List ℕ → Bool
unfolding is_ipv4 is_ipv6
parse_by_first s [] = false
parse_by_first s (c ∷ rest) =
    let more = parse_by_first s rest in
    if c == 46
    then is_ipv4 s
    else if c == 58
    then is_ipv6 s && not (contains 37 s)
    else if c == 37
    then false
    else more

unfoldable pub parse_ip : List ℕ → Bool
unfolding parse_by_first
parse_ip s = parse_by_first s s

-- A host with a colon stands in brackets.
unfoldable pub join_host_port : List ℕ → List ℕ → List ℕ
join_host_port host port =
    if contains 58 host then 91 ∷ host ++ 93 ∷ 58 ∷ port else host ++ 58 ∷ port
