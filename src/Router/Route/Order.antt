-- ===== src/Router/Route/Order.antt =====
-- The order that `compare_func` puts the table in.
use protocoale.Base.{◌+◌, ◌^◌, ◌<◌, ◌≡◌, ◌↔◌, ◌⊎◌, arith}
use protocoale.Base.Int.{pos, ◌<ℤ◌}
use protocoale.Router.Route.{RouteEntry, compare_func}

-- First by prefix, then by mask.
abbrev pub LexLess : RouteEntry → RouteEntry → Type 0
LexLess a b = (a.prefix < b.prefix) ⊎ ((a.prefix ≡ b.prefix) × (a.mask < b.mask))

-- Prefixes that are less than 2^31 apart are put in the order of the numbers.
compare_func-LexLess :
    (a b : RouteEntry)
    → a.prefix < 2 ^ 31
    → b.prefix < 2 ^ 31
    → ((compare_func a b <ℤ pos 0) ↔ LexLess a b) × ((pos 0 <ℤ compare_func a b) ↔ LexLess b a)
unfolding compare_func
compare_func-LexLess a b p q = ((ground arith, ground arith), (ground arith, ground arith))

-- Prefixes that are 2^31 or more apart are put in the reverse order.
compare_func_reversed :
    (a b : RouteEntry)
    → b.prefix < 2 ^ 32
    → a.prefix + 2 ^ 31 < b.prefix
    → pos 0 <ℤ compare_func a b
unfolding compare_func
compare_func_reversed a b p q = ground arith
