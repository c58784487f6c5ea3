-- ===== src/Endpoint/Clock.antt =====
-- `inSync` of core/http.go, whose bounds are `int64` sums.
use envisilab.Base.{ℕ, ◌+◌, ◌^◌, ◌<◌, ◌≡◌, ◌↔◌, true, arith}
use envisilab.Base.Int.{ℤ, pos, negsuc, ◌+ℤ◌, ◌-ℤ◌, ◌≤ℤ◌, add64, sub64, bits64, int64}
use envisilab.Endpoint.{in_sync}

-- A client's time is in sync with a server's clock after 1970, by 2^62 seconds at most, exactly where
-- neither is more than 5 seconds after the other. No sum wraps around.
pub in_sync_iff :
    (now : ℕ) (t : ℤ)
    → now < 2 ^ 62
    → (in_sync (pos now) t ≡ true) ↔ ((t ≤ℤ pos (now + 5)) × (pos now ≤ℤ (t +ℤ pos 5)))
unfolding in_sync add64 sub64 bits64 int64 ◌+ℤ◌ ◌-ℤ◌
in_sync_iff now (pos t) h = ground arith
in_sync_iff now (negsuc t) h = ground arith
