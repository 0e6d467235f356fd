-- ===== src/Path/Backoff.antt =====
-- The retry constants and `path_recreate_backoff` of path_state_machine.c.
use native.Mathlib.Nat.{pow-suc, one-le-pow}
use mqcpn.Prelude.{ℕ, zero, suc, ◌+◌, ◌-◌, ◌*◌, ◌^◌, ◌≤◌, ◌≡◌, ap, min, ltb, if◌then◌else◌, arith}

abbrev pub recreate_delay_us : ℕ
recreate_delay_us = 5_000_000

abbrev pub recreate_max_delay_us : ℕ
recreate_max_delay_us = 60_000_000

abbrev pub recreate_max_retries : ℕ
recreate_max_retries = 6

-- The loop of `path_recreate_backoff`, with the rounds that `r < retries` allows.
unfoldable pub backoff_loop : ℕ → ℕ → ℕ
backoff_loop zero delay = delay
backoff_loop (suc rounds) delay =
    let next = backoff_loop rounds (delay * 2) in
    if ltb delay recreate_max_delay_us then next else delay

unfoldable pub recreate_backoff : ℕ → ℕ
unfolding backoff_loop
recreate_backoff retries =
    let delay = backoff_loop (retries - 1) recreate_delay_us in
    if ltb recreate_max_delay_us delay then recreate_max_delay_us else delay

backoff_loop-ge :
    (rounds delay : ℕ) → recreate_delay_us ≤ delay → recreate_delay_us ≤ backoff_loop rounds delay
unfolding backoff_loop
backoff_loop-ge zero delay h = h
backoff_loop-ge (suc rounds) delay h = ground (arith, backoff_loop-ge rounds (delay * 2))

pub recreate_backoff_bounds :
    (retries : ℕ)
    → (recreate_delay_us ≤ recreate_backoff retries)
      × (recreate_backoff retries ≤ recreate_max_delay_us)
unfolding recreate_backoff
recreate_backoff_bounds retries = ground (arith, backoff_loop-ge (retries - 1) recreate_delay_us)

doubled : (n d : ℕ) → d * 2 ^ suc n ≡ d * 2 * 2 ^ n
doubled n d = omega (arith, ap (λ (t : ℕ). d * t) (pow-suc 2 n))

le-doubled : (n d : ℕ) → d ≤ d * 2 ^ n
le-doubled n d = grind (arith, one-le-pow n 2)

backoff_loop-min :
    (rounds delay : ℕ)
    → min recreate_max_delay_us (backoff_loop rounds delay)
      ≡ min recreate_max_delay_us (delay * 2 ^ rounds)
unfolding backoff_loop
backoff_loop-min zero delay = omega arith
backoff_loop-min (suc rounds) delay = ground (
  arith,
  backoff_loop-min rounds (delay * 2),
  doubled rounds delay,
  le-doubled (suc rounds) delay,
)

-- The delay before retry r is 5 seconds doubled r - 1 times, cut at 60 seconds.
pub recreate_backoff-eq-min :
    (failures : ℕ)
    → recreate_backoff (failures + 1) ≡ min recreate_max_delay_us (recreate_delay_us * 2 ^ failures)
unfolding recreate_backoff
recreate_backoff-eq-min failures =
    ground (arith, backoff_loop-min (failures + 1 - 1) recreate_delay_us)
