-- ===== src/Event.antt =====
-- src/rand.c and the events of src/utils.c and include/constants.h: the xorshift generator, the
-- 32-bit event word, the jitter of a network latency.
use native.Mathlib.Nat.{mul-le-mul_left}
use tiltyard.Base.{ℕ, zero, suc, ◌+◌, ◌*◌, ◌/◌, ◌%◌, ◌^◌, ◌≤◌, ◌<◌, ◌≡◌, u64, arith}

-- `S_TO_NS` and `DAY_TO_NS`
abbrev pub s_to_ns : ℕ
s_to_ns = 1000000000

abbrev pub day_to_ns : ℕ
day_to_ns = 86400000000000

-- `MAX_PARAM`: `PARAM_BITS` is 64 - 32 - 2.
abbrev pub max_param : ℕ
max_param = 1073741823

abbrev pub control_type : ℕ
control_type = 3

abbrev pub control_param_auction_freeze : ℕ
control_param_auction_freeze = 1073741819

abbrev pub control_param_slow : ℕ
control_param_slow = 1073741815

-- `a ^ b` on the lowest `n` bits.
unfoldable pub xor_bits : ℕ → ℕ → ℕ → ℕ
xor_bits zero a b = 0
xor_bits (suc n) a b = (a + b) % 2 + 2 * xor_bits n (a / 2) (b / 2)

-- `rand_next`
unfoldable pub rand_next : ℕ → ℕ
unfolding xor_bits
rand_next r =
    let a = xor_bits 64 r (u64 (r * 2 ^ 13)) in
    let b = xor_bits 64 a (a / 2 ^ 7) in xor_bits 64 b (u64 (b * 2 ^ 17))

-- `build_event`: the two parts of the word share no bit, so their or is a sum.
unfoldable pub build_event : ℕ → ℕ → ℕ
build_event type params = u64 (type % 4 * 2 ^ 30) + params % 2 ^ 30

-- How main.c takes a word apart: `(event >> PARAM_BITS) & T_MASK` and `event & PARAM_MASK`.
unfoldable pub event_type : ℕ → ℕ
event_type event = event / 2 ^ 30 % 4

unfoldable pub event_param : ℕ → ℕ
event_param event = event % 2 ^ 30

-- `calculate_jitter`: the delay, and the generator's next state.
unfoldable pub calculate_jitter : ℕ → ℕ → ℕ × ℕ
unfolding rand_next
calculate_jitter net_latency rand =
    let r = rand_next rand in
    (u64 (net_latency + net_latency / 2 ^ 7 + u64 (net_latency * (r % 2 ^ 32)) / 2 ^ 32 / 2 ^ 5), r)

-- An event word in 32 bits gives back its type, of two bits, and its parameter, of thirty.
pub build_event_lem :
    (type params : ℕ)
    → type < 4
    → params ≤ max_param
    → (event_type (build_event type params) ≡ type)
      × (event_param (build_event type params) ≡ params)
      × (build_event type params < 4294967296)
unfolding build_event event_type event_param
build_event_lem type params t p = (ground arith, ground arith, ground arith)

low_word : (n : ℕ) → n % 2 ^ 32 ≤ 4294967295
low_word n = omega arith

spread :
    (net x : ℕ)
    → net < 4294967296
    → x ≤ net * 4294967295
    → (net + net / 128 ≤ u64 (net + net / 2 ^ 7 + u64 x / 2 ^ 32 / 2 ^ 5))
      × (u64 (net + net / 2 ^ 7 + u64 x / 2 ^ 32 / 2 ^ 5) ≤ net + net / 128 + net / 32)
spread net x b h = omega arith

-- Whatever the generator says, the delay of a latency below 2 ^ 32 is between the latency and its
-- 1.04-fold: it never arrives before its latency has passed.
pub calculate_jitter_lem :
    (net_latency rand : ℕ)
    → net_latency < 4294967296
    → (net_latency + net_latency / 128 ≤ (calculate_jitter net_latency rand).0)
      × ((calculate_jitter net_latency rand).0 ≤ net_latency + net_latency / 128 + net_latency / 32)
unfolding calculate_jitter
calculate_jitter_lem net_latency rand b =
    let q = rand_next rand % 2 ^ 32 in
    spread net_latency (net_latency * q) b
      (mul-le-mul_left {m = q} {n = 4294967295} net_latency (low_word (rand_next rand)))
