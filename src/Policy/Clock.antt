-- ===== src/Policy/Clock.antt =====
-- The standard library's arithmetic that the policy relies on: `SystemTime` and `u128`.
use fortresswallet.Base.{
  ℕ, ◌+◌, ◌-◌, ◌*◌, ◌^◌, Bool, false, Option, none, some, ltb, leb, if◌then◌else◌,
}

-- A `SystemTime` has signed 64-bit seconds; this is the first time, in nanoseconds from the
-- earliest one, that it cannot represent.
abbrev pub time_end : ℕ
time_end = 2 ^ 64 * 1_000_000_000

-- `now.duration_since(t)`: an error when `t` is later.
abbrev pub duration_since : ℕ → ℕ → Option ℕ
duration_since now t = if leb t now then some (now - t) else none

-- `now.duration_since(t).is_ok_and(|age| age <= window)`
abbrev pub within : ℕ → ℕ → ℕ → Bool
within window now t = elim (duration_since now t) [ none ↦ false | some age ↦ leb age window ]

-- `now + delay` panics when the time cannot be represented.
abbrev pub checked_add_time : ℕ → ℕ → Option ℕ
checked_add_time now delay = if ltb (now + delay) time_end then some (now + delay) else none

abbrev pub u128_max : ℕ
u128_max = 2 ^ 128 - 1

-- `a + b` on `u128` panics on overflow.
abbrev pub checked_add_u128 : ℕ → ℕ → Option ℕ
checked_add_u128 a b = if leb (a + b) u128_max then some (a + b) else none

abbrev pub saturating_add_u128 : ℕ → ℕ → ℕ
saturating_add_u128 a b = if leb (a + b) u128_max then a + b else u128_max
