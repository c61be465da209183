-- ===== src/Clock/Wakeup.antt =====
-- preconfirmation/src/util.rs: how long a loop sleeps until the next slot starts.
use native.Mathlib.Nat.{mod-lt, div-add-mod, mul-mod_left}
use taiko_preconfer.Prelude.{
  ℕ, ◌+◌, ◌-◌, ◌*◌, ◌/◌, ◌%◌, ◌<◌, ◌≡◌, arith, if◌then◌else◌, ◌==◌, ltb, mod?, Bool-cases, inl, inr,
  u64_mod,
}
use taiko_preconfer.Prelude.Outcome.{Outcome, ok, err, or_panic, ◌>>=◌}
use taiko_preconfer.Clock.{Duration}

-- std::num::TryFromIntError.
pub data TryFromIntError : Type 0 where
  try_from_int : TryFromIntError

-- `try_into` from a u128 to a u64.
abbrev pub try_u64 : ℕ → Outcome TryFromIntError ℕ
try_u64 a = if ltb a u64_mod then ok a else err try_from_int

-- `now_ms` is the provider's `timestamp_in_ms`. The remainder of u128 numbers panics at zero.
unfoldable pub remaining_until_next_slot : Duration → ℕ → Outcome TryFromIntError Duration
remaining_until_next_slot slot_duration now_ms = do
  duration_now ← try_u64 now_ms
  in_slot ← or_panic (mod? duration_now slot_duration)
  in_current_slot_ms ← try_u64 in_slot
  if in_current_slot_ms == 0 then ok 0 else ok (slot_duration - in_current_slot_ms)

fill : (n d : ℕ) → 0 < d → n + (d - n % d) ≡ (n / d + 1) * d
fill n d h = omega (arith, div-add-mod n d, mod-lt n h)

-- For a slot duration above zero and a clock that fits a u64 the sleep is shorter than a slot and
-- ends at a multiple of the slot duration.
pub remaining_until_next_slot-aligned :
    (slot_duration now_ms : ℕ)
    → 0 < slot_duration
    → now_ms < u64_mod
    → (rest : ℕ) × (remaining_until_next_slot slot_duration now_ms ≡ ok rest)
      × (rest < slot_duration)
      × ((now_ms + rest) % slot_duration ≡ 0)
unfolding remaining_until_next_slot
remaining_until_next_slot-aligned d now pos h =
    let gap = mod-lt now pos in
    elim (Bool-cases (now % d == 0)) [
      | inl e ↦ (0, ground arith, ground arith, ground arith)
      | inr e ↦ (d - now % d, ground arith, ground arith, rw (fill now d pos) (mul-mod_left _ d))
    ]

-- A sleep is computed only for a clock that fits a u64.
pub remaining_until_next_slot_fits :
    (slot_duration now_ms rest : ℕ)
    → remaining_until_next_slot slot_duration now_ms ≡ ok rest
    → now_ms < u64_mod
unfolding remaining_until_next_slot
remaining_until_next_slot_fits d now rest h = elim (Bool-cases (ltb now u64_mod)) [
  | inl e ↦ ground arith
  | inr e ↦ absurd (let failed = rw e at h in cc)
]
