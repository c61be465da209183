-- ===== src/Clock/RoundTrip.antt =====
-- preconfirmation/src/slot_model.rs: a timestamp and the slot that holds it.
use native.Mathlib.Nat.{
  div-add-mod, mod-lt, mul-div_left, mul-add-div_right, mul-add-mod_self_right, div-eq_of_lt,
  mod-eq_of_lt, div-lt_iff_lt-mul,
}
use taiko_preconfer.Prelude.{
  ℕ, ◌+◌, ◌-◌, ◌*◌, ◌/◌, ◌%◌, ◌≤◌, ◌<◌, ◌≡◌, ap, ◌∙◌, some, arith, u64_mod, add64, sub64, mul64,
  div?_pos, mod?_pos,
}
use taiko_preconfer.Clock.{
  Slot, SlotModel, as_secs, get_slot, slots_per_epoch, get_slot_number, get_timestamp,
}

-- Slots last whole seconds, and an epoch is `per_epoch` of them.
pub record IsValid (m : SlotModel) (per_epoch : ℕ) : Type 0 where
  pub slot_pos : 0 < as_secs m.slot_duration
  pub epoch_pos : 0 < per_epoch
  pub whole : as_secs m.epoch_duration ≡ per_epoch * as_secs m.slot_duration

-- Seconds `d`, slots of `s` seconds, epochs of `k` slots.
layout : (d s k : ℕ) → s * (d / (k * s) * k + d % (k * s) / s) + d % (k * s) % s ≡ d
layout d s k = omega (arith, div-add-mod d (k * s), div-add-mod (d % (k * s)) s)

mul_pos : (k s : ℕ) → 0 < k → 0 < s → 0 < k * s
mul_pos k s h g = grind arith

slot_lt : (d s k : ℕ) → 0 < s → 0 < k → d % (k * s) / s < k
slot_lt d s k h g = (div-lt_iff_lt-mul h).1 (mod-lt d (mul_pos k s g h))

-- The layout read backwards: slot `t` of epoch `e`.
split_epoch : (e t s k : ℕ) → 0 < s → t < k → s * (e * k + t) / (k * s) ≡ e
split_epoch e t s k h g =
    let small : t * s < k * s = grind arith in
    let start : s * (e * k + t) ≡ e * (k * s) + t * s = omega arith in
    rw start (mul-add-div_right (grind arith) e (t * s) ∙ omega (arith, div-eq_of_lt small))

split_slot : (e t s k : ℕ) → 0 < s → t < k → s * (e * k + t) % (k * s) / s ≡ t
split_slot e t s k h g =
    let small : t * s < k * s = grind arith in
    let start : s * (e * k + t) ≡ e * (k * s) + t * s = omega arith in
    rw (start, mul-add-mod_self_right e (k * s) (t * s), mod-eq_of_lt small) (mul-div_left t h)

module _ (m : SlotModel) (k : ℕ) (v : IsValid m k) where
  slots_per_epoch_lem : slots_per_epoch m ≡ some k
  unfolding slots_per_epoch
  slots_per_epoch_lem =
      rw (v.whole, div?_pos (k * as_secs m.slot_duration) _ v.slot_pos)
        (ap some (mul-div_left k v.slot_pos))

  get_slot_lem :
      (ts : ℕ)
      → let d = sub64 ts m.genesis_timestamp in
        let s = as_secs m.slot_duration in
        get_slot m ts ≡ some (record { epoch = d / (k * s); slot = d % (k * s) / s })
  unfolding get_slot
  get_slot_lem ts =
      let pos = mul_pos k (as_secs m.slot_duration) v.epoch_pos v.slot_pos in
      rw (v.whole, div?_pos _ _ pos, mod?_pos _ _ pos, div?_pos _ _ v.slot_pos)

  get_timestamp_lem :
      (x : Slot)
      → m.genesis_timestamp + as_secs m.slot_duration * (x.epoch * k + x.slot) < u64_mod
      → get_timestamp m x
        ≡ some (m.genesis_timestamp + as_secs m.slot_duration * (x.epoch * k + x.slot))
  unfolding get_timestamp get_slot_number
  get_timestamp_lem x h =
      let n = x.epoch * k + x.slot in
      let below : n ≤ as_secs m.slot_duration * n = grind (arith, v.slot_pos) in
      let number : add64 (mul64 x.epoch k) x.slot ≡ n = omega arith in
      rw (slots_per_epoch_lem, number) (ap some (omega arith))

  -- The slot of a timestamp and where it starts: all slots before it have passed since the genesis.
  pub get_slot_start :
      (ts : ℕ)
      → m.genesis_timestamp ≤ ts
      → ts < u64_mod
      → (x : Slot) × (get_slot m ts ≡ some x)
        × (get_timestamp m x
            ≡ some (m.genesis_timestamp + as_secs m.slot_duration * (x.epoch * k + x.slot)))
        × (m.genesis_timestamp + as_secs m.slot_duration * (x.epoch * k + x.slot) ≤ ts)
        × (ts
            < m.genesis_timestamp
              + as_secs m.slot_duration * (x.epoch * k + x.slot)
              + as_secs m.slot_duration)
        × (x.slot < k)
  get_slot_start ts g h =
      let s = as_secs m.slot_duration in
      let d = sub64 ts m.genesis_timestamp in
      let exact : d ≡ ts - m.genesis_timestamp = omega arith in
      let x : Slot = record { epoch = d / (k * s); slot = d % (k * s) / s } in
      let whole = layout d s k in
      let rest = mod-lt (d % (k * s)) v.slot_pos in
      (
        x,
        get_slot_lem ts,
        get_timestamp_lem x (omega arith),
        omega arith,
        omega arith,
        slot_lt d s k v.slot_pos v.epoch_pos,
      )

  -- The slot of a timestamp holds that timestamp: it starts no later, ends after it, and its number
  -- within the epoch is below the epoch's length.
  pub get_slot-get_timestamp :
      (ts : ℕ)
      → m.genesis_timestamp ≤ ts
      → ts < u64_mod
      → (x : Slot) × (start : ℕ) × (get_slot m ts ≡ some x)
        × (get_timestamp m x ≡ some start)
        × (start ≤ ts)
        × (ts < start + as_secs m.slot_duration)
        × (x.slot < k)
  get_slot-get_timestamp ts g h =
      let (x, found, started, le, lt, within) = get_slot_start ts g h in
      (x, _, found, started, le, lt, within)

  -- Every slot number of an epoch is found again from the timestamp at which the slot starts.
  pub get_timestamp-get_slot :
      (x : Slot)
      → x.slot < k
      → m.genesis_timestamp + as_secs m.slot_duration * (x.epoch * k + x.slot) < u64_mod
      → (start : ℕ) × (get_timestamp m x ≡ some start) × (get_slot m start ≡ some x)
  get_timestamp-get_slot x h b =
      let s = as_secs m.slot_duration in
      let n = x.epoch * k + x.slot in
      let start = m.genesis_timestamp + s * n in
      let exact : sub64 start m.genesis_timestamp ≡ s * n = omega arith in
      (
        start,
        get_timestamp_lem x b,
        rw (get_slot_lem start, exact)
            (ap some (λ i. record {
              epoch = split_epoch x.epoch x.slot s k v.slot_pos h i;
              slot = split_slot x.epoch x.slot s k v.slot_pos h i;
            })),
      )
