-- ===== src/Loops/Location.antt =====
-- taiko-preconfer/src/preconfirmation_loop.rs: the L2 slot that holds a timestamp.
use native.Mathlib.Nat.{div-add-mod, mod-lt, mul-div_left, mul_comm, div-lt_iff_lt-mul}
use taiko_preconfer.Prelude.{
  ℕ, ◌+◌, ◌-◌, ◌*◌, ◌/◌, ◌≤◌, ◌<◌, ◌≡◌, refl, ap, some, arith, u64_mod, add64, sub64, mul64, div?,
  div?_pos,
}
use taiko_preconfer.Clock.{as_secs}
use taiko_preconfer.Clock.RoundTrip.{IsValid, get_slot_start}
use taiko_preconfer.Loops.{Config, Position, locate}

-- An L1 slot is `n` L2 slots of whole seconds.
pub record IsDivided (c : Config) (n : ℕ) : Type 0 where
  pub several : 0 < n
  pub l2_pos : 0 < as_secs c.l2_slot_duration
  pub divided : as_secs c.slot_model.slot_duration ≡ n * as_secs c.l2_slot_duration

le_mul : (a b : ℕ) → 0 < b → a ≤ a * b
le_mul a b h = grind arith

module _ (c : Config) (k n : ℕ) (valid : IsValid c.slot_model k) (d : IsDivided c n) where
  per_slot : div? (as_secs c.slot_model.slot_duration) (as_secs c.l2_slot_duration) ≡ some n
  per_slot =
      rw (d.divided, div?_pos (n * as_secs c.l2_slot_duration) _ d.l2_pos)
        (ap some (mul-div_left n d.l2_pos))

  l2_duration : div? (as_secs c.slot_model.slot_duration) n ≡ some (as_secs c.l2_slot_duration)
  l2_duration =
      rw (d.divided, mul_comm n (as_secs c.l2_slot_duration), div?_pos _ n d.several)
        (ap some (mul-div_left (as_secs c.l2_slot_duration) d.several))

  -- A position that holds a timestamp, without wrap-around: its L2 slot starts after all L1 slots and
  -- L2 slots before it.
  pub record IsLocated (timestamp : ℕ) (p : Position) : Type 0 where
    pub located : locate c timestamp ≡ some p
    pub starts :
        p.slot_timestamp
        ≡ c.slot_model.genesis_timestamp
          + as_secs c.slot_model.slot_duration * (p.slot.epoch * k + p.slot.slot)
          + p.subslot_in_slot * as_secs c.l2_slot_duration
    pub below : p.slot_timestamp ≤ timestamp
    pub above : timestamp < p.slot_timestamp + as_secs c.l2_slot_duration
    pub slot_lt : p.slot.slot < k
    pub subslot_lt : p.subslot_in_slot < n
    pub number : p.subslot ≡ p.slot.slot * n + p.subslot_in_slot
    pub per_slot_lem : p.subslots_per_slot ≡ n

  pub locate-IsLocated :
      (timestamp : ℕ)
      → c.slot_model.genesis_timestamp ≤ timestamp
      → timestamp < u64_mod
      → (p : Position) × IsLocated timestamp p
  unfolding locate
  locate-IsLocated timestamp g h =
      let (x, slot_lem, start_lem, le, lt, within_epoch) =
        get_slot_start c.slot_model k valid timestamp g h in
      let l2 = as_secs c.l2_slot_duration in
      let start =
        c.slot_model.genesis_timestamp
        + as_secs c.slot_model.slot_duration * (x.epoch * k + x.slot) in
      let q = (timestamp - start) / l2 in
      let exact : sub64 timestamp start ≡ timestamp - start = omega arith in
      let in_slot : div? (sub64 timestamp start) l2 ≡ some q = rw exact (div?_pos _ l2 d.l2_pos) in
      let whole = div-add-mod (timestamp - start) l2 in
      let rest = mod-lt (timestamp - start) d.l2_pos in
      let within : q < n = (div-lt_iff_lt-mul d.l2_pos).1 (omega (arith, d.divided, lt, le)) in
      let started : add64 start (mul64 q l2) ≡ start + q * l2 = omega (arith, whole, le, h) in
      let passed : x.slot * (n * l2) ≤ start = small x.epoch x.slot k n l2 d.divided in
      let subslots : (x.slot * n + q) * l2 ≤ timestamp = omega (arith, passed, whole, le) in
      let fits : x.slot * n + q ≤ (x.slot * n + q) * l2 = le_mul (x.slot * n + q) l2 d.l2_pos in
      let numbered : add64 (mul64 x.slot n) q ≡ x.slot * n + q = omega (arith, fits, subslots, h) in
      let p : Position = record {
        slot = x;
        subslots_per_slot = n;
        subslot_in_slot = q;
        subslot = add64 (mul64 x.slot n) q;
        slot_timestamp = add64 start (mul64 q l2);
      } in
      (
        p,
        record {
          located = rw (per_slot, slot_lem, start_lem, l2_duration, in_slot) refl;
          starts = started;
          below = omega (arith, started, whole, le);
          above = omega (arith, started, whole, rest, le);
          slot_lt = within_epoch;
          subslot_lt = within;
          number = numbered;
          per_slot_lem = refl;
        },
      )
    where
      small :
          (e t k n l2 : ℕ)
          → as_secs c.slot_model.slot_duration ≡ n * l2
          → t * (n * l2)
            ≤ c.slot_model.genesis_timestamp + as_secs c.slot_model.slot_duration * (e * k + t)
      small e t k n l2 same = rw same (omega arith)

  -- Where L1 slots are divided into L2 slots of whole seconds, every timestamp from the genesis on lies
  -- in an L2 slot: it starts no later, at most one L2 slot before, and is one of its L1 slot.
  pub locate-bounds :
      (timestamp : ℕ)
      → c.slot_model.genesis_timestamp ≤ timestamp
      → timestamp < u64_mod
      → (p : Position) × (locate c timestamp ≡ some p)
        × (p.slot_timestamp ≤ timestamp)
        × (timestamp < p.slot_timestamp + as_secs c.l2_slot_duration)
        × (p.subslot_in_slot < n)
        × (p.subslots_per_slot ≡ n)
  locate-bounds timestamp g h =
      let (p, l) = locate-IsLocated timestamp g h in
      (p, l.located, l.below, l.above, l.subslot_lt, l.per_slot_lem)
