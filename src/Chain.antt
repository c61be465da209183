-- ===== src/Chain.antt =====
-- The parts of alloy's Header and Block that the program reads. A hash and an address are their
-- bits, read as a number; a transaction envelope is a type of its own, given by alloy.
use taiko_preconfer.Prelude.{ℕ, List}

pub record Header : Type 0 where
  pub number : ℕ
  pub timestamp : ℕ
  pub beneficiary : ℕ
  pub gas_used : ℕ
  pub state_root : ℕ
  pub hash : ℕ  -- what `hash_slow` computes

pub record Block (Tx : Type 0) : Type 0 where
  pub header : Header
  pub transactions : List Tx
