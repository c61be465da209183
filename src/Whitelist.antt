-- ===== src/Whitelist.antt =====
-- taiko-preconfer/src/util.rs: the operators known for the current and the next epoch.
pub mod Epochs
use taiko_preconfer.Prelude.{
  ℕ, Bool, true, false, ◌&&◌, Option, none, some, List, [], ◌∷◌, ◌++◌, if◌then◌else◌, ltb, leb,
  ◌==◌, add64, length, all, retain, is_empty,
}

-- An address is its 160 bits, read as a number.
abbrev pub Address : Type 0
Address = ℕ

pub record ActiveOperator : Type 0 where
  pub epoch : ℕ
  pub operator : Address

abbrev pub default_operator : ActiveOperator
default_operator = record { epoch = 0; operator = 0 }

-- The contract behind `whitelist` is not part of the state: what it answers is an argument.
pub record WhitelistMonitor : Type 0 where
  pub operators : List ActiveOperator

unfoldable pub new : WhitelistMonitor
new = record { operators = [] }

unfoldable pub is_current_and_next : WhitelistMonitor → Address → Bool
is_current_and_next m preconfer =
    length m.operators == 2 && all (λ o. o.operator == preconfer) m.operators

-- `contains` for the derived equality.
abbrev pub contains : List ActiveOperator → ℕ → Address → Bool
contains [] epoch preconfer = false
contains (o ∷ os) epoch preconfer =
    if o.epoch == epoch && o.operator == preconfer then true else contains os epoch preconfer

unfoldable pub is_active_in : WhitelistMonitor → Address → ℕ → Bool
is_active_in m preconfer epoch = contains m.operators epoch preconfer

unfoldable pub change_epoch : WhitelistMonitor → ℕ → WhitelistMonitor
change_epoch m current_epoch = record m {
  operators = retain (λ o. leb current_epoch o.epoch) m.operators;
}

-- `answer` is what `log_error` leaves of the contract's answer, none if the call failed.
unfoldable pub update_current_operator : WhitelistMonitor → ℕ → Option Address → WhitelistMonitor
update_current_operator m epoch none = m
update_current_operator m epoch (some operator) =
    let kept = retain (λ o. ltb epoch o.epoch) m.operators in
    let current : ActiveOperator = record { epoch = epoch; operator = operator } in
    record m { operators = if is_empty kept then kept ++ current ∷ [] else current ∷ kept }

-- `last().cloned().unwrap_or_default()`.
abbrev pub last_or_default : List ActiveOperator → ActiveOperator
last_or_default [] = default_operator
last_or_default (o ∷ []) = o
last_or_default (o ∷ p ∷ os) = last_or_default (p ∷ os)

-- `if let Some(last) = last_mut() { last.operator = operator }`.
abbrev pub set_last_operator : List ActiveOperator → Address → List ActiveOperator
set_last_operator [] operator = []
set_last_operator (o ∷ []) operator = record o { operator = operator } ∷ []
set_last_operator (o ∷ p ∷ os) operator = o ∷ set_last_operator (p ∷ os) operator

unfoldable pub update_next_operator : WhitelistMonitor → ℕ → Option Address → WhitelistMonitor
update_next_operator m epoch none = m
update_next_operator m epoch (some operator) =
    let next_epoch = add64 epoch 1 in
    let kept = retain (λ o. leb epoch o.epoch && leb o.epoch next_epoch) m.operators in
    let next : ActiveOperator = record { epoch = next_epoch; operator = operator } in
    record m {
      operators =
          if ltb (last_or_default kept).epoch next_epoch
          then kept ++ next ∷ []
          else set_last_operator kept operator;
    }
