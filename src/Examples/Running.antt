-- ===== src/Examples/Running.antt =====
-- The theorems at concrete inputs: the confirmation loop beside the others, and the end.
use taiko_preconfer.Prelude.{
  ℕ, ◌+◌, ◌*◌, ◌≡◌, refl, arith, true, false, Option, none, some, List, [], ◌∷◌, All,
}
use taiko_preconfer.Prelude.Outcome.{Outcome, ok, err}
use taiko_preconfer.Chain.{Block}
use taiko_preconfer.Anchor
use taiko_preconfer.Cache.{add_block, sort, replace_or_push, retain_blocks}
use taiko_preconfer.Clock.{get_slot}
use taiko_preconfer.Confirm.{Strategy, candidates, block_anchor_id, batch_blocks, is_due}
use taiko_preconfer.Handover.{
  can_confirm, is_handover_start_slot, is_last_slot_before_handover_window, within_handover_period,
}
use taiko_preconfer.Head.{State, unconfirmed, handle}
use taiko_preconfer.Head.Runs.{IsGood}
use taiko_preconfer.Head.Stream.{received}
use taiko_preconfer.Loops.{confirmation_step}
use taiko_preconfer.Loops.Confirming.{Round, Delivery, Event, arrival, iteration, confirmation_run}
use taiko_preconfer.Application.Deliveries.{IsLegal, confirmation_run-IsLegal}
use taiko_preconfer.Examples.Loops.{config, duty, anchor, call}

abbrev block : ℕ → Block ℕ
block n = record {
  header = record {
    number = n;
    timestamp = 1400 + 2 * n;
    beneficiary = 10;
    gas_used = 0;
    state_root = 0;
    hash = 9000 + n;
  };
  transactions = 0 ∷ n ∷ [];
}

abbrev strategy : Strategy
strategy = record { max_blocks = 2; valid_timestamp = record { max_offset = 100 }; address = 10 }

abbrev head : List (Block ℕ) → State ℕ
head cache = record {
  first_confirmation = false;
  tx_cache = cache;
  last_confirmed_block_id = some 2;
}

abbrev round : Round ℕ ℕ
round = record {
  timestamp = 1425;
  waiting = false;
  next_operator = none;
  anchor = anchor;
  latest_l1_timestamp = 1420;
  client_send = λ batch id. err 4;
}

abbrev get_block : Option ℕ → Option (Block ℕ)
get_block none = some (block 4)
get_block (some id) = some (block id)

get_block_by_id : (id : ℕ) (b : Block ℕ) → get_block (some id) ≡ some b → b.header.number ≡ id
get_block_by_id id b h = ground arith

-- A block arrives, and then the loop wakes up: the two blocks are enough for a batch.
abbrev events : List (Event ℕ ℕ ℕ)
events =
    arrival (received get_block (λ blocks. ok true) (unconfirmed (block 4))) ∷ iteration round ∷ []

abbrev both : List (Block ℕ)
both = block 3 ∷ block 4 ∷ []

abbrev delivery : Delivery ℕ
delivery = record {
  timestamp = 1425;
  duty = duty;
  call = call;
  last_confirmed_block_id = some 2;
  batch = both;
  anchor_id = 0;
}

abbrev get_anchor_block_id : ℕ → Outcome ℕ ℕ
get_anchor_block_id tx = ok tx

runs :
    confirmation_run get_anchor_block_id config strategy events duty (head (block 3 ∷ []))
    ≡ ok (duty, head both, delivery ∷ [])
unfolding confirmation_run confirmation_step get_slot can_confirm is_handover_start_slot
    is_last_slot_before_handover_window candidates retain_blocks handle add_block sort
    replace_or_push block_anchor_id batch_blocks is_due within_handover_period
    Anchor.id_and_state_root
runs = refl

third-IsGood : IsGood ℕ (head (block 3 ∷ []))
third-IsGood = record { ordered = (tt, tt); pending = (omega arith, tt) }

confirmation_run-IsLegal_example :
    IsGood ℕ (head both) × All (IsLegal get_anchor_block_id config strategy) (delivery ∷ [])
confirmation_run-IsLegal_example =
    confirmation_run-IsLegal get_anchor_block_id config strategy events duty duty
      (head (block 3 ∷ [])) (head both) (delivery ∷ []) third-IsGood (get_block_by_id, (tt, tt))
      runs
