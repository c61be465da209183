-- ===== src/Loops/Confirming.antt =====
-- taiko-preconfer/src/confirmation_loop.rs: an iteration with its call of the confirmation strategy, and
-- runs of the loop beside the stream that fills the cache.
use taiko_preconfer.Prelude.{ℕ, Bool, Option, none, some, List, [], ◌∷◌, ◌++◌}
use taiko_preconfer.Prelude.Outcome.{Outcome, ok, or_panic, log_error, ◌>>=◌}
use taiko_preconfer.Chain.{Block}
use taiko_preconfer.Whitelist.{Address}
use taiko_preconfer.Anchor.{ValidAnchor}
use taiko_preconfer.Confirm.{ConfirmationError, Strategy, select, send}
use taiko_preconfer.Head.{State}
use taiko_preconfer.Head.Stream
use taiko_preconfer.Head.Stream.{get_l2_head_stream}
use taiko_preconfer.Loops.{Config, Duty, SendCall, confirmation_step}

-- What an iteration reads of the clock, of shared state and of the whitelist contract, and what the L1
-- client answers to a batch.
pub record Round (C Tx : Type 0) : Type 0 where
  pub timestamp : ℕ
  pub waiting : Bool
  pub next_operator : Option Address
  pub anchor : ValidAnchor
  pub latest_l1_timestamp : ℕ
  pub client_send : List (Block Tx) → ℕ → Outcome C (Unit {0})

-- A batch that is handed to the L1 client: when, by which call, in which state of the loop, and with
-- which last confirmed block.
pub record Delivery (Tx : Type 0) : Type 0 where
  pub timestamp : ℕ
  pub duty : Duty
  pub call : SendCall
  pub last_confirmed_block_id : Option ℕ
  pub batch : List (Block Tx)
  pub anchor_id : ℕ

-- Items of the stream of L2 heads, or an iteration of the loop.
pub data Event (E C Tx : Type 0) : Type 0 where
  arrival : Stream.Event E Tx → Event E C Tx
  iteration : Round C Tx → Event E C Tx

-- The batches that a call of `send` hands over: at most one.
unfoldable pub handed :
    {C D Tx : Type 0}
    → Round C Tx
    → Duty
    → SendCall
    → State Tx
    → Outcome (ConfirmationError D C) (Option (List (Block Tx) × ℕ))
    → List (Delivery Tx)
handed r d call head (ok (some (batch, id))) =
    record {
      timestamp = r.timestamp;
      duty = d;
      call = call;
      last_confirmed_block_id = head.last_confirmed_block_id;
      batch = batch;
      anchor_id = id;
    }
    ∷ []
handed r d call head _ = []

module _ {E C D Tx : Type 0} (get_anchor_block_id : Tx → Outcome D ℕ) (c : Config)
    (s : Strategy) where
  -- The call: the cache that it leaves, and what it hands over. Its error is logged.
  unfoldable pub call_send :
      Round C Tx → Duty → SendCall → State Tx → Outcome E (State Tx × List (Delivery Tx))
  unfolding send handed select log_error
  call_send r d call head =
      let (kept, result) =
        send get_anchor_block_id r.client_send s call.l1_slot_timestamp call.force_send
          call.current_anchor_id head.tx_cache in
      log_error result >>= λ _. ok (
        record head { tx_cache = kept },
        handed r d call head (
            select get_anchor_block_id s call.l1_slot_timestamp call.force_send
              call.current_anchor_id kept),
      )

  abbrev pub carry_out :
      Round C Tx
      → Duty
      → Duty
      → Option SendCall
      → State Tx
      → Outcome E (Duty × State Tx × List (Delivery Tx))
  carry_out r d after none head = ok (after, head, [])
  carry_out r d after (some call) head =
      call_send r d call head >>= λ (kept, deliveries). ok (after, kept, deliveries)

  -- An iteration: a division by zero in the slot model is a panic.
  unfoldable pub confirmation_round :
      Round C Tx → Duty → State Tx → Outcome E (Duty × State Tx × List (Delivery Tx))
  unfolding call_send
  confirmation_round r d head = do
    (after, call) ←
        or_panic (
          confirmation_step c r.waiting r.next_operator r.timestamp r.anchor r.latest_l1_timestamp
            d)
    carry_out r d after call head

  -- The loop beside the stream, over a sequence of events. After an error of the stream nothing arrives.
  unfoldable pub confirmation_run :
      List (Event E C Tx) → Duty → State Tx → Outcome E (Duty × State Tx × List (Delivery Tx))
  unfolding confirmation_round get_l2_head_stream
  confirmation_run [] d head = ok (d, head, [])
  confirmation_run (arrival e ∷ events) d head =
      confirmation_run events d (get_l2_head_stream head (e ∷ [])).0
  confirmation_run (iteration r ∷ events) d head = do
    (after, kept, now) ← confirmation_round r d head
    (last, left, later) ← confirmation_run events after kept
    ok (last, left, now ++ later)
