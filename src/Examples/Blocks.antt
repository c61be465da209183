-- ===== src/Examples/Blocks.antt =====
-- The theorems at concrete inputs: the cache, the streams and the L2 head.
use taiko_preconfer.Prelude.{
  ℕ, ◌+◌, ◌*◌, ◌≡◌, ◌⊎◌, refl, arith, Bool, true, false, Option, none, some, List, [], ◌∷◌, All,
  if◌then◌else◌, ◌==◌,
}
use taiko_preconfer.Prelude.Outcome.{Outcome, ok, err}
use taiko_preconfer.Chain.{Header, Block}
use taiko_preconfer.Cache.{add_block, retain_blocks}
use taiko_preconfer.Cache.Order.{IsOrdered, find, find-add_block}
use taiko_preconfer.Streams.{get_block_stream, get_block_polling_stream, InboxPoll}
use taiko_preconfer.Streams.Polling.{answered}
use taiko_preconfer.Head.{State, confirmed, handle}
use taiko_preconfer.Head.Invariant.{Inv, AnswersById}
use taiko_preconfer.Head.Runs.{here, next, item, IsGood, Reach-IsGood}
use taiko_preconfer.Tracking.Sources.{Source, ok_blocks, create_block_stream}
use taiko_preconfer.Tracking.Complete.{SeenIn, create_block_stream-SeenIn}
use taiko_preconfer.Head.Refine.{IsHead, IsReorganised, on_unconfirmed-refines}

abbrev header : ℕ → Header
header n = record {
  number = n;
  timestamp = 100 + 2 * n;
  beneficiary = 77;
  gas_used = 0;
  state_root = 0;
  hash = 9000 + n;
}

-- Transactions are numbers here; the first is the block's anchor.
abbrev block : ℕ → Block ℕ
block n = record { header = header n; transactions = 5 ∷ n ∷ [] }

abbrev two : List (Block ℕ)
two = block 3 ∷ block 6 ∷ []

two-IsOrdered : IsOrdered two
two-IsOrdered = ((omega arith, tt), (tt, tt))

find-add_block_example :
    find 4 (add_block two (block 4))
    ≡ (if (block 4).header.number == 4 then some (block 4) else find 4 two)
find-add_block_example = find-add_block 4 two (block 4)

abbrev polls : List (Option (Block ℕ))
polls = some (block 3) ∷ none ∷ some (block 3) ∷ []

-- The inbox answers twice, and fails the third time.
abbrev inbox_polls : List (InboxPoll ℕ)
inbox_polls =
    record { num_batches = ok 3; last_block_id = λ id. ok 7 }
    ∷ record { num_batches = ok 4; last_block_id = λ id. ok 9 }
    ∷ record { num_batches = err 1; last_block_id = λ id. ok 9 }
    ∷ []

abbrev node : Option ℕ → Option (Block ℕ)
node none = some (block 8)
node (some id) = some (block id)

node-AnswersById : AnswersById node
node-AnswersById id b h = ground arith

abbrev verdict : Bool → List (Block ℕ) → Outcome ℕ Bool
verdict answer blocks = ok answer

abbrev state : State ℕ
state = record { last_confirmed_block_id = some 2; tx_cache = two; first_confirmation = false }

state-Inv : Inv (some 2) two
state-Inv = record { ordered = two-IsOrdered; pending = (omega arith, (omega arith, tt)) }

abbrev after : State ℕ
after = record {
  last_confirmed_block_id = some 3;
  tx_cache = block 6 ∷ [];
  first_confirmation = false;
}

confirm_three : handle node (verdict true) state (confirmed 3) ≡ ok (after, [])
unfolding handle retain_blocks
confirm_three = refl

Reach-IsGood_example : IsGood ℕ after
Reach-IsGood_example =
    Reach-IsGood ℕ {s = state} {t = after} state-Inv
      (next here (item node node-AnswersById (verdict true) (confirmed 3) [] confirm_three))

-- The subscription fails once, and polling finds the same block.
abbrev source : Source ℕ (Outcome ℕ (Block ℕ)) ℕ
source = record {
  connect = ok tt;
  connect_ws = ok tt;
  subscribe = ok (ok (block 3) ∷ err 1 ∷ []);
  polls = polls;
}

created : create_block_stream (true ∷ []) source ≡ ok (block 3 ∷ [])
unfolding create_block_stream get_block_stream get_block_polling_stream
created = refl

create_block_stream-SeenIn_example :
    All (SeenIn (block 3 ∷ [])) (ok_blocks {E = ℕ} (ok (block 3) ∷ err 1 ∷ []))
    × All (SeenIn (block 3 ∷ [])) (answered polls)
create_block_stream-SeenIn_example =
    create_block_stream-SeenIn (true ∷ []) source (ok (block 3) ∷ err 1 ∷ []) (block 3 ∷ []) refl
      created

-- Block 4 arrives while block 6 is cached: the node is asked again.
on_unconfirmed-refines_example :
    IsHead node node-AnswersById state (block 4) refl (omega arith)
    ⊎ IsReorganised node node-AnswersById state (block 4) refl (omega arith)
on_unconfirmed-refines_example =
    on_unconfirmed-refines node node-AnswersById state (block 4) refl (omega arith)
