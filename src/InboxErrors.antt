-- ===== src/InboxErrors.antt =====
-- preconfirmation/src/util.rs: the texts of the errors that the inbox contract reports. A text is
-- Rust's, with positions in bytes.
use Prim.Native.String.{String, len, ◌++◌}
use text.Mathlib.Text.{◌==◌, get?}
use taiko_preconfer.Prelude.{Option, none, some, List, [], ◌∷◌, if◌then◌else◌, sub64, ◌>>=◌}

-- The arms of the match: a selector and the error's name.
abbrev pub inbox_errors : List (String × String)
inbox_errors =
    ("0x7f14daf8", "AnchorBlockIdTooLarge()")
    ∷ ("0x46afbf54", "AnchorBlockIdTooSmall()")
    ∷ ("0x83c7eca6", "ArraySizesMismatch()")
    ∷ ("0x9e15e1bc", "BatchNotFound()")
    ∷ ("0xc63c8bfd", "BatchVerified()")
    ∷ ("0x8879ee78", "BeyondCurrentFork()")
    ∷ ("0xf765f45e", "BlobNotFound()")
    ∷ ("0xfeb32ebd", "BlockNotFound()")
    ∷ ("0xf911438d", "BlobNotSpecified()")
    ∷ ("0xab35696f", "ContractPaused()")
    ∷ ("0x10213ad7", "CustomProposerMissing()")
    ∷ ("0xc25c48e2", "CustomProposerNotAllowed()")
    ∷ ("0x018ad7d6", "EtherNotPaidAsBond()")
    ∷ ("0x324d6078", "FirstBlockTimeShiftNotZero()")
    ∷ ("0x0db26169", "ForkNotActivated()")
    ∷ ("0xe92c469f", "InsufficientBond()")
    ∷ ("0x0f49f066", "InvalidBlobCreatedIn()")
    ∷ ("0x2677ebff", "InvalidBlobParams()")
    ∷ ("0xcd21cd43", "InvalidGenesisBlockHash()")
    ∷ ("0xa86b6512", "InvalidParams()")
    ∷ ("0xac97cfc7", "InvalidTransitionBlockHash()")
    ∷ ("0x19ead341", "InvalidTransitionParentHash()")
    ∷ ("0x6c0118eb", "InvalidTransitionStateRoot()")
    ∷ ("0x419b53b7", "MetaHashMismatch()")
    ∷ ("0x798ee6f1", "MsgValueNotZero()")
    ∷ ("0x367b91ca", "NoBlocksToProve()")
    ∷ ("0x09e29fae", "NotFirstProposal()")
    ∷ ("0x5e9e4449", "NotInboxWrapper()")
    ∷ ("0xff626f77", "ParentMetaHashMismatch()")
    ∷ ("0xed6222ff", "SameTransition()")
    ∷ ("0x8601a5fe", "SignalNotSent()")
    ∷ ("0x21389b84", "TimestampSmallerThanParent()")
    ∷ ("0x3d32ffdb", "TimestampTooLarge()")
    ∷ ("0x1999aed2", "TimestampTooSmall()")
    ∷ ("0xa464214b", "TooManyBatches()")
    ∷ ("0x7f06d57a", "TooManyBlocks()")
    ∷ ("0xc577d383", "TooManySignals()")
    ∷ ("0x76be38bc", "TransitionNotFound()")
    ∷ ("0x2b44f010", "ZeroAnchorBlockHash()")
    ∷ []

-- A match on literals: the first arm that fits, or the code itself.
abbrev pub first_arm : String → List (String × String) → String
first_arm code [] = code
first_arm code ((selector, name) ∷ arms) = if code == selector then name else first_arm code arms

unfoldable pub parse_taiko_inbox_error : String → String
parse_taiko_inbox_error code = first_arm code inbox_errors

-- alloy's TransportError: a response with a code, a message and perhaps JSON data, or another error.
pub data TransportError (C O : Type 0) : Type 0 where
  error_resp : C → String → Option String → TransportError C O
  other : O → TransportError C O

-- The numbers and other errors are printed by std and alloy. none is the panic of the slice.
module _ {C O : Type 0} (print_code : C → String) (print_other : O → String) where
  unfoldable pub parse_transport_error : TransportError C O → Option String
  unfolding parse_taiko_inbox_error
  parse_transport_error (error_resp code message (some data_str)) = do
    selector ← get? data_str 1 (sub64 (len data_str) 1)
    some (parse_taiko_inbox_error selector)
  parse_transport_error (error_resp code message none) = some (print_code code ++ " " ++ message)
  parse_transport_error (other e) = some (print_other e)
