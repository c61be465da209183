-- ===== src/Rpc.antt =====
-- preconfirmation/src/client/reqwest.rs: the JSON requests for headers and blocks. The server at a url is
-- an argument: none is a request that cannot be sent.
use Prim.Native.String.{String}
use taiko_preconfer.Prelude.{ℕ, Bool, true, false, Option, none, some, List, [], ◌∷◌}
use taiko_preconfer.Prelude.Outcome.{Outcome, ok, or_panic, ◌>>=◌}
use taiko_preconfer.Chain.{Header, Block}
use taiko_preconfer.Batch.{Bytes}
use taiko_preconfer.Hex.{u64_to_hex}

-- The values that the parameters of a request have here; a text is the list of its bytes.
pub data Json : Type 0 where
  text : Bytes → Json
  boolean : Bool → Json

-- The text "latest".
abbrev pub latest_tag : Bytes
latest_tag = b'l' ∷ b'a' ∷ b't' ∷ b'e' ∷ b's' ∷ b't' ∷ []

pub record JsonRequest : Type 0 where
  pub jsonrpc : String
  pub method : String
  pub params : List Json
  pub id : ℕ

unfoldable pub new : String → List Json → JsonRequest
new method params = record { jsonrpc = "2.0"; method = method; params = params; id = 1 }

pub record JsonResponse (A : Type 0) : Type 0 where
  pub jsonrpc : String
  pub id : ℕ
  pub result : A

pub data HttpMethod : Type 0 where
  get post : HttpMethod

-- A server, for each type that an answer is decoded to. The inner result is that of decoding it.
pub record Server (E Tx : Type 0) : Type 0 where
  pub send_for_block :
      HttpMethod → String → JsonRequest → Option (Outcome E (JsonResponse (Block Tx)))
  pub send_for_header : HttpMethod → String → JsonRequest → Option (Outcome E (JsonResponse Header))

module _ {E Tx : Type 0} (server : Server E Tx) (url : String) where
  -- `send().await.unwrap()` panics where the request cannot be sent.
  abbrev pub answer :
      {A : Type 0} → Option (Outcome E (JsonResponse A)) → Outcome E (JsonResponse A)
  answer sent = or_panic sent >>= λ decoded. decoded

  unfoldable pub get_header_by_id : ℕ → Outcome E Header
  unfolding new
  get_header_by_id id = do
    let request = new "eth_getBlockByNumber" (text (u64_to_hex id) ∷ boolean false ∷ [])
    response ← answer (server.send_for_block post url request)
    ok response.result.header

  unfoldable pub params_of : Option ℕ → List Json
  params_of (some id) = text (u64_to_hex id) ∷ boolean true ∷ []
  params_of none = text latest_tag ∷ boolean true ∷ []

  unfoldable pub get_block_by_id : Option ℕ → Outcome E (Block Tx)
  unfolding new params_of
  get_block_by_id id = do
    let request = new "eth_getBlockByNumber" (params_of id)
    response ← answer (server.send_for_block post url request)
    ok response.result

  unfoldable pub get_latest_header : Outcome E Header
  unfolding new
  get_latest_header = do
    let request = new "eth_getBlockByNumber" (text latest_tag ∷ boolean false ∷ [])
    response ← answer (server.send_for_header get url request)
    ok response.result

  unfoldable pub get_latest_block : Outcome E (Block Tx)
  unfolding new
  get_latest_block = do
    let request = new "eth_getBlockByNumber" (text latest_tag ∷ boolean true ∷ [])
    response ← answer (server.send_for_block get url request)
    ok response.result
