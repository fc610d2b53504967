-- ===== src/Sdk.antt =====
-- lib/sdk.ts: what the LayerZero tooling asks of the program on Solana: peers, enforced options and
-- the configuration of a path. The endpoint's SDK, the encoder of options and the state of the chain
-- are parameters; a query that the node fails to answer is not modelled.
pub mod Options
pub mod Init
use lendmirror.Common.{
  ℕ, Bool, true, false, not, ◌&&◌, ◌||◌, Option, none, some, List, [], ◌∷◌, ◌++◌, map, length, ◌==◌,
  if◌then◌else◌,
}
use lendmirror.Common.Dict.{lookup, put}
use lendmirror.Common.Outcome.{Result, ok, err, ◌>>=◌, ◌>>◌, guard, require}
use lendmirror.Bytes.{Bytes}
use lendmirror.Pda.{Key}

abbrev pub msg_type_send : ℕ
msg_type_send = 1

abbrev pub msg_type_send_and_call : ℕ
msg_type_send_and_call = 2

unfoldable pub is_msg_type : ℕ → Bool
is_msg_type value = (value == msg_type_send) || (value == msg_type_send_and_call)

pub data SdkError : Type 0 where
  -- `Invalid msgType received`
  invalid_msg_type : SdkError
  -- `Invalid enforced options`
  invalid_options : SdkError
  -- `Peer must be 32 bytes`
  bad_peer : SdkError
  -- `No delegate found`
  no_delegate : SdkError
  -- `Failed to convert peer`
  unknown_peer : SdkError

pub record EnforcedOption : Type 0 where
  pub eid : ℕ
  pub msg_type : ℕ
  pub options : Bytes

abbrev pub OptionsByEid : Type 0
OptionsByEid = List (ℕ × List (ℕ × Bytes))

-- `PeerConfigParam`
pub data PeerConfig : Type 0 where
  peer_address : Bytes → PeerConfig
  enforced_options : (send send_and_call : Bytes) → PeerConfig

-- The instructions that the SDK puts into transactions, each with its signer.
pub data SdkInstruction : Type 0 where
  set_peer_config : (admin : Key) → (remote : ℕ) → PeerConfig → SdkInstruction
  init_oapp_nonce : (delegate : Key) → (remote : ℕ) → Bytes → SdkInstruction
  init_send_library : (delegate : Key) → (remote : ℕ) → SdkInstruction
  init_receive_library : (delegate : Key) → (remote : ℕ) → SdkInstruction
  init_oapp_config : (delegate : Key) → (remote : ℕ) → SdkInstruction

-- `setPeerConfig` of lib/client/lendmirror.ts
unfoldable pub peer_config_ix : Key → ℕ → PeerConfig → Result SdkError SdkInstruction
peer_config_ix admin remote (peer_address peer) =
    if length peer == 32
    then ok (set_peer_config admin remote (peer_address peer))
    else err bad_peer
peer_config_ix admin remote (enforced_options send send_and_call) =
    ok (set_peer_config admin remote (enforced_options send send_and_call))

unfoldable pub or_empty : OptionsByEid → ℕ → List (ℕ × Bytes)
or_empty by_eid eid = elim (lookup eid by_eid) [ none ↦ [] | some m ↦ m ]

module _ (encode : Bytes → Option Bytes) where
  -- One step of the reduction. A later option for the same path and type replaces an earlier one.
  unfoldable pub add_option : OptionsByEid → EnforcedOption → Result SdkError OptionsByEid
  add_option by_eid option = do
    guard (is_msg_type option.msg_type) invalid_msg_type
    bytes ← require (encode option.options) invalid_options
    ok (put option.eid (put option.msg_type bytes (or_empty by_eid option.eid)) by_eid)

  unfoldable pub reduce_from : OptionsByEid → List EnforcedOption → Result SdkError OptionsByEid
  reduce_from by_eid [] = ok by_eid
  reduce_from by_eid (option ∷ options) = do
    by_eid' ← add_option by_eid option
    reduce_from by_eid' options

  unfoldable pub reduce_enforced_options : List EnforcedOption → Result SdkError OptionsByEid
  reduce_enforced_options options = reduce_from [] options

  -- `optionsByMsgType.get(…) ?? emptyOptions`
  unfoldable pub option_or : Bytes → ℕ → List (ℕ × Bytes) → Bytes
  option_or empty_options msg_type by_type = elim (lookup msg_type by_type) [
    | none ↦ empty_options
    | some b ↦ b
  ]

  unfoldable pub options_ix : Key → Bytes → ℕ × List (ℕ × Bytes) → SdkInstruction
  options_ix admin empty_options (eid, by_type) = set_peer_config admin eid (
      enforced_options (option_or empty_options msg_type_send by_type)
        (option_or empty_options msg_type_send_and_call by_type))

  unfoldable pub set_enforced_options :
      Key → Bytes → List EnforcedOption → Result SdkError (List SdkInstruction)
  set_enforced_options admin empty_options options = do
    by_eid ← reduce_enforced_options options
    ok (map (options_ix admin empty_options) by_eid)

-- What is set up on chain for one path.
pub record PathState : Type 0 where
  pub send_library : Bool
  pub receive_library : Bool
  pub send_config : Bool
  pub receive_config : Bool

abbrev pub unless : Bool → SdkInstruction → List SdkInstruction
unless done ix = if done then [] else ix ∷ []

-- `setPeer`, of an address that `normalizePeer` has turned into bytes, if it could.
unfoldable pub set_peer :
    (admin : Key)
    → (delegate : Option Key) → (eid : ℕ) → (normalized : Option Bytes) → PathState
    → Result SdkError (List SdkInstruction)
set_peer admin delegate eid normalized path = do
  peer ← require normalized unknown_peer
  signer ← require delegate no_delegate
  address ← peer_config_ix admin eid (peer_address peer)
  options ← peer_config_ix admin eid (enforced_options (0 ∷ 3 ∷ []) (0 ∷ 3 ∷ []))
  ok (
      (address ∷ options ∷ init_oapp_nonce signer eid peer ∷ [])
      ++ (unless path.send_library (init_send_library signer eid)
          ++ unless path.receive_library (init_receive_library signer eid)))

unfoldable pub send_config_is_initialized : PathState → Bool
send_config_is_initialized path =
    if not path.send_library || not path.receive_library
    then false
    else path.send_config && path.receive_config

-- `initConfig`. Without a delegate the admin signs.
unfoldable pub init_instructions : Key → ℕ → PathState → List SdkInstruction
init_instructions signer eid path =
    unless (path.send_config && path.receive_config) (init_oapp_config signer eid)
    ++ (unless path.send_library (init_send_library signer eid)
        ++ unless path.receive_library (init_receive_library signer eid))

unfoldable pub init_config :
    (admin : Key) → (delegate : Option Key) → (eid : ℕ) → PathState → Option (List SdkInstruction)
init_config admin delegate eid path =
    if send_config_is_initialized path
    then none
    else let signer : Key = elim delegate [ none ↦ admin | some d ↦ d ] in
      elim (init_instructions signer eid path) [ [] ↦ none | ◌∷◌ ix ixs ↦ some (ix ∷ ixs) ]
