-- ===== src/Bridge.antt =====
-- lib/client/bridge.ts, lines 16-86: EVM addresses, the route's address and the instruction that sets
-- a route.
pub mod Receiver
pub mod Cctp
pub mod Lz
pub mod TokenAccounts
pub mod Writable
pub mod Entries
pub mod Ccip
pub mod Routes
use lendmirror.Common.{
  ℕ, ◌+◌, Bool, true, false, Option, none, some, List, [], ◌∷◌, ◌++◌, length, drop, ◌==◌,
  if◌then◌else◌,
}
use lendmirror.Common.Outcome.{Result, ok, err, ◌>>=◌, map_err}
use lendmirror.Bytes.{Bytes, RangeError, zeros, write_at}
use lendmirror.Pda.{Key, FindPda}
use lendmirror.Pda.Lendmirror.{oapp, bridge_route_address}
use lendmirror.Known.{system_program}
use lendmirror.Hex.{from_hex}

abbrev pub provider_cctp : ℕ
provider_cctp = 1

abbrev pub provider_ccip : ℕ
provider_ccip = 2

abbrev pub provider_lz_oft : ℕ
provider_lz_oft = 3

abbrev pub cctp_finality_fast : ℕ
cctp_finality_fast = 1000

abbrev pub cctp_finality_standard : ℕ
cctp_finality_standard = 2000

pub data BridgeError : Type 0 where
  -- `Expected a 20-byte hex address`
  not_an_address : BridgeError
  -- `Mint … not found`
  no_mint : BridgeError
  -- `no token admin registry`
  not_registered : BridgeError
  -- `Lookup table … not found`
  no_table : BridgeError
  -- `Lookup table … has … entries; expected at least 9`
  short_table : BridgeError
  range : BridgeError

-- `address.startsWith('0x') ? address.slice(2) : address`
unfoldable pub strip_0x : List ℕ → List ℕ
strip_0x [] = []
strip_0x (a ∷ []) = a ∷ []
strip_0x (a ∷ b ∷ cs) = if a == 48 then (if b == 120 then cs else a ∷ b ∷ cs) else a ∷ b ∷ cs

unfoldable pub evm_address_to_32 : List ℕ → Result BridgeError Bytes
unfolding strip_0x
evm_address_to_32 address =
    let raw = strip_0x address in
    if length raw == 40
    then map_err (λ _. range) (write_at 12 (from_hex raw) (zeros 32))
    else err not_an_address

pub record SetBridgeRouteArgs : Type 0 where
  pub mint : Key
  pub dst_chain_id : ℕ
  pub provider : ℕ
  pub provider_program : Key
  pub provider_aux : Option Key
  pub receiver : List ℕ
  pub destination_caller : List ℕ
  pub domain_or_selector : ℕ
  pub gas_limit : ℕ
  pub enabled : Bool
  pub max_amount_per_tx : ℕ

-- What `setBridgeRoute` is given: the accounts, then the parameters.
pub record SetBridgeRouteInput : Type 0 where
  pub admin : Key
  pub store : Key
  pub bridge_route : Key
  pub mint : Key
  pub dst_chain_id : ℕ
  pub provider : ℕ
  pub provider_program : Key
  pub provider_aux : Key
  pub receiver : Bytes
  pub destination_caller : Bytes
  pub domain_or_selector : ℕ
  pub gas_limit : ℕ
  pub enabled : Bool
  pub max_amount_per_tx : ℕ

-- An empty caller lets anyone claim.
unfoldable pub caller_bytes : List ℕ → Result BridgeError Bytes
caller_bytes [] = ok (zeros 32)
caller_bytes (c ∷ cs) = evm_address_to_32 (c ∷ cs)

-- The part of a bridge call that all three bridges share.
pub record BridgeTokensArgs : Type 0 where
  pub vault_id : ℕ
  pub nft_id : ℕ
  pub mint : Key
  pub dst_chain_id : ℕ
  pub amount : ℕ

pub record BridgeTokensParams : Type 0 where
  pub amount : ℕ
  pub dst_chain_id : ℕ
  pub max_fee : ℕ
  pub min_finality_threshold : ℕ
  pub fee_lamports : ℕ
  pub min_amount : ℕ
  pub native_fee : ℕ
  pub options : Bytes

module _ (find_pda : FindPda) (program_id : Key) where
  unfoldable pub set_bridge_route :
      Key → SetBridgeRouteArgs → Result BridgeError SetBridgeRouteInput
  set_bridge_route admin args = do
    bridge_route ←
        map_err (λ _. range) (bridge_route_address find_pda program_id args.mint args.dst_chain_id)
    receiver ← evm_address_to_32 args.receiver
    destination_caller ← caller_bytes args.destination_caller
    ok (record {
      admin = admin;
      store = oapp find_pda program_id;
      bridge_route = bridge_route;
      mint = args.mint;
      dst_chain_id = args.dst_chain_id;
      provider = args.provider;
      provider_program = args.provider_program;
      provider_aux = elim args.provider_aux [ none ↦ system_program | some k ↦ k ];
      receiver = receiver;
      destination_caller = destination_caller;
      domain_or_selector = args.domain_or_selector;
      gas_limit = args.gas_limit;
      enabled = args.enabled;
      max_amount_per_tx = args.max_amount_per_tx;
    })
