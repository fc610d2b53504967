-- ===== src/Config.antt =====
-- config/types.ts: the profile of a deployment. Addresses of Solana are keys, other texts the codes
-- of their characters, numbers of lamports and chain ids natural numbers.
pub mod Devnet
pub mod Mainnet
use lendmirror.Common.{ℕ, List, Option}
use lendmirror.Common.Int.{ℤ}
use lendmirror.Pda.{Key}

pub data DeploymentType : Type 0 where
  devnet mainnet : DeploymentType

pub record CcipProfile : Type 0 where
  pub router : Key
  pub fee_quoter : Key
  pub rmn_remote : Key
  pub link_mint : Key
  pub dest_chain_selector : ℕ
  pub source_chain_selector : ℕ
  pub evm_router : List ℕ
  pub gas_limit : ℕ
  pub payer : Key

pub record CctpProfile : Type 0 where
  pub token_messenger_minter : Key
  pub message_transmitter : Key
  pub usdc_mint : Key
  pub evm_domain : ℕ
  pub solana_domain : ℕ
  pub evm_message_transmitter : List ℕ
  pub attestation_api : List ℕ

pub data LzIssuer : Type 0 where
  standard_oft : (escrow : Key) → LzIssuer
  usdt0 : (escrow : Key) → LzIssuer
  usdai : (store pause_config fee_config default_rate_limit rate_limit fee_deposit : Key) → LzIssuer

pub record LzTokenProfile : Type 0 where
  pub symbol : List ℕ
  pub mint : Key
  pub decimals : ℕ
  pub issuer_program : Key
  pub dst_eid : ℕ
  pub token_program : Key
  pub issuer : LzIssuer
  pub min_under_bps : ℕ
  pub options : List ℕ
  pub native_fee_cap_lamports : ℤ
  pub lookup_table : Key
  pub evm_token : List ℕ

pub record EnvNames : Type 0 where
  pub solana_keypair_path : List ℕ
  pub evm_private_key : List ℕ
  pub solana_rpc : List ℕ
  pub evm_rpc : List ℕ

pub record DeploymentProfile : Type 0 where
  pub type : DeploymentType
  pub solana_eid : ℕ
  pub evm_eid : ℕ
  pub evm_network : List ℕ
  pub program_id : Key
  pub store : Key
  pub evm_proxy : List ℕ
  pub evm_implementation : List ℕ
  pub lz_endpoint : List ℕ
  pub ccip : Option CcipProfile
  pub cctp : Option CctpProfile
  pub treasury : List ℕ
  pub lz_tokens : List LzTokenProfile
  pub env : EnvNames
