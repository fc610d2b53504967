-- ===== src/Pda/Lendmirror.antt =====
-- lib/client/seeds.ts, lib/client/pda.ts, and the derivations of lib/client/ccip.ts (lines 37-43) and
-- lib/client/bridge.ts (lines 38-45): every address that the LendMirror program owns.
pub mod Separation
use lendmirror.Common.{ℕ, List, [], ◌∷◌}
use lendmirror.Common.Int.{pos}
use lendmirror.Common.Text.{codes}
use lendmirror.Common.Outcome.{Result, ok, ◌>>=◌}
use lendmirror.Bytes.{Bytes, RangeError, checked_le}
use lendmirror.Pda.{Key, FindPda}
use lendmirror.Jupiter.Ticks.{u16_le, u32_le}

-- `SEEDS`, and the two seeds of pda.ts.
abbrev pub store_seed : Bytes
store_seed = codes "LendMirrorStoreV1"

abbrev pub peer_seed : Bytes
peer_seed = codes "LendMirrorPeerV1"

abbrev pub jup_position_seed : Bytes
jup_position_seed = codes "LendMirrorJupPositionV1"

abbrev pub ccip_route_seed : Bytes
ccip_route_seed = codes "LendMirrorCcipRouteV1"

abbrev pub ccip_payer_seed : Bytes
ccip_payer_seed = codes "LendMirrorCcipPayerV1"

abbrev pub wrapper_seed : Bytes
wrapper_seed = codes "LendMirrorPositionWrapperV1"

abbrev pub ondemand_seed : Bytes
ondemand_seed = codes "LendMirrorOnDemandV1"

abbrev pub wrapper_auth_seed : Bytes
wrapper_auth_seed = codes "LendMirrorWrapperAuthV1"

abbrev pub bridge_route_seed : Bytes
bridge_route_seed = codes "LendMirrorBridgeRouteV1"

abbrev pub nonce_seed : Bytes
nonce_seed = codes "Nonce"

abbrev pub lz_receive_types_seed : Bytes
lz_receive_types_seed = codes "LzReceiveTypes"

-- `u32_be` is umi's `u32({ endian: Endian.Big }).serialize`.
module _ (u32_be : ℕ → Bytes) where
  unfoldable pub peer_seeds : Key → ℕ → List Bytes
  peer_seeds count dst_chain_id = peer_seed ∷ count ∷ u32_be dst_chain_id ∷ []

  unfoldable pub nonce_seeds : Key → ℕ → Bytes → List Bytes
  nonce_seeds receiver remote_eid sender = nonce_seed ∷ receiver ∷ u32_be remote_eid ∷ sender ∷ []

unfoldable pub lz_receive_types_seeds : Key → List Bytes
lz_receive_types_seeds store = lz_receive_types_seed ∷ store ∷ []

unfoldable pub jup_position_seeds : ℕ → ℕ → List Bytes
jup_position_seeds vault_id nft_id = jup_position_seed ∷ u16_le vault_id ∷ u32_le (pos nft_id) ∷ []

unfoldable pub wrapper_seeds : ℕ → ℕ → List Bytes
wrapper_seeds vault_id nft_id = wrapper_seed ∷ u16_le vault_id ∷ u32_le (pos nft_id) ∷ []

unfoldable pub ondemand_seeds : Key → List Bytes
ondemand_seeds wrapper = ondemand_seed ∷ wrapper ∷ []

unfoldable pub wrapper_authority_seeds : Key → List Bytes
wrapper_authority_seeds wrapper = wrapper_auth_seed ∷ wrapper ∷ []

unfoldable pub bridge_route_seeds : Key → Bytes → List Bytes
bridge_route_seeds mint chain = bridge_route_seed ∷ mint ∷ chain ∷ []

module _ (find_pda : FindPda) where
  -- The ProgramData address, under the BPF loader's id.
  unfoldable pub program_data : Key → Key → Key
  program_data bpf_loader_upgradeable program_id = find_pda bpf_loader_upgradeable (program_id ∷ [])

  module _ (program_id : Key) where
    unfoldable pub oapp : Key
    oapp = find_pda program_id (store_seed ∷ [])

    unfoldable pub lz_receive_types_accounts : Key
    unfolding oapp
    lz_receive_types_accounts = find_pda program_id (lz_receive_types_seeds oapp)

    unfoldable pub jup_position : ℕ → ℕ → Key
    jup_position vault_id nft_id = find_pda program_id (jup_position_seeds vault_id nft_id)

    unfoldable pub wrapper : ℕ → ℕ → Key
    wrapper vault_id nft_id = find_pda program_id (wrapper_seeds vault_id nft_id)

    unfoldable pub ondemand : Key → Key
    ondemand w = find_pda program_id (ondemand_seeds w)

    unfoldable pub wrapper_authority : Key → Key
    wrapper_authority w = find_pda program_id (wrapper_authority_seeds w)

    unfoldable pub ccip_route_address : Key
    ccip_route_address = find_pda program_id (ccip_route_seed ∷ [])

    unfoldable pub ccip_payer_address : Key
    ccip_payer_address = find_pda program_id (ccip_payer_seed ∷ [])

    -- `writeBigUInt64LE` refuses a chain id that does not fit in 64 bits.
    unfoldable pub bridge_route_address : Key → ℕ → Result RangeError Key
    bridge_route_address mint dst_chain_id = do
      chain ← checked_le 8 dst_chain_id
      ok (find_pda program_id (bridge_route_seeds mint chain))

    module _ (u32_be : ℕ → Bytes) where
      unfoldable pub peer : ℕ → Key
      unfolding oapp
      peer dst_chain_id = find_pda program_id (peer_seeds u32_be oapp dst_chain_id)

      unfoldable pub nonce : Key → ℕ → Bytes → Key
      nonce receiver remote_eid sender =
          find_pda program_id (nonce_seeds u32_be receiver remote_eid sender)
