-- ===== src/Config/Devnet.antt =====
-- config/devnet.ts, with the base58 ids decoded.
use lendmirror.Common.{[], ◌∷◌, some}
use lendmirror.Common.Int.{pos}
use lendmirror.Common.Text.{codes}
use lendmirror.Config.{
  DeploymentProfile, CcipProfile, CctpProfile, LzTokenProfile, EnvNames, devnet, standard_oft,
}

abbrev pub pyusd : LzTokenProfile
pyusd = record {
  symbol = codes "PYUSD";
  mint =
      171 ∷ 80 ∷ 159 ∷ 148 ∷ 33 ∷ 177 ∷ 42 ∷ 85 ∷ 219 ∷ 57 ∷ 80 ∷ 253 ∷ 179 ∷ 117 ∷ 139 ∷ 60 ∷ 13
      ∷ 108 ∷ 23 ∷ 95 ∷ 3 ∷ 76 ∷ 14 ∷ 65 ∷ 231 ∷ 126 ∷ 165 ∷ 240 ∷ 153 ∷ 17 ∷ 62 ∷ 14 ∷ [];
  decimals = 6;
  issuer_program =
      12 ∷ 48 ∷ 178 ∷ 255 ∷ 252 ∷ 8 ∷ 38 ∷ 36 ∷ 160 ∷ 213 ∷ 63 ∷ 63 ∷ 207 ∷ 146 ∷ 22 ∷ 238 ∷ 23
      ∷ 166 ∷ 250 ∷ 139 ∷ 4 ∷ 207 ∷ 112 ∷ 34 ∷ 25 ∷ 183 ∷ 188 ∷ 195 ∷ 133 ∷ 36 ∷ 170 ∷ 18 ∷ [];
  dst_eid = 40161;
  token_program =
      6 ∷ 221 ∷ 246 ∷ 225 ∷ 238 ∷ 117 ∷ 143 ∷ 222 ∷ 24 ∷ 66 ∷ 93 ∷ 188 ∷ 228 ∷ 108 ∷ 205 ∷ 218 ∷ 182
      ∷ 26 ∷ 252 ∷ 77 ∷ 131 ∷ 185 ∷ 13 ∷ 39 ∷ 254 ∷ 189 ∷ 249 ∷ 40 ∷ 216 ∷ 161 ∷ 139 ∷ 252 ∷ [];
  min_under_bps = 0;
  native_fee_cap_lamports = pos 50000000;
  lookup_table =
      132 ∷ 28 ∷ 73 ∷ 198 ∷ 29 ∷ 7 ∷ 102 ∷ 9 ∷ 114 ∷ 191 ∷ 13 ∷ 115 ∷ 117 ∷ 101 ∷ 188 ∷ 84 ∷ 67
      ∷ 218 ∷ 138 ∷ 252 ∷ 134 ∷ 118 ∷ 224 ∷ 6 ∷ 167 ∷ 22 ∷ 158 ∷ 226 ∷ 239 ∷ 168 ∷ 99 ∷ 138 ∷ [];
  evm_token = codes "0xCaC524BcA292aaade2DF8A05cC58F0a65B1B3bB9";
  options = [];
  issuer = standard_oft (
      200 ∷ 235 ∷ 54 ∷ 44 ∷ 252 ∷ 98 ∷ 62 ∷ 164 ∷ 247 ∷ 255 ∷ 164 ∷ 87 ∷ 49 ∷ 98 ∷ 25 ∷ 178 ∷ 114
      ∷ 113 ∷ 111 ∷ 8 ∷ 70 ∷ 189 ∷ 231 ∷ 207 ∷ 70 ∷ 151 ∷ 241 ∷ 98 ∷ 194 ∷ 125 ∷ 1 ∷ 167 ∷ []);
}

abbrev pub ccip_profile : CcipProfile
ccip_profile = record {
  router =
      172 ∷ 151 ∷ 41 ∷ 119 ∷ 225 ∷ 186 ∷ 181 ∷ 255 ∷ 246 ∷ 198 ∷ 134 ∷ 41 ∷ 31 ∷ 153 ∷ 79 ∷ 245 ∷ 47
      ∷ 52 ∷ 171 ∷ 237 ∷ 27 ∷ 199 ∷ 223 ∷ 136 ∷ 247 ∷ 111 ∷ 67 ∷ 249 ∷ 38 ∷ 89 ∷ 44 ∷ 143 ∷ [];
  fee_quoter =
      217 ∷ 168 ∷ 102 ∷ 24 ∷ 45 ∷ 105 ∷ 2 ∷ 230 ∷ 73 ∷ 44 ∷ 122 ∷ 50 ∷ 129 ∷ 43 ∷ 234 ∷ 54 ∷ 126
      ∷ 26 ∷ 148 ∷ 215 ∷ 6 ∷ 177 ∷ 110 ∷ 218 ∷ 145 ∷ 68 ∷ 157 ∷ 4 ∷ 134 ∷ 184 ∷ 13 ∷ 1 ∷ [];
  rmn_remote =
      6 ∷ 88 ∷ 147 ∷ 237 ∷ 149 ∷ 171 ∷ 134 ∷ 232 ∷ 48 ∷ 91 ∷ 40 ∷ 152 ∷ 167 ∷ 97 ∷ 190 ∷ 28 ∷ 33
      ∷ 205 ∷ 191 ∷ 176 ∷ 183 ∷ 245 ∷ 230 ∷ 239 ∷ 213 ∷ 62 ∷ 131 ∷ 178 ∷ 131 ∷ 43 ∷ 26 ∷ 80 ∷ [];
  link_mint =
      5 ∷ 13 ∷ 73 ∷ 66 ∷ 215 ∷ 132 ∷ 147 ∷ 159 ∷ 133 ∷ 217 ∷ 34 ∷ 11 ∷ 211 ∷ 8 ∷ 143 ∷ 21 ∷ 156
      ∷ 222 ∷ 121 ∷ 39 ∷ 6 ∷ 55 ∷ 240 ∷ 64 ∷ 178 ∷ 170 ∷ 253 ∷ 75 ∷ 89 ∷ 133 ∷ 57 ∷ 3 ∷ [];
  dest_chain_selector = 16015286601757825753;
  source_chain_selector = 16423721717087811551;
  evm_router = codes "0x0BF3dE8c5D3e8A2B34D2BEeB17ABfCeBaf363A59";
  gas_limit = 600000;
  payer =
      199 ∷ 114 ∷ 230 ∷ 104 ∷ 251 ∷ 188 ∷ 243 ∷ 9 ∷ 190 ∷ 210 ∷ 185 ∷ 76 ∷ 138 ∷ 232 ∷ 16 ∷ 178 ∷ 19
      ∷ 235 ∷ 101 ∷ 203 ∷ 60 ∷ 54 ∷ 91 ∷ 64 ∷ 252 ∷ 88 ∷ 15 ∷ 173 ∷ 35 ∷ 160 ∷ 69 ∷ 6 ∷ [];
}

abbrev pub cctp_profile : CctpProfile
cctp_profile = record {
  token_messenger_minter =
      166 ∷ 95 ∷ 200 ∷ 29 ∷ 15 ∷ 239 ∷ 168 ∷ 134 ∷ 12 ∷ 179 ∷ 184 ∷ 63 ∷ 8 ∷ 155 ∷ 2 ∷ 36 ∷ 190
      ∷ 138 ∷ 102 ∷ 135 ∷ 183 ∷ 174 ∷ 73 ∷ 245 ∷ 148 ∷ 192 ∷ 185 ∷ 180 ∷ 215 ∷ 233 ∷ 56 ∷ 147 ∷ [];
  message_transmitter =
      166 ∷ 95 ∷ 200 ∷ 28 ∷ 225 ∷ 158 ∷ 220 ∷ 210 ∷ 210 ∷ 195 ∷ 64 ∷ 176 ∷ 47 ∷ 166 ∷ 27 ∷ 225 ∷ 213
      ∷ 186 ∷ 221 ∷ 225 ∷ 89 ∷ 40 ∷ 51 ∷ 221 ∷ 249 ∷ 32 ∷ 9 ∷ 216 ∷ 207 ∷ 104 ∷ 84 ∷ 85 ∷ [];
  usdc_mint =
      59 ∷ 68 ∷ 44 ∷ 179 ∷ 145 ∷ 33 ∷ 87 ∷ 241 ∷ 58 ∷ 147 ∷ 61 ∷ 1 ∷ 52 ∷ 40 ∷ 45 ∷ 3 ∷ 43 ∷ 95
      ∷ 254 ∷ 205 ∷ 1 ∷ 162 ∷ 219 ∷ 241 ∷ 183 ∷ 121 ∷ 6 ∷ 8 ∷ 223 ∷ 0 ∷ 46 ∷ 167 ∷ [];
  evm_domain = 0;
  solana_domain = 5;
  evm_message_transmitter = codes "0xE737e5cEBEEBa77EFE34D4aa090756590b1CE275";
  attestation_api = codes "https://iris-api-sandbox.circle.com";
}

abbrev pub env_names : EnvNames
env_names = record {
  solana_keypair_path = codes "SOLANA_KEYPAIR_PATH_DEVNET";
  evm_private_key = codes "EVM_PRIVATE_KEY_DEVNET";
  solana_rpc = codes "RPC_URL_SOLANA_DEVNET";
  evm_rpc = codes "RPC_URL_EVM_DEVNET";
}

abbrev pub profile : DeploymentProfile
profile = record {
  type = devnet;
  solana_eid = 40168;
  evm_eid = 40161;
  evm_network = codes "sepolia";
  program_id =
      228 ∷ 210 ∷ 81 ∷ 90 ∷ 161 ∷ 8 ∷ 201 ∷ 71 ∷ 4 ∷ 118 ∷ 234 ∷ 169 ∷ 179 ∷ 136 ∷ 180 ∷ 5 ∷ 89
      ∷ 107 ∷ 100 ∷ 17 ∷ 130 ∷ 72 ∷ 137 ∷ 166 ∷ 130 ∷ 12 ∷ 170 ∷ 91 ∷ 166 ∷ 182 ∷ 134 ∷ 60 ∷ [];
  store =
      48 ∷ 0 ∷ 21 ∷ 24 ∷ 139 ∷ 8 ∷ 105 ∷ 2 ∷ 227 ∷ 58 ∷ 162 ∷ 15 ∷ 159 ∷ 16 ∷ 243 ∷ 174 ∷ 110 ∷ 30
      ∷ 65 ∷ 110 ∷ 219 ∷ 149 ∷ 75 ∷ 52 ∷ 95 ∷ 114 ∷ 144 ∷ 214 ∷ 32 ∷ 174 ∷ 182 ∷ 45 ∷ [];
  evm_proxy = codes "0xbE4c9C5DB8E2747C545B2591B3937764f1A2d514";
  evm_implementation = codes "0xBE499Eb4C9231d308De0C5b4A96225cd984a5BC6";
  lz_endpoint = codes "0x6EDCE65403992e310A62460808c4b910D972f10f";
  treasury = codes "0x4d4016ab3b238ee8F7146E141F9bBe9b144d3b0C";
  ccip = some ccip_profile;
  cctp = some cctp_profile;
  lz_tokens = pyusd ∷ [];
  env = env_names;
}
