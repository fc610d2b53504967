-- ===== src/Config/Mainnet.antt =====
-- config/mainnet.ts, with the base58 ids decoded.
use lendmirror.Common.{[], ◌∷◌, some}
use lendmirror.Common.Int.{pos}
use lendmirror.Common.Text.{codes}
use lendmirror.Config.{
  DeploymentProfile, CcipProfile, CctpProfile, LzTokenProfile, EnvNames, mainnet, usdai, usdt0,
}

abbrev pub usdai_token : LzTokenProfile
usdai_token = record {
  symbol = codes "USDai";
  mint =
      7 ∷ 7 ∷ 49 ∷ 216 ∷ 27 ∷ 157 ∷ 117 ∷ 156 ∷ 250 ∷ 90 ∷ 13 ∷ 185 ∷ 138 ∷ 24 ∷ 83 ∷ 205 ∷ 250
      ∷ 215 ∷ 88 ∷ 134 ∷ 140 ∷ 32 ∷ 118 ∷ 93 ∷ 194 ∷ 23 ∷ 217 ∷ 69 ∷ 147 ∷ 216 ∷ 39 ∷ 47 ∷ [];
  decimals = 6;
  issuer_program =
      154 ∷ 128 ∷ 228 ∷ 187 ∷ 27 ∷ 6 ∷ 3 ∷ 172 ∷ 210 ∷ 81 ∷ 98 ∷ 164 ∷ 133 ∷ 219 ∷ 180 ∷ 151 ∷ 47
      ∷ 109 ∷ 68 ∷ 12 ∷ 237 ∷ 86 ∷ 56 ∷ 213 ∷ 95 ∷ 178 ∷ 15 ∷ 102 ∷ 184 ∷ 155 ∷ 67 ∷ 102 ∷ [];
  dst_eid = 30110;
  token_program =
      6 ∷ 221 ∷ 246 ∷ 225 ∷ 238 ∷ 117 ∷ 143 ∷ 222 ∷ 24 ∷ 66 ∷ 93 ∷ 188 ∷ 228 ∷ 108 ∷ 205 ∷ 218 ∷ 182
      ∷ 26 ∷ 252 ∷ 77 ∷ 131 ∷ 185 ∷ 13 ∷ 39 ∷ 254 ∷ 189 ∷ 249 ∷ 40 ∷ 216 ∷ 161 ∷ 139 ∷ 252 ∷ [];
  min_under_bps = 0;
  native_fee_cap_lamports = pos 15000000;
  lookup_table =
      220 ∷ 131 ∷ 96 ∷ 144 ∷ 142 ∷ 218 ∷ 144 ∷ 32 ∷ 127 ∷ 148 ∷ 200 ∷ 20 ∷ 75 ∷ 180 ∷ 86 ∷ 5 ∷ 143
      ∷ 130 ∷ 171 ∷ 6 ∷ 137 ∷ 158 ∷ 75 ∷ 140 ∷ 204 ∷ 197 ∷ 222 ∷ 18 ∷ 188 ∷ 132 ∷ 215 ∷ 220 ∷ [];
  evm_token = codes "0x0A1a1A107E45b7Ced86833863f482BC5f4ed82EF";
  options = [];
  issuer =
      usdai
        (63 ∷ 238 ∷ 23 ∷ 17 ∷ 82 ∷ 26 ∷ 133 ∷ 165 ∷ 196 ∷ 79 ∷ 83 ∷ 202 ∷ 23 ∷ 14 ∷ 108 ∷ 34 ∷ 94
          ∷ 118 ∷ 5 ∷ 157 ∷ 214 ∷ 113 ∷ 221 ∷ 14 ∷ 48 ∷ 108 ∷ 125 ∷ 227 ∷ 179 ∷ 222 ∷ 170 ∷ 100
          ∷ [])
        (127 ∷ 206 ∷ 190 ∷ 32 ∷ 71 ∷ 156 ∷ 40 ∷ 227 ∷ 220 ∷ 78 ∷ 88 ∷ 247 ∷ 173 ∷ 1 ∷ 39 ∷ 222 ∷ 142
          ∷ 195 ∷ 22 ∷ 158 ∷ 210 ∷ 243 ∷ 121 ∷ 100 ∷ 73 ∷ 221 ∷ 205 ∷ 10 ∷ 249 ∷ 249 ∷ 10 ∷ 22 ∷ [])
        (223 ∷ 185 ∷ 203 ∷ 177 ∷ 231 ∷ 12 ∷ 137 ∷ 73 ∷ 2 ∷ 47 ∷ 240 ∷ 252 ∷ 204 ∷ 30 ∷ 203 ∷ 219
          ∷ 178 ∷ 63 ∷ 15 ∷ 171 ∷ 10 ∷ 96 ∷ 208 ∷ 144 ∷ 49 ∷ 96 ∷ 245 ∷ 39 ∷ 163 ∷ 210 ∷ 134 ∷ 240
          ∷ [])
        (215 ∷ 183 ∷ 172 ∷ 234 ∷ 174 ∷ 121 ∷ 171 ∷ 226 ∷ 219 ∷ 88 ∷ 155 ∷ 173 ∷ 205 ∷ 154 ∷ 123
          ∷ 205 ∷ 214 ∷ 95 ∷ 38 ∷ 136 ∷ 145 ∷ 141 ∷ 55 ∷ 87 ∷ 116 ∷ 186 ∷ 221 ∷ 82 ∷ 45 ∷ 198 ∷ 52
          ∷ 193 ∷ [])
        (107 ∷ 125 ∷ 246 ∷ 17 ∷ 167 ∷ 101 ∷ 62 ∷ 1 ∷ 229 ∷ 10 ∷ 153 ∷ 232 ∷ 38 ∷ 58 ∷ 130 ∷ 25 ∷ 117
          ∷ 85 ∷ 45 ∷ 4 ∷ 153 ∷ 232 ∷ 165 ∷ 227 ∷ 107 ∷ 70 ∷ 163 ∷ 78 ∷ 95 ∷ 50 ∷ 76 ∷ 218 ∷ [])
        (26 ∷ 162 ∷ 210 ∷ 0 ∷ 169 ∷ 67 ∷ 226 ∷ 137 ∷ 127 ∷ 120 ∷ 116 ∷ 154 ∷ 152 ∷ 243 ∷ 75 ∷ 199
          ∷ 24 ∷ 120 ∷ 195 ∷ 159 ∷ 143 ∷ 121 ∷ 108 ∷ 235 ∷ 62 ∷ 237 ∷ 239 ∷ 104 ∷ 90 ∷ 149 ∷ 252
          ∷ 82 ∷ []);
}

abbrev pub susdai_token : LzTokenProfile
susdai_token = record {
  symbol = codes "sUSDai";
  mint =
      12 ∷ 238 ∷ 15 ∷ 161 ∷ 28 ∷ 47 ∷ 183 ∷ 137 ∷ 65 ∷ 82 ∷ 152 ∷ 88 ∷ 40 ∷ 171 ∷ 106 ∷ 31 ∷ 190
      ∷ 97 ∷ 113 ∷ 226 ∷ 150 ∷ 105 ∷ 241 ∷ 229 ∷ 175 ∷ 98 ∷ 107 ∷ 167 ∷ 150 ∷ 128 ∷ 175 ∷ 195 ∷ [];
  decimals = 6;
  issuer_program =
      154 ∷ 128 ∷ 228 ∷ 187 ∷ 27 ∷ 6 ∷ 3 ∷ 172 ∷ 210 ∷ 81 ∷ 98 ∷ 164 ∷ 133 ∷ 219 ∷ 180 ∷ 151 ∷ 47
      ∷ 109 ∷ 68 ∷ 12 ∷ 237 ∷ 86 ∷ 56 ∷ 213 ∷ 95 ∷ 178 ∷ 15 ∷ 102 ∷ 184 ∷ 155 ∷ 67 ∷ 102 ∷ [];
  dst_eid = 30110;
  token_program =
      6 ∷ 221 ∷ 246 ∷ 225 ∷ 238 ∷ 117 ∷ 143 ∷ 222 ∷ 24 ∷ 66 ∷ 93 ∷ 188 ∷ 228 ∷ 108 ∷ 205 ∷ 218 ∷ 182
      ∷ 26 ∷ 252 ∷ 77 ∷ 131 ∷ 185 ∷ 13 ∷ 39 ∷ 254 ∷ 189 ∷ 249 ∷ 40 ∷ 216 ∷ 161 ∷ 139 ∷ 252 ∷ [];
  min_under_bps = 0;
  native_fee_cap_lamports = pos 15000000;
  lookup_table =
      40 ∷ 32 ∷ 187 ∷ 162 ∷ 115 ∷ 70 ∷ 43 ∷ 212 ∷ 29 ∷ 100 ∷ 74 ∷ 104 ∷ 75 ∷ 68 ∷ 197 ∷ 194 ∷ 180
      ∷ 157 ∷ 169 ∷ 75 ∷ 223 ∷ 246 ∷ 215 ∷ 249 ∷ 226 ∷ 164 ∷ 210 ∷ 148 ∷ 168 ∷ 252 ∷ 103 ∷ 147 ∷ [];
  evm_token = codes "0x0B2b2B2076d95dda7817e785989fE353fe955ef9";
  options = [];
  issuer =
      usdai
        (29 ∷ 18 ∷ 141 ∷ 206 ∷ 43 ∷ 192 ∷ 87 ∷ 23 ∷ 141 ∷ 130 ∷ 219 ∷ 33 ∷ 162 ∷ 70 ∷ 221 ∷ 74 ∷ 132
          ∷ 221 ∷ 20 ∷ 2 ∷ 248 ∷ 253 ∷ 223 ∷ 76 ∷ 67 ∷ 250 ∷ 154 ∷ 2 ∷ 173 ∷ 223 ∷ 110 ∷ 162 ∷ [])
        (191 ∷ 56 ∷ 151 ∷ 214 ∷ 210 ∷ 239 ∷ 62 ∷ 229 ∷ 111 ∷ 193 ∷ 97 ∷ 75 ∷ 217 ∷ 41 ∷ 137 ∷ 56
          ∷ 84 ∷ 138 ∷ 163 ∷ 14 ∷ 133 ∷ 67 ∷ 125 ∷ 158 ∷ 95 ∷ 252 ∷ 94 ∷ 63 ∷ 75 ∷ 32 ∷ 119 ∷ 247
          ∷ [])
        (183 ∷ 89 ∷ 10 ∷ 18 ∷ 157 ∷ 14 ∷ 164 ∷ 115 ∷ 209 ∷ 180 ∷ 21 ∷ 93 ∷ 211 ∷ 196 ∷ 243 ∷ 99
          ∷ 167 ∷ 164 ∷ 71 ∷ 107 ∷ 19 ∷ 54 ∷ 228 ∷ 87 ∷ 105 ∷ 206 ∷ 44 ∷ 186 ∷ 32 ∷ 197 ∷ 91 ∷ 43
          ∷ [])
        (244 ∷ 41 ∷ 218 ∷ 18 ∷ 15 ∷ 245 ∷ 71 ∷ 27 ∷ 17 ∷ 170 ∷ 146 ∷ 81 ∷ 21 ∷ 204 ∷ 153 ∷ 89 ∷ 203
          ∷ 153 ∷ 104 ∷ 179 ∷ 252 ∷ 101 ∷ 254 ∷ 140 ∷ 54 ∷ 200 ∷ 137 ∷ 52 ∷ 237 ∷ 164 ∷ 138 ∷ 69
          ∷ [])
        (128 ∷ 130 ∷ 46 ∷ 107 ∷ 103 ∷ 31 ∷ 40 ∷ 58 ∷ 238 ∷ 91 ∷ 227 ∷ 139 ∷ 20 ∷ 214 ∷ 16 ∷ 123 ∷ 2
          ∷ 189 ∷ 65 ∷ 245 ∷ 95 ∷ 100 ∷ 88 ∷ 253 ∷ 251 ∷ 153 ∷ 72 ∷ 177 ∷ 163 ∷ 54 ∷ 91 ∷ 141 ∷ [])
        (15 ∷ 232 ∷ 55 ∷ 76 ∷ 3 ∷ 186 ∷ 250 ∷ 80 ∷ 203 ∷ 2 ∷ 134 ∷ 53 ∷ 253 ∷ 48 ∷ 16 ∷ 45 ∷ 231
          ∷ 113 ∷ 210 ∷ 151 ∷ 128 ∷ 135 ∷ 83 ∷ 130 ∷ 54 ∷ 98 ∷ 212 ∷ 155 ∷ 7 ∷ 9 ∷ 168 ∷ 229 ∷ []);
}

abbrev pub usdt_token : LzTokenProfile
usdt_token = record {
  symbol = codes "USDT";
  mint =
      206 ∷ 1 ∷ 14 ∷ 96 ∷ 175 ∷ 237 ∷ 178 ∷ 39 ∷ 23 ∷ 189 ∷ 99 ∷ 25 ∷ 47 ∷ 84 ∷ 20 ∷ 90 ∷ 63 ∷ 150
      ∷ 90 ∷ 51 ∷ 187 ∷ 130 ∷ 210 ∷ 199 ∷ 2 ∷ 158 ∷ 178 ∷ 206 ∷ 30 ∷ 32 ∷ 130 ∷ 100 ∷ [];
  decimals = 6;
  issuer_program =
      221 ∷ 147 ∷ 238 ∷ 197 ∷ 232 ∷ 93 ∷ 229 ∷ 210 ∷ 129 ∷ 118 ∷ 253 ∷ 53 ∷ 20 ∷ 106 ∷ 194 ∷ 39 ∷ 83
      ∷ 125 ∷ 35 ∷ 220 ∷ 139 ∷ 31 ∷ 162 ∷ 253 ∷ 209 ∷ 84 ∷ 216 ∷ 222 ∷ 4 ∷ 141 ∷ 20 ∷ 234 ∷ [];
  dst_eid = 30110;
  token_program =
      6 ∷ 221 ∷ 246 ∷ 225 ∷ 215 ∷ 101 ∷ 161 ∷ 147 ∷ 217 ∷ 203 ∷ 225 ∷ 70 ∷ 206 ∷ 235 ∷ 121 ∷ 172
      ∷ 28 ∷ 180 ∷ 133 ∷ 237 ∷ 95 ∷ 91 ∷ 55 ∷ 145 ∷ 58 ∷ 140 ∷ 245 ∷ 133 ∷ 126 ∷ 255 ∷ 0 ∷ 169 ∷ [];
  min_under_bps = 40;
  native_fee_cap_lamports = pos 15000000;
  lookup_table =
      89 ∷ 12 ∷ 163 ∷ 147 ∷ 151 ∷ 110 ∷ 51 ∷ 34 ∷ 218 ∷ 222 ∷ 145 ∷ 210 ∷ 68 ∷ 253 ∷ 146 ∷ 227 ∷ 202
      ∷ 52 ∷ 228 ∷ 166 ∷ 254 ∷ 133 ∷ 148 ∷ 23 ∷ 207 ∷ 118 ∷ 129 ∷ 89 ∷ 22 ∷ 18 ∷ 11 ∷ 33 ∷ [];
  evm_token = codes "0xFd086bC7CD5C481DCC9C85ebE478A1C0b69FCbb9";
  options = 0 ∷ 3 ∷ [];
  issuer = usdt0 (
      208 ∷ 39 ∷ 132 ∷ 252 ∷ 219 ∷ 209 ∷ 216 ∷ 48 ∷ 34 ∷ 3 ∷ 35 ∷ 182 ∷ 201 ∷ 78 ∷ 75 ∷ 155 ∷ 218
      ∷ 99 ∷ 101 ∷ 25 ∷ 124 ∷ 111 ∷ 46 ∷ 4 ∷ 64 ∷ 209 ∷ 127 ∷ 240 ∷ 44 ∷ 79 ∷ 71 ∷ 195 ∷ []);
}

abbrev pub ccip_profile : CcipProfile
ccip_profile = record {
  router =
      172 ∷ 151 ∷ 41 ∷ 119 ∷ 225 ∷ 186 ∷ 181 ∷ 255 ∷ 246 ∷ 198 ∷ 134 ∷ 41 ∷ 31 ∷ 153 ∷ 79 ∷ 245 ∷ 47
      ∷ 52 ∷ 171 ∷ 237 ∷ 27 ∷ 199 ∷ 223 ∷ 136 ∷ 247 ∷ 111 ∷ 67 ∷ 249 ∷ 38 ∷ 89 ∷ 44 ∷ 143 ∷ [];
  fee_quoter =
      217 ∷ 168 ∷ 102 ∷ 24 ∷ 45 ∷ 105 ∷ 2 ∷ 230 ∷ 73 ∷ 44 ∷ 122 ∷ 50 ∷ 129 ∷ 43 ∷ 234 ∷ 54 ∷ 126
      ∷ 26 ∷ 148 ∷ 215 ∷ 6 ∷ 177 ∷ 110 ∷ 218 ∷ 145 ∷ 68 ∷ 157 ∷ 4 ∷ 134 ∷ 184 ∷ 13 ∷ 1 ∷ [];
  rmn_remote =
      6 ∷ 88 ∷ 147 ∷ 237 ∷ 149 ∷ 171 ∷ 134 ∷ 232 ∷ 48 ∷ 91 ∷ 40 ∷ 152 ∷ 167 ∷ 97 ∷ 190 ∷ 28 ∷ 33
      ∷ 205 ∷ 191 ∷ 176 ∷ 183 ∷ 245 ∷ 230 ∷ 239 ∷ 213 ∷ 62 ∷ 131 ∷ 178 ∷ 131 ∷ 43 ∷ 26 ∷ 80 ∷ [];
  link_mint =
      5 ∷ 13 ∷ 73 ∷ 66 ∷ 215 ∷ 132 ∷ 147 ∷ 159 ∷ 133 ∷ 217 ∷ 34 ∷ 11 ∷ 211 ∷ 8 ∷ 143 ∷ 21 ∷ 156
      ∷ 222 ∷ 121 ∷ 39 ∷ 6 ∷ 55 ∷ 240 ∷ 64 ∷ 178 ∷ 170 ∷ 253 ∷ 75 ∷ 89 ∷ 133 ∷ 57 ∷ 3 ∷ [];
  dest_chain_selector = 4949039107694359620;
  source_chain_selector = 124615329519749607;
  evm_router = codes "0x141fa059441E0ca23ce184B6A78bafD2A517DdE8";
  gas_limit = 600000;
  payer =
      179 ∷ 175 ∷ 170 ∷ 111 ∷ 214 ∷ 20 ∷ 8 ∷ 222 ∷ 37 ∷ 99 ∷ 177 ∷ 178 ∷ 224 ∷ 166 ∷ 186 ∷ 84 ∷ 97
      ∷ 240 ∷ 223 ∷ 216 ∷ 99 ∷ 25 ∷ 170 ∷ 99 ∷ 95 ∷ 117 ∷ 92 ∷ 244 ∷ 45 ∷ 32 ∷ 224 ∷ 69 ∷ [];
}

abbrev pub cctp_profile : CctpProfile
cctp_profile = record {
  token_messenger_minter =
      166 ∷ 95 ∷ 200 ∷ 29 ∷ 15 ∷ 239 ∷ 168 ∷ 134 ∷ 12 ∷ 179 ∷ 184 ∷ 63 ∷ 8 ∷ 155 ∷ 2 ∷ 36 ∷ 190
      ∷ 138 ∷ 102 ∷ 135 ∷ 183 ∷ 174 ∷ 73 ∷ 245 ∷ 148 ∷ 192 ∷ 185 ∷ 180 ∷ 215 ∷ 233 ∷ 56 ∷ 147 ∷ [];
  message_transmitter =
      166 ∷ 95 ∷ 200 ∷ 28 ∷ 225 ∷ 158 ∷ 220 ∷ 210 ∷ 210 ∷ 195 ∷ 64 ∷ 176 ∷ 47 ∷ 166 ∷ 27 ∷ 225 ∷ 213
      ∷ 186 ∷ 221 ∷ 225 ∷ 89 ∷ 40 ∷ 51 ∷ 221 ∷ 249 ∷ 32 ∷ 9 ∷ 216 ∷ 207 ∷ 104 ∷ 84 ∷ 85 ∷ [];
  usdc_mint =
      198 ∷ 250 ∷ 122 ∷ 243 ∷ 190 ∷ 219 ∷ 173 ∷ 58 ∷ 61 ∷ 101 ∷ 243 ∷ 106 ∷ 171 ∷ 201 ∷ 116 ∷ 49
      ∷ 177 ∷ 187 ∷ 228 ∷ 194 ∷ 210 ∷ 246 ∷ 224 ∷ 228 ∷ 124 ∷ 166 ∷ 2 ∷ 3 ∷ 69 ∷ 47 ∷ 93 ∷ 97 ∷ [];
  evm_domain = 3;
  solana_domain = 5;
  evm_message_transmitter = codes "0x81D40F21F12A8F0E3252Bccb954D722d4c464B64";
  attestation_api = codes "https://iris-api.circle.com";
}

abbrev pub env_names : EnvNames
env_names = record {
  solana_keypair_path = codes "SOLANA_KEYPAIR_PATH_MAINNET";
  evm_private_key = codes "EVM_PRIVATE_KEY_MAINNET";
  solana_rpc = codes "RPC_URL_SOLANA_MAINNET";
  evm_rpc = codes "RPC_URL_EVM_MAINNET";
}

abbrev pub profile : DeploymentProfile
profile = record {
  type = mainnet;
  solana_eid = 30168;
  evm_eid = 30110;
  evm_network = codes "arbitrum";
  program_id =
      130 ∷ 230 ∷ 6 ∷ 179 ∷ 68 ∷ 79 ∷ 35 ∷ 168 ∷ 218 ∷ 133 ∷ 224 ∷ 68 ∷ 103 ∷ 140 ∷ 133 ∷ 118 ∷ 198
      ∷ 174 ∷ 163 ∷ 20 ∷ 234 ∷ 177 ∷ 43 ∷ 171 ∷ 142 ∷ 251 ∷ 20 ∷ 72 ∷ 196 ∷ 9 ∷ 224 ∷ 255 ∷ [];
  store =
      48 ∷ 72 ∷ 203 ∷ 233 ∷ 3 ∷ 221 ∷ 94 ∷ 14 ∷ 121 ∷ 42 ∷ 19 ∷ 21 ∷ 63 ∷ 95 ∷ 129 ∷ 182 ∷ 80 ∷ 29
      ∷ 137 ∷ 213 ∷ 190 ∷ 33 ∷ 158 ∷ 226 ∷ 250 ∷ 72 ∷ 59 ∷ 174 ∷ 201 ∷ 123 ∷ 239 ∷ 236 ∷ [];
  evm_proxy = codes "0xb42E98c712B5CAf1e55dB8106262077515879EA2";
  evm_implementation = codes "0xe9E61B9aC26ED2CEBC2F21fbD76F7e6cfDa43032";
  lz_endpoint = codes "0x1a44076050125825900e736c501f859c50fE728c";
  treasury = codes "0x736AAC431E66de7D07eb61738CA3598a53a24Ca0";
  ccip = some ccip_profile;
  cctp = some cctp_profile;
  lz_tokens = usdai_token ∷ susdai_token ∷ usdt_token ∷ [];
  env = env_names;
}
