-- ===== src/Known.antt =====
-- The programs and mints that the client names: their base58 ids, decoded.
use lendmirror.Common.{[], ◌∷◌}
use lendmirror.Bytes.{zeros}
use lendmirror.Pda.{Key}

-- `So11111111111111111111111111111111111111112`
abbrev pub native_mint : Key
native_mint =
    6 ∷ 155 ∷ 136 ∷ 87 ∷ 254 ∷ 171 ∷ 129 ∷ 132 ∷ 251 ∷ 104 ∷ 127 ∷ 99 ∷ 70 ∷ 24 ∷ 192 ∷ 53 ∷ 218
    ∷ 196 ∷ 57 ∷ 220 ∷ 26 ∷ 235 ∷ 59 ∷ 85 ∷ 152 ∷ 160 ∷ 240 ∷ 0 ∷ 0 ∷ 0 ∷ 0 ∷ 1 ∷ []

-- `TokenkegQfeZyiNwAJbNbGKPFXCWuBvf9Ss623VQ5DA`
abbrev pub token_program : Key
token_program =
    6 ∷ 221 ∷ 246 ∷ 225 ∷ 215 ∷ 101 ∷ 161 ∷ 147 ∷ 217 ∷ 203 ∷ 225 ∷ 70 ∷ 206 ∷ 235 ∷ 121 ∷ 172 ∷ 28
    ∷ 180 ∷ 133 ∷ 237 ∷ 95 ∷ 91 ∷ 55 ∷ 145 ∷ 58 ∷ 140 ∷ 245 ∷ 133 ∷ 126 ∷ 255 ∷ 0 ∷ 169 ∷ []

-- `ATokenGPvbdGVxr1b2hvZbsiqW5xWH25efTNsLJA8knL`
abbrev pub associated_token_program : Key
associated_token_program =
    140 ∷ 151 ∷ 37 ∷ 143 ∷ 78 ∷ 36 ∷ 137 ∷ 241 ∷ 187 ∷ 61 ∷ 16 ∷ 41 ∷ 20 ∷ 142 ∷ 13 ∷ 131 ∷ 11 ∷ 90
    ∷ 19 ∷ 153 ∷ 218 ∷ 255 ∷ 16 ∷ 132 ∷ 4 ∷ 142 ∷ 123 ∷ 216 ∷ 219 ∷ 233 ∷ 248 ∷ 89 ∷ []

-- `CCTPV2vPZJS2u2BBsUoscuikbYjnpFmbFsvVuJdgUMQe`
abbrev pub cctp_token_messenger_minter_v2 : Key
cctp_token_messenger_minter_v2 =
    166 ∷ 95 ∷ 200 ∷ 29 ∷ 15 ∷ 239 ∷ 168 ∷ 134 ∷ 12 ∷ 179 ∷ 184 ∷ 63 ∷ 8 ∷ 155 ∷ 2 ∷ 36 ∷ 190 ∷ 138
    ∷ 102 ∷ 135 ∷ 183 ∷ 174 ∷ 73 ∷ 245 ∷ 148 ∷ 192 ∷ 185 ∷ 180 ∷ 215 ∷ 233 ∷ 56 ∷ 147 ∷ []

-- `CCTPV2Sm4AdWt5296sk4P66VBZ7bEhcARwFaaS9YPbeC`
abbrev pub cctp_message_transmitter_v2 : Key
cctp_message_transmitter_v2 =
    166 ∷ 95 ∷ 200 ∷ 28 ∷ 225 ∷ 158 ∷ 220 ∷ 210 ∷ 210 ∷ 195 ∷ 64 ∷ 176 ∷ 47 ∷ 166 ∷ 27 ∷ 225 ∷ 213
    ∷ 186 ∷ 221 ∷ 225 ∷ 89 ∷ 40 ∷ 51 ∷ 221 ∷ 249 ∷ 32 ∷ 9 ∷ 216 ∷ 207 ∷ 104 ∷ 84 ∷ 85 ∷ []

-- `11111111111111111111111111111111`, the System program, which also stands for no key.
abbrev pub system_program : Key
system_program = zeros 32
