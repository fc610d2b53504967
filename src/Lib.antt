-- ===== src/Lib.antt =====
-- The client library of LendMirror, a bridge that mirrors lending positions of Jupiter on Solana to an
-- EVM chain, and that moves tokens there. The client works out addresses, reads accounts, and builds
-- the instructions that the Solana program checks.
--
-- The parts, and the files that model them:
--   Jupiter         lib/client/jupiter.ts: ticks, the decoders of Jupiter's accounts, addresses
--   Pda             lib/client/pda.ts and seeds.ts: the addresses of the program's own accounts
--   Snapshot        lib/client/lendmirror.ts (encodePositionSnapshot): a position as a message;
--                   Body reads it the way contracts/libs/PositionSnapshotMsgCodec.sol does
--   LivePosition    lib/client/lendmirror.ts (collectLivePositionAccounts): the accounts of a
--                   liquidated position, with the walk over the branches of its debt
--   LzSend          lib/client/lzSend.ts: the `send` of a token's issuer; Program holds the check of
--                   programs/lendmirror/src (decode_oft_send, check_lz_send) that it has to pass
--   Ccip            lib/client/ccip.ts: Chainlink's route and the accounts of a message; Route has
--                   what programs/lendmirror/src/instructions/set_ccip_route.rs stores
--   Bridge          lib/client/bridge.ts: routes, receivers, and the calls over CCTP, CCIP and
--                   LayerZero; TokenAccounts reads Chainlink's registry and lookup table
--   Sdk             lib/sdk.ts: peers, enforced options and the configuration of a path
--   Config          config/types.ts, devnet.ts, mainnet.ts: the profiles
--   Deployment      lib/deployment.ts and tasks/common/deployment.ts: which profile is active
--   Client          lib/client/lendmirror.ts (class LendMirror): the wrappers of positions, the
--                   custody of the position's NFT, refreshWrapper and getJupiterPosition; Program
--                   holds the accounts and constraints of
--                   programs/lendmirror/src/instructions/refresh_wrapper.rs, and Program/Live the
--                   accounts from which get_jupiter_position.rs beside it reads a position
--   Tasks           tasks/solana: resolveMint of bridge.ts, legFrom and the retries of custody.ts
--   Instructions    lib/client/generated/lendmirror/shared/index.ts: how an account's slot is filled, and
--                   the accounts an instruction comes to; Message and Refresh have those of the
--                   generated sendPositionSnapshotViaChainlinkAndLz, quoteSend and refreshWrapper
--   Operate         lib/client/jupiterOperate.ts, with the generated operatePosition: the split of the
--                   accounts of Jupiter's operate between its own slots and the remaining ones; Build
--                   has the order of programs/lendmirror/src/instructions/operate_position.rs
--   Messages        lib/client/lendmirror.ts (sendPayload, quotePayload, getSendLibraryProgram);
--                   Program holds the accounts, arguments, constraints and handlers' checks of
--                   programs/lendmirror/src/instructions (send_position_snapshot.rs, quote_send.rs),
--                   Router the accounts of the call into Chainlink's router
--   LookupTable     tasks/solana/lookupTable.ts: the keys of a table, creating and extending it
--   SyncAll         tasks/solana/syncAll.ts: the loop that refreshes, compares and sends the wrappers
--   Wire            tasks/common/wire.ts, with tasks/solana/utils.ts and lib/config.ts: the checks and
--                   factories around LayerZero's wiring task
--   Cli             bin/lm-cli.ts: the flags of the command line and the command that is started
--   Common, Bytes, Hex, Known, Ix
--                   numbers, lists, results, byte arrays, hexadecimal text, well-known program ids
--                   and account lists, which the parts share
--   Runs            the theorems at concrete inputs
-- LivePosition uses the decoders and addresses of Jupiter; LzSend and Deployment use Config; Bridge
-- uses Pda and Ccip; Operate, Messages and Client fill the slots of Instructions. A call that throws
-- returns an error in `Result`, a `bigint` that may be negative is a ℤ, other numbers are ℕ, and a
-- wrap-around is written out with `%`.
--
-- Parameters stand for what is not in the repository: the derivation of an address from seeds, the
-- associated token account, what a node answers about an account or a lookup table, LayerZero's SDK
-- and its table of chain types, the encoder of options, umi's serializers, the environment and the key
-- loaders. In LookupTable and SyncAll the chain is a state that the transactions change, and in SyncAll
-- and Messages an answer of the node may be a failure; elsewhere a query that fails is not modelled.
-- An extension of a table is confirmed, refused, or landed without the node having said so. An
-- instruction is modelled as what its builder in lib/client/generated is given, and operatePosition,
-- refreshWrapper, the message and its quote as far as the accounts and bytes. Cli takes the resolved
-- deployment as given. The program on chain is modelled only where it checks what the client built:
-- its handlers up to the calls into LayerZero and Chainlink, and of a refresh which accounts it reads,
-- not the amounts that it computes. What it reads from Jupiter's accounts, and whether LayerZero's library
-- combines options, is part of the state.
-- The walk over branches has the source's own bound of 32 hops; `decimal` recurses on fuel, of which
-- a number's successor is enough; `extend_from` recurses on fuel, of which the number of missing keys
-- is enough, since each round takes at least one. The loop around operate makes three attempts at most.
--
-- Not modelled: the other instruction builders of the LendMirror class (set-up, allowlists),
-- the tasks that only print or only send one such instruction, the rest of the generated client, the
-- program in Rust beyond its checks of sends, messages and refreshes, and the contracts in Solidity.
pub mod Common
pub mod Bytes
pub mod Pda
pub mod Jupiter
pub mod Snapshot
pub mod LivePosition
pub mod Config
pub mod Ix
pub mod LzSend
pub mod Known
pub mod Hex
pub mod Ccip
pub mod Bridge
pub mod Sdk
pub mod Deployment
pub mod Client
pub mod Tasks
pub mod Instructions
pub mod Operate
pub mod LookupTable
pub mod Messages
pub mod SyncAll
pub mod Wire
pub mod Cli
mod Runs
