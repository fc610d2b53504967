-- ===== src/Runs/Sends.antt =====
-- Sends of a token's issuer.
use lendmirror.Common.{ℕ, ◌≡◌, refl, none, some, List, [], ◌∷◌, arith, inr}
use lendmirror.Common.Int.{pos}
use lendmirror.Common.Outcome.{ok}
use lendmirror.Bytes.{Bytes, zeros, le_bytes, be_bytes, checked_be}
use lendmirror.Pda.{Key}
use lendmirror.Config.{LzTokenProfile}
use lendmirror.Config.Mainnet
use lendmirror.Ix.{AccountMeta, Instruction, readonly}
use lendmirror.LzSend.{
  IssuerAccounts, issuer_accounts, accounts_of, token_source_index, oft_send_data,
  build_issuer_send,
}
use lendmirror.LzSend.Data.{send, params, oft_send_data-decode}
use lendmirror.LzSend.Accounts.{IsIssuerList, issuer_accounts-IsIssuerList}
use lendmirror.LzSend.Build.{IsAccepted, build_issuer_send-IsAccepted}
use lendmirror.LzSend.Program.{decode_oft_send}
use lendmirror.Ccip.{}
use lendmirror.Bridge.{}
use lendmirror.Bridge.TokenAccounts.{}
use lendmirror.Runs.{key_of, toy_find_pda}

abbrev token : LzTokenProfile
token = Mainnet.usdt_token

oft_send_data-decode_example :
    (message : Bytes) × (oft_send_data (send 30110 2000000 1990000 840356 (key_of 7) (0 ∷ 3 ∷ []))
      ≡ ok message)
    × (decode_oft_send message ≡ ok (params 30110 2000000 1990000 840356 (key_of 7) (0 ∷ 3 ∷ [])))
oft_send_data-decode_example =
    oft_send_data-decode 30110 2000000 1990000 840356 (key_of 7) (0 ∷ 3 ∷ []) (record {
      eid_fits = omega arith;
      amount_fits = omega arith;
      min_amount_fits = omega arith;
      fee_fits = omega arith;
      to_fits = refl;
      options_fits = omega arith;
    })

issuer_accounts-IsIssuerList_example :
    (own : IssuerAccounts) × (issuer_accounts toy_find_pda token (key_of 1) (key_of 2) ≡ ok own)
    × IsIssuerList (token_source_index token) (key_of 1) (key_of 2) own.metas
issuer_accounts-IsIssuerList_example =
    issuer_accounts-IsIssuerList toy_find_pda token (key_of 1) (key_of 2) (omega arith)

abbrev own : IssuerAccounts
own = accounts_of toy_find_pda token (key_of 1) (key_of 2) (0 ∷ 0 ∷ 117 ∷ 158 ∷ []) token.issuer

owned : issuer_accounts toy_find_pda token (key_of 1) (key_of 2) ≡ ok own
unfolding issuer_accounts checked_be be_bytes le_bytes
owned = refl

abbrev metas_of : Key → Key → ℕ → Bytes → Key → List AccountMeta
metas_of payer store eid receiver library = readonly library ∷ readonly store ∷ []

build_issuer_send-IsAccepted_example :
    (ix : Instruction) × (build_issuer_send toy_find_pda
        (λ _. some (zeros 40))
        (λ _ _. some (key_of 8))
        metas_of
        token
        (key_of 1)
        (key_of 2)
        (key_of 7)
        (pos 1000000)
        none
      ≡ ok ix)
    × IsAccepted token (key_of 2) (key_of 7) 1000000 ix
build_issuer_send-IsAccepted_example =
    build_issuer_send-IsAccepted toy_find_pda (λ _. some (zeros 40)) (λ _ _. some (key_of 8))
      metas_of token (key_of 1) (key_of 2) (key_of 7) 1000000 15000000 none own (zeros 40)
      (key_of 8) (record { dst_eid = omega arith; headroom = omega arith; options = inr refl }) refl
      (omega arith) (omega arith) refl owned refl refl
