-- ===== src/LookupTable/Wanted.antt =====
-- tasks/solana/lookupTable.ts, lines 37-56: the keys that the table shall hold.
use lendmirror.Common.{
  ℕ, ◌≡◌, ap, ◌||◌, Option, none, some, List, [], ◌∷◌, ◌++◌, Bool-cases, inl, inr, arith,
}
use lendmirror.Common.Keys.{eqb, eqb_iff, contains, contains-append, Distinct, Distinct-concat}
use lendmirror.Common.Outcome.{Result, ok, ◌>>=◌, map_err}
use lendmirror.Bytes.{Bytes}
use lendmirror.Pda.{Key, FindPda}
use lendmirror.Pda.Lendmirror.{peer, ccip_route_address, ccip_payer_address}
use lendmirror.Known.{
  native_mint, token_program, associated_token_program, system_program,
  cctp_token_messenger_minter_v2, cctp_message_transmitter_v2,
}
use lendmirror.Ccip.{CcipError, range, CcipSendAccounts, decode_ccip_route, ccip_send_accounts}
use lendmirror.Config.{CctpProfile}
use lendmirror.Bridge.Cctp.{CctpAccounts, cctp_accounts}
use lendmirror.LookupTable.{add, add_all}

-- `Object.values(ccipSendAccounts(…))`
unfoldable pub send_values : CcipSendAccounts → List Key
send_values a =
    a.config ∷ a.dest_chain_state ∷ a.nonce ∷ a.fee_token_mint ∷ a.fee_token_user
    ∷ a.fee_token_receiver ∷ a.fee_billing_signer ∷ a.fee_quoter_config ∷ a.fee_quoter_dest_chain
    ∷ a.fee_quoter_billing_token_config ∷ a.fee_quoter_link_token_config ∷ a.rmn_remote_curses
    ∷ a.rmn_remote_config ∷ a.token_pools_signer ∷ []

-- `Object.values(cctpAccounts(…))`
unfoldable pub cctp_values : CctpAccounts → List Key
cctp_values a =
    a.sender_authority_pda ∷ a.denylist_account ∷ a.message_transmitter ∷ a.token_messenger
    ∷ a.remote_token_messenger ∷ a.token_minter ∷ a.local_token ∷ a.event_authority ∷ []

module _ (find_pda : FindPda) (u32_be : ℕ → Bytes) (endpoint_setting program_id store : Key)
    (get_account : Key → Option Bytes) where
  unfoldable pub fixed_keys : ℕ → List Key
  fixed_keys dst_eid =
      program_id
      ∷ store
      ∷ peer find_pda program_id u32_be dst_eid
      ∷ endpoint_setting
      ∷ ccip_route_address find_pda program_id
      ∷ ccip_payer_address find_pda program_id
      ∷ token_program
      ∷ associated_token_program
      ∷ native_mint
      ∷ system_program
      ∷ []

  unfoldable pub route_keys : Option Bytes → Result CcipError (List Key)
  route_keys none = ok []
  route_keys (some account) = do
    route ← decode_ccip_route account
    accounts ←
        map_err (λ _. range)
          (ccip_send_accounts find_pda route (ccip_payer_address find_pda program_id))
    ok (route.router ∷ route.fee_quoter ∷ route.rmn_remote ∷ route.link_mint ∷ send_values accounts)

  unfoldable pub cctp_keys : Option CctpProfile → List Key
  cctp_keys none = []
  cctp_keys (some c) =
      cctp_token_messenger_minter_v2
      ∷ cctp_message_transmitter_v2
      ∷ c.usdc_mint
      ∷ cctp_values
          (cctp_accounts find_pda c.usdc_mint (ccip_payer_address find_pda program_id) c.evm_domain)

  unfoldable pub wanted_keys : ℕ → Option CctpProfile → Result CcipError (List Key)
  wanted_keys dst_eid cctp = do
    from_route ← route_keys (get_account (ccip_route_address find_pda program_id))
    ok (add_all (add_all (add_all [] (fixed_keys dst_eid)) from_route) (cctp_keys cctp))

pub contains-add_all :
    (k : Key) (set ks : List Key) → contains k (add_all set ks) ≡ (contains k set || contains k ks)
unfolding add add_all contains
contains-add_all k set [] = ground arith
contains-add_all k set (x ∷ ks) = elim (Bool-cases (contains x set)) [
  | inl old ↦ rw old (elim (Bool-cases (eqb x k)) [
    | inl same ↦
        let e : x ≡ k = (eqb_iff x k).0 same in
        let there : contains x set ≡ contains k set = ap (λ y. contains y set) e in
        ground (arith, contains-add_all k set ks)
    | inr other ↦ ground (arith, contains-add_all k set ks)
  ])
  | inr new ↦
      rw new
        (ground (arith, contains-add_all k (set ++ (x ∷ [])) ks, contains-append k set (x ∷ [])))
]

pub Distinct-add_all : (set ks : List Key) → Distinct set → Distinct (add_all set ks)
unfolding add add_all
Distinct-add_all set [] d = d
Distinct-add_all set (x ∷ ks) d = elim (Bool-cases (contains x set)) [
  | inl old ↦ rw old (Distinct-add_all set ks d)
  | inr new ↦ rw new (Distinct-add_all (set ++ (x ∷ [])) ks (Distinct-concat set x d new))
]
