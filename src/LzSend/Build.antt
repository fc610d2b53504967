-- ===== src/LzSend/Build.antt =====
-- The whole send against the program's checks.
use lendmirror.Common.{
  ℕ, zero, suc, ◌-◌, ◌/◌, ◌^◌, ◌%◌, ◌≤◌, ◌<◌, ◌≡◌, refl, sym, ◌∙◌, true, ◌||◌, Option, none, some,
  List, [], ◌∷◌, ◌++◌, map, get_elem?, length, leb, ◌==◌, ◌⊎◌, inl, inr, arith,
}
use lendmirror.Common.Int.{ℤ, pos}
use lendmirror.Common.Keys.{eqb, eqb_iff}
use lendmirror.Common.Outcome.{ok, ok-injective}
use lendmirror.Bytes.{Bytes, slice}
use lendmirror.Pda.{Key, FindPda}
use lendmirror.Config.{LzTokenProfile}
use lendmirror.Ix.{AccountMeta, Instruction, writable}
use lendmirror.LzSend.{
  token_source_index, IssuerAccounts, issuer_accounts, layer_zero_accounts, build_issuer_send,
}
use lendmirror.LzSend.Data.{IsSend, params, oft_send_data-decode}
use lendmirror.LzSend.Accounts.{issuer_accounts-IsIssuerList, lz_min_amount_lem}
use lendmirror.LzSend.Program.{OftSendParams, decode_oft_send, check_lz_send}

get_elem?-append {ℓ} :
    {A : Type ℓ} (xs ys : List A) (i : ℕ) {a : A}
    → get_elem? xs i ≡ some a
    → get_elem? (xs ++ ys) i ≡ some a
get_elem?-append [] ys i e = cc
get_elem?-append (x ∷ xs) ys zero e = e
get_elem?-append (x ∷ xs) ys (suc i) e = get_elem?-append xs ys i e

-- A token whose send the route admits: the destination has 32 bits, at most 0.5% may be lost on the
-- way, and the options are none or the bare header.
pub record IsToken (token : LzTokenProfile) : Type 0 where
  pub dst_eid : token.dst_eid < 2 ^ 32
  pub headroom : token.min_under_bps ≤ 50
  pub options : (token.options ≡ []) ⊎ (token.options ≡ 0 ∷ 3 ∷ [])

abbrev pub fee_of : LzTokenProfile → Option ℤ → ℤ
fee_of token native_fee = elim native_fee [ none ↦ token.native_fee_cap_lamports | some fee ↦ fee ]

options_lem :
    (token : LzTokenProfile)
    → IsToken token
    → (length (map (λ b. b % 256) token.options) < 2 ^ 32)
      × ((eqb (map (λ b. b % 256) token.options) []
            || eqb (map (λ b. b % 256) token.options) (0 ∷ 3 ∷ []))
          ≡ true)
unfolding eqb
options_lem token t = elim t.options [
  | inl none_given ↦ rw none_given (omega arith, refl)
  | inr header ↦ rw header (omega arith, refl)
]

eqb_refl : (xs : Bytes) → eqb xs xs ≡ true
eqb_refl xs = (eqb_iff xs xs).1 refl

-- What the program accepts as the send of `amount` to `receiver`.
pub record IsAccepted (token : LzTokenProfile) (token_source receiver : Key) (amount : ℕ)
    (ix : Instruction) : Type 0 where
  pub program : ix.program_id ≡ token.issuer_program
  pub source : get_elem? ix.keys (token_source_index token) ≡ some (writable token_source)
  pub send : OftSendParams
  pub decoded : decode_oft_send ix.data' ≡ ok send
  pub checked : check_lz_send token.dst_eid receiver amount send ≡ ok tt

check_params :
    (token : LzTokenProfile) (receiver : Key) (amount m fee : ℕ)
    → IsToken token
    → amount - amount / 200 ≤ m
    → check_lz_send token.dst_eid receiver amount
        (params token.dst_eid amount m fee receiver (map (λ b. b % 256) token.options))
      ≡ ok tt
unfolding check_lz_send
check_params token receiver amount m fee t enough =
    let same_eid : (token.dst_eid == token.dst_eid) ≡ true = ground arith in
    let same_amount : (amount == amount) ≡ true = ground arith in
    let enough' : leb (amount - amount / 200) m ≡ true = ground arith in
    rw (same_eid, eqb_refl receiver, same_amount, enough', (options_lem token t).1) refl

module _ (find_pda : FindPda) (get_account : Key → Option Bytes)
    (get_send_library : Key → ℕ → Option Key)
    (send_metas : Key → Key → ℕ → Bytes → Key → List AccountMeta) (token : LzTokenProfile)
    (signer token_source : Key) where
  -- The send is built, and the program accepts it: it calls the issuer's program, has the caller's
  -- token account where the route says, and its bytes pass the check of the route with the token's
  -- destination, the receiver and the whole amount. The token is one that a route admits, the
  -- amount and the fee have 64 bits, the receiver has 32 bytes, the issuer's peer has a record, and
  -- a send library is set.
  pub build_issuer_send-IsAccepted :
      (receiver : Key) (amount fee : ℕ) (native_fee : Option ℤ) (own : IssuerAccounts)
      (peer_account : Bytes) (library : Key)
      → IsToken token
      → length receiver ≡ 32
      → amount < 2 ^ 64
      → fee < 2 ^ 64
      → fee_of token native_fee ≡ pos fee
      → issuer_accounts find_pda token signer token_source ≡ ok own
      → get_account own.peer ≡ some peer_account
      → get_send_library own.store token.dst_eid ≡ some library
      → (ix : Instruction) × (build_issuer_send find_pda get_account get_send_library send_metas
            token signer token_source receiver
            (pos amount)
            native_fee
          ≡ ok ix)
        × IsAccepted token token_source receiver amount ix
  unfolding build_issuer_send layer_zero_accounts
  build_issuer_send-IsAccepted receiver amount fee native_fee own peer_account library t r a f g o p
        l =
      let (m, min_is, at_most, enough) = lz_min_amount_lem amount token.min_under_bps t.headroom in
      let s : IsSend token.dst_eid amount m fee receiver (map (λ b. b % 256) token.options) =
        record {
          eid_fits = t.dst_eid;
          amount_fits = a;
          min_amount_fits = omega arith;
          fee_fits = f;
          to_fits = r;
          options_fits = (options_lem token t).0;
        } in
      let (payload, encoded, decoded) =
        oft_send_data-decode token.dst_eid amount m fee receiver (map (λ b. b % 256) token.options)
          s in
      let (own', listed, list) =
        issuer_accounts-IsIssuerList find_pda token signer token_source t.dst_eid in
      let same : own' ≡ own = ok-injective (sym listed ∙ o) in
      let others = send_metas signer own.store token.dst_eid (slice 8 40 peer_account) library in
      (
        record { program_id = token.issuer_program; keys = own.metas ++ others; data' = payload },
        rw (o, p, l, min_is, g, encoded) refl,
        record {
          program = refl;
          source =
              get_elem?-append own.metas others (token_source_index token)
                (rw (← same) list.source);
          send = params token.dst_eid amount m fee receiver (map (λ b. b % 256) token.options);
          decoded = decoded;
          checked = check_params token receiver amount m fee t enough;
        },
      )
