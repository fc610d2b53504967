-- ===== src/LzSend/Accounts.antt =====
-- The accounts of the send, and the whole instruction.
use native.Mathlib.Nat.{mul-le-mul_left}
use lendmirror.Common.{
  ℕ, zero, suc, ◌-◌, ◌*◌, ◌/◌, ◌^◌, ◌≤◌, ◌<◌, ◌≡◌, refl, Bool, true, false, not, some, List, [],
  ◌∷◌, get_elem?, leb, ltb, arith, ◌&&◌,
}
use lendmirror.Common.Int.{pos}
use lendmirror.Common.Outcome.{ok}
use lendmirror.Bytes.{Bytes, be_bytes, checked_be}
use lendmirror.Pda.{Key, FindPda}
use lendmirror.Config.{LzTokenProfile, LzIssuer, standard_oft, usdt0, usdai}
use lendmirror.Ix.{AccountMeta, writable, signer_meta}
use lendmirror.LzSend.{
  lz_min_amount, token_source_index, issuer_source_index, IssuerAccounts, standard_oft_accounts,
  usdt0_accounts, usdai_accounts, accounts_of, issuer_accounts, eid_bytes,
}

-- The signers of an account list, by their places.
abbrev pub signers : List AccountMeta → List Bool
signers [] = []
signers (m ∷ ms) = m.is_signer ∷ signers ms

abbrev no_signer : List AccountMeta → Bool
no_signer [] = true
no_signer (m ∷ ms) = not m.is_signer && no_signer ms

-- What the program and the route rely on in an issuer's account list: the caller's token account
-- stands, writable, where the route says; the caller is the first account and the only signer.
pub record IsIssuerList (index : ℕ) (signer token_source : Key) (metas : List AccountMeta)
    : Type 0 where
  pub source : get_elem? metas index ≡ some (writable token_source)
  pub first : get_elem? metas 0 ≡ some (signer_meta signer)
  pub alone : (k : ℕ) (m : AccountMeta) → get_elem? metas (suc k) ≡ some m → m.is_signer ≡ false

pub lz_min_amount_lem :
    (n bps : ℕ)
    → bps ≤ 50
    → (m : ℕ) × (lz_min_amount (pos n) bps ≡ pos m) × (m ≤ n) × (n - n / 200 ≤ m)
unfolding lz_min_amount
lz_min_amount_lem n bps h =
    let less : n * bps ≤ n * 50 = mul-le-mul_left n h in
    let fits : leb (n * bps / 10000) n ≡ true = ground arith in
    (n - n * bps / 10000, rw fits refl, omega arith, omega arith)

no_signer-get :
    (ms : List AccountMeta) (k : ℕ) (m : AccountMeta)
    → no_signer ms ≡ true
    → get_elem? ms k ≡ some m
    → m.is_signer ≡ false
no_signer-get [] k m n e = cc
no_signer-get (x ∷ ms) zero m n e = ground arith
no_signer-get (x ∷ ms) (suc k) m n e = no_signer-get ms k m (ground arith) e

issuer_list :
    (index : ℕ) (signer token_source : Key) (rest : List AccountMeta)
    → get_elem? (signer_meta signer ∷ rest) index ≡ some (writable token_source)
    → no_signer rest ≡ true
    → IsIssuerList index signer token_source (signer_meta signer ∷ rest)
issuer_list index signer token_source rest e n = record {
  source = e;
  first = refl;
  alone = λ k m h. no_signer-get rest k m n h;
}

accounts_of-IsIssuerList :
    (find_pda : FindPda) (token : LzTokenProfile) (signer token_source : Key) (eid : Bytes)
    (issuer : LzIssuer)
    → IsIssuerList
        (issuer_source_index issuer)
        signer
        token_source
        (accounts_of find_pda token signer token_source eid issuer).metas
unfolding accounts_of standard_oft_accounts usdt0_accounts usdai_accounts issuer_source_index
accounts_of-IsIssuerList find_pda token signer token_source eid (standard_oft escrow) =
    issuer_list 3 signer token_source _ refl refl
accounts_of-IsIssuerList find_pda token signer token_source eid (usdt0 escrow) =
    issuer_list 4 signer token_source _ refl refl
accounts_of-IsIssuerList find_pda token signer token_source eid (usdai s p f d r t) =
    issuer_list 9 signer token_source _ refl refl

eid_bytes_lem : (eid : ℕ) → eid < 2 ^ 32 → eid_bytes eid ≡ ok (be_bytes 4 eid)
unfolding eid_bytes checked_be
eid_bytes_lem eid h = let fits : ltb eid (2 ^ 32) ≡ true = ground arith in rw fits refl

-- For a destination id of 32 bits, every kind of issuer gets an account list in which the caller's
-- token account stands, writable, at the place that the route gives, and in which the caller comes
-- first and is the only signer.
pub issuer_accounts-IsIssuerList :
    (find_pda : FindPda) (token : LzTokenProfile) (signer token_source : Key)
    → token.dst_eid < 2 ^ 32
    → (own : IssuerAccounts) × (issuer_accounts find_pda token signer token_source ≡ ok own)
      × IsIssuerList (token_source_index token) signer token_source own.metas
unfolding issuer_accounts token_source_index
issuer_accounts-IsIssuerList find_pda token signer token_source h = (
  accounts_of find_pda token signer token_source (be_bytes 4 token.dst_eid) token.issuer,
  rw (eid_bytes_lem token.dst_eid h) refl,
  accounts_of-IsIssuerList find_pda token signer token_source (be_bytes 4 token.dst_eid)
      token.issuer,
)
