-- ===== src/Tasks/Mint.antt =====
-- Which mint a text on the command line names.
use lendmirror.Common.{
  ℕ, ◌≡◌, ◌≢◌, refl, ◌⊎◌, inl, inr, false, Option, none, some, List, [], ◌∷◌, All, Bool-cases,
  arith,
}
use lendmirror.Common.Keys.{eqb, eqb_iff}
use lendmirror.Common.Outcome.{ok}
use lendmirror.Common.Text.{codes}
use lendmirror.Pda.{Key}
use lendmirror.Config.{LzTokenProfile, DeploymentProfile}
use lendmirror.Tasks.{
  ResolvedMint, lower_text, find_by_symbol, find_by_mint, find_token, resolved, resolve_mint,
}

abbrev pub Among : LzTokenProfile → List LzTokenProfile → Type 0
Among t [] = ⊥
Among t (x ∷ xs) = (x ≡ t) ⊎ Among t xs

module _ (text_of : Key → List ℕ) (raw : List ℕ) where
  abbrev pub HasSymbol : LzTokenProfile → Type 0
  HasSymbol t = lower_text t.symbol ≡ lower_text raw

  abbrev pub HasMint : LzTokenProfile → Type 0
  HasMint t = text_of t.mint ≡ raw

  -- The result is a token of the profile, with the token's own mint.
  pub record IsTokenMint (t : LzTokenProfile) (r : ResolvedMint) : Type 0 where
    pub token : r.lz_token ≡ some t
    pub own_mint : r.mint ≡ text_of t.mint

  -- What the text stands for among the tokens: one with that symbol, in any case; else one with that
  -- mint; else only itself.
  pub data IsFound (ts : List LzTokenProfile) (r : ResolvedMint) : Type 0 where
    by_symbol : (t : LzTokenProfile) → Among t ts → HasSymbol t → IsTokenMint t r → IsFound ts r
    by_mint :
        (t : LzTokenProfile)
        → All (λ u. ¬ HasSymbol u) ts
        → Among t ts
        → HasMint t
        → IsTokenMint t r
        → IsFound ts r
    nowhere :
        All (λ u. ¬ HasSymbol u) ts
        → All (λ u. ¬ HasMint u) ts
        → r.lz_token ≡ none
        → r.mint ≡ raw
        → IsFound ts r

  symbol-cases :
      (ts : List LzTokenProfile)
      → ((t : LzTokenProfile) × Among t ts × HasSymbol t × (find_by_symbol text_of raw ts ≡ some t))
        ⊎ (All (λ u. ¬ HasSymbol u) ts × (find_by_symbol text_of raw ts ≡ none))
  unfolding find_by_symbol
  symbol-cases [] = inr (tt, refl)
  symbol-cases (t ∷ ts) = elim (Bool-cases (eqb (lower_text t.symbol) (lower_text raw))) [
    | inl here ↦
        inl (t, inl refl, (eqb_iff (lower_text t.symbol) (lower_text raw)).0 here, rw here refl)
    | inr other ↦ elim (symbol-cases ts) [
      | inl (u, among, has, found) ↦ inl (u, inr among, has, rw (other, found) refl)
      | inr (never, found) ↦ inr (
        (λ h. ground (arith, eqb_iff (lower_text t.symbol) (lower_text raw)), never),
        rw (other, found) refl,
      )
    ]
  ]

  mint-cases :
      (ts : List LzTokenProfile)
      → ((t : LzTokenProfile) × Among t ts × HasMint t × (find_by_mint text_of raw ts ≡ some t))
        ⊎ (All (λ u. ¬ HasMint u) ts × (find_by_mint text_of raw ts ≡ none))
  unfolding find_by_mint
  mint-cases [] = inr (tt, refl)
  mint-cases (t ∷ ts) = elim (Bool-cases (eqb (text_of t.mint) raw)) [
    | inl here ↦ inl (t, inl refl, (eqb_iff (text_of t.mint) raw).0 here, rw here refl)
    | inr other ↦ elim (mint-cases ts) [
      | inl (u, among, has, found) ↦ inl (u, inr among, has, rw (other, found) refl)
      | inr (never, found) ↦
          inr ((λ h. ground (arith, eqb_iff (text_of t.mint) raw), never), rw (other, found) refl)
    ]
  ]

  found_lem :
      (t : LzTokenProfile) (found : Option LzTokenProfile)
      → found ≡ some t
      → IsTokenMint t (resolved text_of raw found)
  unfolding resolved
  found_lem t found e = record { token = rw e refl; own_mint = rw e refl }

  lost_lem :
      (found : Option LzTokenProfile)
      → found ≡ none
      → ((resolved text_of raw found).lz_token ≡ none) × ((resolved text_of raw found).mint ≡ raw)
  unfolding resolved
  lost_lem found e = (rw e refl, rw e refl)

  resolved-IsFound :
      (ts : List LzTokenProfile) → IsFound ts (resolved text_of raw (find_token text_of raw ts))
  unfolding find_token
  resolved-IsFound ts = elim (symbol-cases ts) [
    | inl (t, among, has, found) ↦ by_symbol t among has (found_lem t _ (rw found refl))
    | inr (never, gone) ↦ elim (mint-cases ts) [
      | inl (t, among, has, found) ↦
          by_mint t never among has (found_lem t _ (rw (gone, found) refl))
      | inr (no_mint, found) ↦
          let lost = lost_lem (find_token text_of raw ts) (rw (gone, found) refl) in
          nowhere never no_mint lost.0 lost.1
    ]
  ]

  -- Any text but `usdc` is resolved: to the token of the profile with that symbol, in upper or lower
  -- case; if there is none, to the token with that mint; and if there is none either, to the text
  -- itself, without a token. Where a token is found, the mint is the token's own.
  pub resolve_mint-IsFound :
      (profile : DeploymentProfile)
      → raw ≢ codes "usdc"
      → (r : ResolvedMint) × (resolve_mint text_of profile raw ≡ ok r) × IsFound profile.lz_tokens r
  unfolding resolve_mint
  resolve_mint-IsFound profile h =
      let other : eqb raw (codes "usdc") ≡ false = differs in
      (
        resolved text_of raw (find_token text_of raw profile.lz_tokens),
        rw other refl,
        resolved-IsFound profile.lz_tokens,
      )
    where
      differs : eqb raw (codes "usdc") ≡ false
      differs = elim (Bool-cases (eqb raw (codes "usdc"))) [
        | inl same ↦ absurd (h ((eqb_iff raw (codes "usdc")).0 same))
        | inr other ↦ other
      ]
