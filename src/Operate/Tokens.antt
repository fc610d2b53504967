-- ===== src/Operate/Tokens.antt =====
-- The token accounts of an operation.
use lendmirror.Common.{
  ◌≡◌, refl, ◌∙◌, ap, true, false, Option, none, some, List, [], ◌∷◌, map, if◌then◌else◌,
  Bool-cases, inl, inr, arith,
}
use lendmirror.Common.Keys.{eqb, eqb_iff, contains, Distinct}
use lendmirror.Pda.{Key}
use lendmirror.Operate.{
  Candidate, TokenAccount, SdkAccounts, complete, add_fresh, fresh_accounts, token_candidates,
  pda_token_accounts,
}

-- The first account listed under an address.
pub first_listed : Key → List TokenAccount → Option TokenAccount
first_listed k [] = none
first_listed k (t ∷ ts) = let rest = first_listed k ts in if eqb t.address k then some t else rest

abbrev pub pick : Key → Option TokenAccount → Option TokenAccount → Option TokenAccount
pick k none rest = rest
pick k (some t) rest = if eqb t.address k then some t else rest

-- The first candidate with that address whose mint and program are known.
pub first_candidate : Key → List Candidate → Option TokenAccount
first_candidate k [] = none
first_candidate k (c ∷ cs) = pick k (complete c) (first_candidate k cs)

abbrev pub addresses : List TokenAccount → List Key
addresses = map (λ t. t.address)

module _ (k : Key) (later : List Key → List TokenAccount) where
  first_listed-add_fresh :
      (o rest : Option TokenAccount) (seen : List Key)
      → contains k seen ≡ false
      → ((s : List Key) → contains k s ≡ false → first_listed k (later s) ≡ rest)
      → first_listed k (add_fresh seen o later) ≡ pick k o rest
  unfolding first_listed add_fresh contains
  first_listed-add_fresh none rest seen h ih = ih seen h
  first_listed-add_fresh (some t) rest seen h ih = elim (Bool-cases (eqb t.address k)) [
    | inl same ↦
        let e : t.address ≡ k = (eqb_iff t.address k).0 same in
        rw (ap (λ a. contains a seen) e ∙ h, same) refl
    | inr other ↦ elim (Bool-cases (contains t.address seen)) [
      | inl old ↦ rw (old, other) (ih seen h)
      | inr new ↦ rw (new, other) (ih (t.address ∷ seen) (rw (other, h) refl))
    ]
  ]

  absent-add_fresh :
      (o : Option TokenAccount) (seen : List Key)
      → contains k seen ≡ true
      → ((s : List Key) → contains k s ≡ true → contains k (addresses (later s)) ≡ false)
      → contains k (addresses (add_fresh seen o later)) ≡ false
  unfolding add_fresh contains
  absent-add_fresh none seen h ih = ih seen h
  absent-add_fresh (some t) seen h ih = elim (Bool-cases (contains t.address seen)) [
    | inl old ↦ rw old (ih seen h)
    | inr new ↦ elim (Bool-cases (eqb t.address k)) [
      | inl same ↦
          let e : t.address ≡ k = (eqb_iff t.address k).0 same in
          let clash : contains t.address seen ≡ true = ap (λ a. contains a seen) e ∙ h in
          ground arith
      | inr other ↦ rw (new, other) (ih (t.address ∷ seen) (rw (other, h) refl))
    ]
  ]

first_listed-fresh :
    (k : Key) (cs : List Candidate) (seen : List Key)
    → contains k seen ≡ false
    → first_listed k (fresh_accounts cs seen) ≡ first_candidate k cs
unfolding fresh_accounts first_candidate first_listed
first_listed-fresh k [] seen h = refl
first_listed-fresh k (c ∷ cs) seen h =
    first_listed-add_fresh k (fresh_accounts cs) (complete c) (first_candidate k cs) seen h
      (first_listed-fresh k cs)

absent-fresh :
    (k : Key) (cs : List Candidate) (seen : List Key)
    → contains k seen ≡ true
    → contains k (addresses (fresh_accounts cs seen)) ≡ false
unfolding fresh_accounts contains
absent-fresh k [] seen h = refl
absent-fresh k (c ∷ cs) seen h =
    absent-add_fresh k (fresh_accounts cs) (complete c) seen h (absent-fresh k cs)

Distinct-add_fresh :
    (o : Option TokenAccount) (seen : List Key) (later : List Key → List TokenAccount)
    → ((s : List Key) → Distinct (addresses (later s)))
    → ((k : Key) (s : List Key) → contains k s ≡ true → contains k (addresses (later s)) ≡ false)
    → Distinct (addresses (add_fresh seen o later))
unfolding add_fresh contains
Distinct-add_fresh none seen later ih absent = ih seen
Distinct-add_fresh (some t) seen later ih absent = elim (Bool-cases (contains t.address seen)) [
  | inl old ↦ rw old (ih seen)
  | inr new ↦ rw new (
    absent t.address (t.address ∷ seen) (rw ((eqb_iff t.address t.address).1 refl) refl),
    ih (t.address ∷ seen),
  )
]

Distinct-fresh :
    (cs : List Candidate) (seen : List Key) → Distinct (addresses (fresh_accounts cs seen))
unfolding fresh_accounts
Distinct-fresh [] seen = tt
Distinct-fresh (c ∷ cs) seen =
    Distinct-add_fresh (complete c) seen (fresh_accounts cs) (Distinct-fresh cs)
      (λ k s h. absent-fresh k cs s h)

-- No address is listed twice, and under every address stands the first candidate that has it with a
-- mint and a token program, or nothing if there is none.
pub pda_token_accounts_lem :
    (a : SdkAccounts)
    → Distinct (addresses (pda_token_accounts a))
      × ((k : Key) → first_listed k (pda_token_accounts a) ≡ first_candidate k (token_candidates a))
unfolding pda_token_accounts contains
pda_token_accounts_lem a =
    (Distinct-fresh (token_candidates a) [], λ k. first_listed-fresh k (token_candidates a) [] refl)
