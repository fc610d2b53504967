-- ===== src/Wire/Endpoint.antt =====
-- Which endpoint id the search through the graph gives.
use lendmirror.Common.{
  ℕ, ◌≡◌, ◌≢◌, refl, Bool, true, false, ◌||◌, ◌⊎◌, inl, inr, List, [], ◌∷◌, Bool-cases, ◌==◌,
  ==_iff, arith,
}
use lendmirror.Common.Outcome.{Result, ok, err, ◌>>=◌}
use lendmirror.Wire.{
  ChainType, WireError, multiple_solana_eids, no_solana_eid, Connection, is_solana, check_endpoint,
  next_or, find_solana_endpoint_id,
}

module _ (chain_type : ℕ → ChainType) where
  abbrev pub touches_solana : Connection → Bool
  touches_solana c = is_solana chain_type c.from || is_solana chain_type c.to

  -- What a connection with an end on Solana gives: the id of its ends there, if they agree.
  abbrev pub Ends : Connection → Result WireError ℕ → Type 0
  Ends c (ok eid) =
      (is_solana chain_type eid ≡ true)
      × (is_solana chain_type c.from ≡ true → c.from ≡ eid)
      × (is_solana chain_type c.to ≡ true → c.to ≡ eid)
  Ends c (err e) =
      (e ≡ multiple_solana_eids)
      × (is_solana chain_type c.from ≡ true)
      × (is_solana chain_type c.to ≡ true)
      × (c.from ≢ c.to)

  -- The first connection with an end on Solana decides, whatever stands behind it.
  abbrev pub IsFirst : List Connection → Result WireError ℕ → Type 0
  IsFirst [] r = r ≡ err no_solana_eid
  IsFirst (c ∷ cs) r =
      ((touches_solana c ≡ false) × IsFirst cs r) ⊎ ((touches_solana c ≡ true) × Ends c r)

  module _ (zero_elsewhere : is_solana chain_type 0 ≡ false) where
    abbrev step : Connection → Result WireError ℕ → Result WireError ℕ
    step c later = do
      first ← check_endpoint chain_type 0 c.from
      both ← check_endpoint chain_type first c.to
      next_or chain_type both later

    step-passes :
        (c : Connection) (later : Result WireError ℕ)
        → is_solana chain_type c.from ≡ false
        → is_solana chain_type c.to ≡ false
        → step c later ≡ later
    unfolding check_endpoint
    step-passes c later f t = rw (f, t) refl

    nonzero : (eid : ℕ) → is_solana chain_type eid ≡ true → (eid == 0) ≡ false
    nonzero eid h = elim (Bool-cases (eid == 0)) [
      | inr no_zero ↦ no_zero
      | inl is_zero ↦
          let e : eid ≡ 0 = (==_iff eid 0).0 is_zero in
          let there : is_solana chain_type 0 ≡ true = rw e at h in ground arith
    ]

    Ends-from :
        (c : Connection) (later : Result WireError ℕ)
        → is_solana chain_type c.from ≡ true
        → is_solana chain_type c.to ≡ false
        → Ends c (step c later)
    unfolding check_endpoint
    Ends-from c later f t = rw (f, t, nonzero c.from f) (f, λ _. refl, λ h. ground arith)

    Ends-to :
        (c : Connection) (later : Result WireError ℕ)
        → is_solana chain_type c.from ≡ false
        → is_solana chain_type c.to ≡ true
        → Ends c (step c later)
    unfolding check_endpoint
    Ends-to c later f t = rw (f, t, nonzero c.to t) (t, λ h. ground arith, λ _. refl)

    Ends-both :
        (c : Connection) (later : Result WireError ℕ)
        → is_solana chain_type c.from ≡ true
        → is_solana chain_type c.to ≡ true
        → Ends c (step c later)
    unfolding check_endpoint
    Ends-both c later f t = elim (Bool-cases (c.from == c.to)) [
      | inl same ↦
          rw (f, t, nonzero c.from f, same, nonzero c.to t)
            (t, λ _. (==_iff c.from c.to).0 same, λ _. refl)
      | inr other ↦
          rw (f, t, nonzero c.from f, other)
            (refl, f, t, λ e. let b = (==_iff c.from c.to).1 e in ground arith)
    ]

    -- If 0 is not an id on Solana: the search gives the id of the first connection with an end on
    -- Solana, whatever connections stand behind it; it fails because of several ids exactly if that
    -- connection joins two, and because of none exactly if there is no such connection.
    pub find_solana_endpoint_id-IsFirst :
        (cs : List Connection) → IsFirst cs (find_solana_endpoint_id chain_type cs)
    unfolding find_solana_endpoint_id
    find_solana_endpoint_id-IsFirst [] = refl
    find_solana_endpoint_id-IsFirst (c ∷ cs) = elim (Bool-cases (is_solana chain_type c.from)) [
      | inl f ↦ elim (Bool-cases (is_solana chain_type c.to)) [
        | inl t ↦ inr (ground arith, Ends-both c (find_solana_endpoint_id chain_type cs) f t)
        | inr t ↦ inr (ground arith, Ends-from c (find_solana_endpoint_id chain_type cs) f t)
      ]
      | inr f ↦ elim (Bool-cases (is_solana chain_type c.to)) [
        | inl t ↦ inr (ground arith, Ends-to c (find_solana_endpoint_id chain_type cs) f t)
        | inr t ↦ inl (
          ground arith,
          rw (step-passes c (find_solana_endpoint_id chain_type cs) f t)
              (find_solana_endpoint_id-IsFirst cs),
        )
      ]
    ]
