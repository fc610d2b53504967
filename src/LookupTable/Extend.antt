-- ===== src/LookupTable/Extend.antt =====
-- What the task leaves on chain, whichever transactions fail.
use lendmirror.Common.{
  ℕ, zero, suc, ◌≤◌, ◌<◌, ◌≡◌, refl, sym, ap, ◌∙◌, true, not, ◌&&◌, List, [], ◌∷◌, ◌++◌, take, drop,
  length, length-take, length-drop, All, Bool-cases, inl, inr, arith,
}
use mathlib.Core.List.{append_assoc, append-nil}
use lendmirror.Common.Keys.{
  eqb, eqb_iff, contains, contains-append, Distinct, Distinct-append, Distinct-front,
}
use lendmirror.Pda.{Key}
use lendmirror.LookupTable.{
  Confirmation, confirmed, unseen, rejected, Extension, missing_of, extend_from, after_chunk,
}

take-drop {ℓ} : {A : Type ℓ} (n : ℕ) (xs : List A) → take n xs ++ drop n xs ≡ xs
take-drop zero xs = refl
take-drop (suc n) [] = refl
take-drop (suc n) (x ∷ xs) = ap (λ l. x ∷ l) (take-drop n xs)

-- The keys of all transactions, one after the other.
abbrev pub joined : List (List Key) → List Key
joined [] = []
joined (chunk ∷ chunks) = chunk ++ joined chunks

-- A transaction of the loop holds between 1 and 20 keys.
abbrev pub IsChunk : List Key → Type 0
IsChunk chunk = (0 < length chunk) × (length chunk ≤ 20)

-- The table has its old entries, followed by a first part of the missing keys: all of them if the
-- loop ended.
pub record IsExtension (missing entries : List Key) (e : Extension) : Type 0 where
  pub taken : List Key
  pub rest : List Key
  pub split : taken ++ rest ≡ missing
  pub entries_are : e.entries ≡ entries ++ taken
  pub whole : e.complete ≡ true → rest ≡ []
  pub chunks : All IsChunk e.sent
  pub all_sent : e.complete ≡ true → joined e.sent ≡ missing

take-IsChunk : (k : Key) (ks : List Key) → IsChunk (take 20 (k ∷ ks))
take-IsChunk k ks = (omega (arith, length-take 20 (k ∷ ks)), omega (arith, length-take 20 (k ∷ ks)))

module _ (entries chunk more : List Key) (c : IsChunk chunk) where
  stopped-IsExtension :
      (missing : List Key)
      → chunk ++ more ≡ missing
      → (answer : Confirmation) (later : Extension) → IsExtension more (entries ++ chunk) later
      → IsExtension missing entries (after_chunk answer chunk entries later)
  stopped-IsExtension missing s confirmed later ih = record {
    taken = chunk ++ ih.taken;
    rest = ih.rest;
    split = append_assoc chunk ih.taken ih.rest ∙ (ap (λ l. chunk ++ l) ih.split ∙ s);
    entries_are = ih.entries_are ∙ append_assoc entries chunk ih.taken;
    whole = ih.whole;
    chunks = (c, ih.chunks);
    all_sent = λ h. ap (λ l. chunk ++ l) (ih.all_sent h) ∙ s;
  }
  stopped-IsExtension missing s unseen later ih = record {
    taken = chunk;
    rest = more;
    split = s;
    entries_are = refl;
    whole = λ h. cc;
    chunks = (c, tt);
    all_sent = λ h. cc;
  }
  stopped-IsExtension missing s rejected later ih = record {
    taken = [];
    rest = missing;
    split = refl;
    entries_are = sym (append-nil entries);
    whole = λ h. cc;
    chunks = (c, tt);
    all_sent = λ h. cc;
  }

pub extend_from-IsExtension :
    (fuel : ℕ) (answer : ℕ → Confirmation) (round : ℕ) (missing entries : List Key)
    → IsExtension missing entries (extend_from fuel answer round missing entries)
unfolding extend_from
extend_from-IsExtension fuel answer round [] entries = record {
  taken = [];
  rest = [];
  split = refl;
  entries_are = sym (append-nil entries);
  whole = λ h. refl;
  chunks = tt;
  all_sent = λ h. refl;
}
extend_from-IsExtension zero answer round (k ∷ ks) entries = record {
  taken = [];
  rest = k ∷ ks;
  split = refl;
  entries_are = sym (append-nil entries);
  whole = λ h. cc;
  chunks = tt;
  all_sent = λ h. cc;
}
extend_from-IsExtension (suc fuel) answer round (k ∷ ks) entries =
    stopped-IsExtension entries (take 20 (k ∷ ks)) (drop 20 (k ∷ ks)) (take-IsChunk k ks) (k ∷ ks)
      (take-drop 20 (k ∷ ks)) (answer round)
      (extend_from fuel answer (suc round) (drop 20 (k ∷ ks)) (entries ++ take 20 (k ∷ ks)))
      (extend_from-IsExtension fuel answer (suc round) (drop 20 (k ∷ ks))
        (entries ++ take 20 (k ∷ ks)))

pub complete-extend_from :
    (fuel : ℕ) (answer : ℕ → Confirmation) (round : ℕ) (missing entries : List Key)
    → length missing ≤ fuel
    → ((i : ℕ) → answer i ≡ confirmed)
    → (extend_from fuel answer round missing entries).complete ≡ true
unfolding extend_from
complete-extend_from fuel answer round [] entries h all = refl
complete-extend_from zero answer round (k ∷ ks) entries h all = absurd (omega arith)
complete-extend_from (suc fuel) answer round (k ∷ ks) entries h all = rw (all round) (
    complete-extend_from fuel answer (suc round) (drop 20 (k ∷ ks)) (entries ++ take 20 (k ∷ ks))
      (omega (arith, length-drop 20 (k ∷ ks))) all)

contains-missing_of :
    (k : Key) (existing wanted : List Key)
    → contains k (missing_of existing wanted) ≡ (contains k wanted && not (contains k existing))
unfolding missing_of contains
contains-missing_of k existing [] = refl
contains-missing_of k existing (w ∷ ws) = elim (Bool-cases (eqb w k)) [
  | inl same ↦
      let e : w ≡ k = (eqb_iff w k).0 same in
      let there : contains w existing ≡ contains k existing = ap (λ x. contains x existing) e in
      ground (arith, contains-missing_of k existing ws)
  | inr other ↦ ground (arith, contains-missing_of k existing ws)
]

Distinct-missing_of :
    (existing wanted : List Key) → Distinct wanted → Distinct (missing_of existing wanted)
unfolding missing_of contains
Distinct-missing_of existing [] d = tt
Distinct-missing_of existing (w ∷ ws) d = elim (Bool-cases (contains w existing)) [
  | inl old ↦ rw old (Distinct-missing_of existing ws d.1)
  | inr new ↦
      rw new (
        ground (arith, contains-missing_of w existing ws, d.0),
        Distinct-missing_of existing ws d.1,
      )
]

module _ (existing wanted taken rest : List Key)
    (split : taken ++ rest ≡ missing_of existing wanted) where
  pub Distinct-taken : Distinct existing → Distinct wanted → Distinct (existing ++ taken)
  Distinct-taken d w =
      Distinct-append existing taken d
        (Distinct-front taken rest (rw split (Distinct-missing_of existing wanted w)))
        λ k h. ground (
          arith,
          contains-append k taken rest,
          ap (λ l. contains k l) split,
          contains-missing_of k existing wanted,
        )

  pub contains-taken :
      rest ≡ [] → (k : Key) → contains k wanted ≡ true → contains k (existing ++ taken) ≡ true
  unfolding contains
  contains-taken none_left k h = ground (
    arith,
    contains-append k existing taken,
    contains-append k taken rest,
    ap (λ l. contains k l) split,
    ap (λ l. contains k l) none_left,
    contains-missing_of k existing wanted,
  )
