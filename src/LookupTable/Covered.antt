-- ===== src/LookupTable/Covered.antt =====
-- A run of the task, and the run after one that failed.
use lendmirror.Common.{
  ℕ, ◌≡◌, refl, sym, ap, ◌∙◌, Bool, true, false, Option, none, some, List, [], ◌++◌, length, All,
  Bool-cases, inl, inr, arith,
}
use mathlib.Core.Path.{subst}
use mathlib.Core.List.{append_assoc}
use lendmirror.Common.Keys.{eqb, eqb_iff, contains, Distinct}
use lendmirror.Common.Outcome.{Result, ok}
use lendmirror.Pda.{Key}
use lendmirror.LookupTable.{
  TableError, Confirmation, confirmed, Extension, State, missing_of, extension, extend_table,
  finish, set_table, create_lookup_table,
}
use lendmirror.LookupTable.Extend.{
  IsChunk, joined, IsExtension, extend_from-IsExtension, complete-extend_from, Distinct-taken,
  contains-taken,
}

-- Which table a run works on, and what it holds before: the saved one, or a new one, which is empty.
pub data Starts (s : State) (new_table : Key) (created : Confirmation)
    : Key → List Key → Type 0 where
  from_saved :
      {t : Key} {existing : List Key}
      → s.saved ≡ some t
      → s.tables t ≡ some existing
      → Starts s new_table created t existing
  from_new :
      {t : Key} {existing : List Key}
      → s.saved ≡ none
      → created ≡ confirmed
      → new_table ≡ t
      → existing ≡ []
      → Starts s new_table created t existing

-- The table keeps its entries, in their places, and has more behind them, none of them twice. No
-- other table has changed. If the run ended well, then all wanted keys are there and the address is
-- saved.
pub record IsTable (wanted existing : List Key) (t : Key) (s : State)
    (r : Result TableError (Unit {0}) × State) : Type 0 where
  pub added : List Key
  pub there : r.1.tables t ≡ some (existing ++ added)
  pub distinct : Distinct (existing ++ added)
  pub others : (k : Key) → eqb k t ≡ false → r.1.tables k ≡ s.tables k
  pub covered :
      r.0 ≡ ok tt → (k : Key) → contains k wanted ≡ true → contains k (existing ++ added) ≡ true
  pub address_saved : r.0 ≡ ok tt → r.1.saved ≡ some t
  pub address_kept : s.saved ≡ some t → r.1.saved ≡ some t

module _ (wanted : List Key) (answer : ℕ → Confirmation) (file_there : Bool) where
  extension-IsExtension :
      (existing : List Key)
      → IsExtension
          (missing_of existing wanted)
          existing
          (extension wanted answer file_there existing)
  unfolding extension
  extension-IsExtension existing =
      extend_from-IsExtension (length (missing_of existing wanted)) answer 0
        (missing_of existing wanted) existing

  set_table_self :
      (t : Key) (entries : List Key) (tables : Key → Option (List Key))
      → set_table t entries tables t ≡ some entries
  set_table_self t entries tables = rw ((eqb_iff t t).1 refl) refl

  finish-IsTable :
      (existing : List Key) (t : Key) (s : State) (e : Extension) (complete : Bool)
      → (x : IsExtension (missing_of existing wanted) existing e) → e.complete ≡ complete
      → Distinct existing
      → Distinct wanted
      → IsTable wanted existing t s (finish wanted answer file_there t e s complete)
  finish-IsTable existing t s e true x c d w = elim (Bool-cases file_there) [
    | inl there ↦ rw there (record {
      added = x.taken;
      there = set_table_self t e.entries s.tables ∙ ap some x.entries_are;
      distinct = Distinct-taken existing wanted x.taken x.rest x.split d w;
      others = λ k h. rw h refl;
      covered = λ _. contains-taken existing wanted x.taken x.rest x.split (x.whole c);
      address_saved = λ _. refl;
      address_kept = λ _. refl;
    })
    | inr gone ↦ rw gone (record {
      added = x.taken;
      there = set_table_self t e.entries s.tables ∙ ap some x.entries_are;
      distinct = Distinct-taken existing wanted x.taken x.rest x.split d w;
      others = λ k h. rw h refl;
      covered = λ bad. cc;
      address_saved = λ bad. cc;
      address_kept = λ kept. kept;
    })
  ]
  finish-IsTable existing t s e false x c d w = record {
    added = x.taken;
    there = set_table_self t e.entries s.tables ∙ ap some x.entries_are;
    distinct = Distinct-taken existing wanted x.taken x.rest x.split d w;
    others = λ k h. rw h refl;
    covered = λ bad. cc;
    address_saved = λ bad. cc;
    address_kept = λ kept. kept;
  }

  extend_table-IsTable :
      (existing : List Key) (t : Key) (s : State)
      → Distinct existing
      → Distinct wanted
      → IsTable wanted existing t s (extend_table wanted answer file_there t existing s)
  unfolding extend_table
  extend_table-IsTable existing t s d w =
      let e = extension wanted answer file_there existing in
      finish-IsTable existing t s e e.complete (extension-IsExtension existing) refl d w

  abbrev emptied : Key → State → State
  emptied t s = record { saved = s.saved; tables = set_table t [] s.tables }

  run_from_saved :
      (new_table t : Key) (created : Confirmation) (s : State) (existing : List Key)
      → s.saved ≡ some t
      → s.tables t ≡ some existing
      → create_lookup_table wanted answer file_there new_table created s
        ≡ extend_table wanted answer file_there t existing s
  unfolding create_lookup_table
  run_from_saved new_table t created s existing a b = rw (a, b) refl

  run_from_new :
      (new_table : Key) (s : State)
      → s.saved ≡ none
      → create_lookup_table wanted answer file_there new_table confirmed s
        ≡ extend_table wanted answer file_there new_table [] (emptied new_table s)
  unfolding create_lookup_table
  run_from_new new_table s a = rw a refl

  from_emptied :
      (t : Key) (s : State) (r : Result TableError (Unit {0}) × State)
      → s.saved ≡ none
      → IsTable wanted [] t (emptied t s) r
      → IsTable wanted [] t s r
  from_emptied t s r none_saved i = record {
    added = i.added;
    there = i.there;
    distinct = i.distinct;
    others = λ k h. i.others k h ∙ rw h refl;
    covered = i.covered;
    address_saved = i.address_saved;
    address_kept = λ h. absurd (no_address (sym none_saved ∙ h));
  }
    where
      no_address : none ≡ some t → ⊥
      no_address h = cc

  -- Whichever transactions fail: the run's table keeps its entries in their places, with keys behind
  -- them so that none stands twice; no other table changes; and if the run ends well, every wanted
  -- key is in the table and its address is saved. This holds if the table's entries were distinct
  -- before, and the wanted keys are.
  pub create_lookup_table-IsTable :
      (new_table t : Key) (created : Confirmation) (s : State) (existing : List Key)
      → Starts s new_table created t existing
      → Distinct existing
      → Distinct wanted
      → IsTable wanted existing t s
          (create_lookup_table wanted answer file_there new_table created s)
  create_lookup_table-IsTable new_table t created s existing (from_saved a b) d w =
      rw (run_from_saved new_table t created s existing a b) (extend_table-IsTable existing t s d w)
  create_lookup_table-IsTable new_table t created s existing (from_new a c n e) d w =
      rw (c, e, ← n, run_from_new new_table s a)
        (from_emptied new_table s
          (extend_table wanted answer file_there new_table [] (emptied new_table s)) a
          (extend_table-IsTable [] new_table (emptied new_table s) tt w))

  -- No transaction of the loop holds more than 20 keys or none, and if the loop ends, then its
  -- transactions have sent exactly the missing keys, in order.
  pub extension-chunks :
      (existing : List Key)
      → All IsChunk (extension wanted answer file_there existing).sent
        × ((extension wanted answer file_there existing).complete ≡ true
            → joined (extension wanted answer file_there existing).sent
              ≡ missing_of existing wanted)
  extension-chunks existing = let x = extension-IsExtension existing in (x.chunks, x.all_sent)

module _ (wanted : List Key) (first_answer second_answer : ℕ → Confirmation) where
  extend_table-ok :
      (t : Key) (existing : List Key) (s : State)
      → ((i : ℕ) → second_answer i ≡ confirmed)
      → (extend_table wanted second_answer true t existing s).0 ≡ ok tt
  unfolding extend_table extension
  extend_table-ok t existing s all =
      rw
        (complete-extend_from (length (missing_of existing wanted)) second_answer 0
          (missing_of existing wanted) existing (omega arith) all)
        refl

  -- A run on a saved table may stop anywhere. A run after it whose transactions are all confirmed ends
  -- well, and then the table has its first entries in their places, every wanted key, and none twice.
  pub create_lookup_table_again :
      (new_table t : Key) (created : Confirmation) (file_there : Bool) (s : State)
      (existing : List Key)
      → s.saved ≡ some t
      → s.tables t ≡ some existing
      → Distinct existing
      → Distinct wanted
      → ((i : ℕ) → second_answer i ≡ confirmed)
      → let (first_result, s') =
          create_lookup_table wanted first_answer file_there new_table created s in
        let (second_result, s'') =
          create_lookup_table wanted second_answer true new_table created s' in
        (second_result ≡ ok tt)
        × ((added : List Key) × (s''.tables t ≡ some (existing ++ added))
            × Distinct (existing ++ added)
            × ((k : Key) → contains k wanted ≡ true → contains k (existing ++ added) ≡ true))
  create_lookup_table_again new_table t created file_there s existing a b d w all =
      let r = create_lookup_table wanted first_answer file_there new_table created s in
      let i =
        create_lookup_table-IsTable wanted first_answer file_there new_table t created s existing
          (from_saved a b) d w in
      let a' : r.1.saved ≡ some t = i.address_kept a in
      let i' =
        create_lookup_table-IsTable wanted second_answer true new_table t created r.1
          (existing ++ i.added) (from_saved a' i.there) i.distinct w in
      let fine : (create_lookup_table wanted second_answer true new_table created r.1).0 ≡ ok tt =
        rw
          (run_from_saved wanted second_answer true new_table t created r.1 (existing ++ i.added) a'
            i.there)
          (extend_table-ok t (existing ++ i.added) r.1 all) in
      let e = append_assoc existing i.added i'.added in
      (
        fine,
        (
          i.added ++ i'.added,
          i'.there ∙ ap some e,
          subst (λ entries. Distinct entries) e i'.distinct,
          λ k h. ap (λ entries. contains k entries) (sym e) ∙ i'.covered fine k h,
        ),
      )
