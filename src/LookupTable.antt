-- ===== src/LookupTable.antt =====
-- tasks/solana/lookupTable.ts: the address lookup table that holds the fixed accounts of the sends
-- and bridges. The task reads what the table has, adds what is missing in transactions of 20, and
-- saves the table's address. The chain's answers are parameters.
pub mod Extend
pub mod Covered
pub mod Wanted
pub mod Members
use lendmirror.Common.{
  ℕ, zero, suc, Bool, true, false, Option, none, some, List, [], ◌∷◌, ◌++◌, take, drop, length,
  if◌then◌else◌,
}
use lendmirror.Common.Keys.{eqb, contains}
use lendmirror.Common.Outcome.{Result, ok, err}
use lendmirror.Pda.{Key}

pub data TableError : Type 0 where
  -- `Lookup table … not found on chain`
  not_found : TableError
  -- what `sendAndConfirmTransaction` throws
  not_confirmed : TableError
  -- `Missing deployments/…/OApp.json`
  no_file : TableError

-- How a transaction ends. An unseen one has landed, but its confirmation was not received.
pub data Confirmation : Type 0 where
  confirmed unseen rejected : Confirmation

-- `Set.add`, with the elements in the order of their first insertion.
unfoldable pub add : List Key → Key → List Key
add set k = if contains k set then set else set ++ (k ∷ [])

unfoldable pub add_all : List Key → List Key → List Key
add_all set [] = set
add_all set (k ∷ ks) = add_all (add set k) ks

-- `wanted.filter((k) => !existing.includes(k))`
unfoldable pub missing_of : List Key → List Key → List Key
missing_of existing [] = []
missing_of existing (k ∷ ks) =
    let rest = missing_of existing ks in if contains k existing then rest else k ∷ rest

-- The loop over the missing keys: whether it ended, what the table then holds, and the keys of each
-- transaction that was sent.
pub record Extension : Type 0 where
  pub complete : Bool
  pub entries : List Key
  pub sent : List (List Key)

abbrev pub sent_before : List Key → Extension → Extension
sent_before chunk e = record { complete = e.complete; entries = e.entries; sent = chunk ∷ e.sent }

abbrev pub stopped : List Key → List Key → Extension
stopped chunk entries = record { complete = false; entries = entries; sent = chunk ∷ [] }

abbrev pub after_chunk : Confirmation → List Key → List Key → Extension → Extension
after_chunk confirmed chunk entries later = sent_before chunk later
after_chunk unseen chunk entries later = stopped chunk (entries ++ chunk)
after_chunk rejected chunk entries later = stopped chunk entries

-- `missing.slice(i, i + 20)`, from the keys that are left.
unfoldable pub extend_from : ℕ → (ℕ → Confirmation) → ℕ → (missing entries : List Key) → Extension
extend_from fuel answer round [] entries = record { complete = true; entries = entries; sent = [] }
extend_from zero answer round (k ∷ ks) entries = record {
  complete = false;
  entries = entries;
  sent = [];
}
extend_from (suc fuel) answer round (k ∷ ks) entries =
    after_chunk (answer round) (take 20 (k ∷ ks)) entries
      (extend_from fuel answer (suc round) (drop 20 (k ∷ ks)) (entries ++ take 20 (k ∷ ks)))

-- What the task changes: the address in OApp.json, and the tables on chain.
pub record State : Type 0 where
  pub saved : Option Key
  pub tables : Key → Option (List Key)

abbrev pub set_table : Key → List Key → (Key → Option (List Key)) → Key → Option (List Key)
set_table t entries tables k = if eqb k t then some entries else tables k

module _ (wanted : List Key) (answer : ℕ → Confirmation) (file_there : Bool) where
  abbrev pub finish : Key → Extension → State → Bool → Result TableError (Unit {0}) × State
  finish t e s true =
      if file_there
      then (ok tt, record { saved = some t; tables = set_table t e.entries s.tables })
      else (err no_file, record { saved = s.saved; tables = set_table t e.entries s.tables })
  finish t e s false =
      (err not_confirmed, record { saved = s.saved; tables = set_table t e.entries s.tables })

  unfoldable pub extension : List Key → Extension
  extension existing =
      let missing = missing_of existing wanted in
      extend_from (length missing) answer 0 missing existing

  unfoldable pub extend_table : Key → List Key → State → Result TableError (Unit {0}) × State
  extend_table t existing s = let e = extension existing in finish t e s e.complete

  abbrev pub with_existing : Key → State → Option (List Key) → Result TableError (Unit {0}) × State
  with_existing t s none = (err not_found, s)
  with_existing t s (some existing) = extend_table t existing s

  -- `createLookupTable`, which gives an empty table.
  abbrev pub with_created : Key → State → Confirmation → Result TableError (Unit {0}) × State
  with_created t s rejected = (err not_confirmed, s)
  with_created t s unseen =
      (err not_confirmed, record { saved = s.saved; tables = set_table t [] s.tables })
  with_created t s confirmed =
      extend_table t [] (record { saved = s.saved; tables = set_table t [] s.tables })

  abbrev pub with_saved :
      Key → Confirmation → State → Option Key → Result TableError (Unit {0}) × State
  with_saved new_table created s none = with_created new_table s created
  with_saved new_table created s (some t) = with_existing t s (s.tables t)

  -- `new_table` is the address that a table created now has.
  unfoldable pub create_lookup_table :
      Key → Confirmation → State → Result TableError (Unit {0}) × State
  create_lookup_table new_table created s = with_saved new_table created s s.saved
