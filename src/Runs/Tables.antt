-- ===== src/Runs/Tables.antt =====
-- The lookup table.
use lendmirror.Common.{
  ℕ, ◌≡◌, refl, true, Option, none, some, List, [], ◌∷◌, ◌++◌, All, if◌then◌else◌,
}
use lendmirror.Common.Keys.{eqb, contains, Distinct}
use lendmirror.Common.Outcome.{Result, ok, err}
use lendmirror.Bytes.{Bytes, zeros}
use lendmirror.Pda.{Key}
use lendmirror.LookupTable.{
  Confirmation, confirmed, unseen, State, create_lookup_table, extension, missing_of,
}
use lendmirror.LookupTable.Extend.{IsChunk, joined}
use lendmirror.LookupTable.Covered.{
  IsTable, from_saved, create_lookup_table-IsTable, extension-chunks, create_lookup_table_again,
}
use lendmirror.Ccip.{CcipError, ccip_route_discriminator}
use lendmirror.LookupTable.Wanted.{wanted_keys}
use lendmirror.Config.Mainnet
use lendmirror.Runs.{key_of, toy_find_pda}

abbrev short_key : ℕ → Key
short_key n = n ∷ []

abbrev wanted : List Key
wanted = short_key 1 ∷ short_key 2 ∷ short_key 3 ∷ []

abbrev existing : List Key
existing = short_key 2 ∷ []

abbrev lost : ℕ → Confirmation
lost n = unseen

abbrev well : ℕ → Confirmation
well n = confirmed

abbrev start : State
start = record {
  saved = some (short_key 9);
  tables = λ k. if eqb k (short_key 9) then some existing else none;
}

existing-Distinct : Distinct existing
unfolding contains
existing-Distinct = (refl, tt)

wanted-Distinct : Distinct wanted
unfolding contains eqb
wanted-Distinct = (refl, (refl, (refl, tt)))

start_table : start.tables (short_key 9) ≡ some existing
unfolding eqb
start_table = refl

create_lookup_table-IsTable_example :
    IsTable wanted existing
      (short_key 9)
      start
      (create_lookup_table wanted lost true (short_key 8) confirmed start)
create_lookup_table-IsTable_example =
    create_lookup_table-IsTable wanted lost true (short_key 8) (short_key 9) confirmed start
      existing (from_saved refl start_table) existing-Distinct wanted-Distinct

create_lookup_table_again_example :
    let (first_result, s') = create_lookup_table wanted lost true (short_key 8) confirmed start in
    let (second_result, s'') = create_lookup_table wanted well true (short_key 8) confirmed s' in
    (second_result ≡ ok tt)
    × ((added : List Key) × (s''.tables (short_key 9) ≡ some (existing ++ added))
        × Distinct (existing ++ added)
        × ((k : Key) → contains k wanted ≡ true → contains k (existing ++ added) ≡ true))
create_lookup_table_again_example =
    create_lookup_table_again wanted lost well (short_key 8) (short_key 9) confirmed true start
      existing refl start_table existing-Distinct wanted-Distinct (λ i. refl)

extension-chunks_example :
    All IsChunk (extension wanted well true existing).sent
    × ((extension wanted well true existing).complete ≡ true
        → joined (extension wanted well true existing).sent ≡ missing_of existing wanted)
extension-chunks_example = extension-chunks wanted well true existing

-- A route over Chainlink is on chain.
abbrev with_route : Key → Option Bytes
with_route k = some (ccip_route_discriminator ++ zeros 170)

abbrev answer_of : Result CcipError (List Key)
answer_of =
    wanted_keys toy_find_pda (λ n. n ∷ []) (key_of 5) (key_of 1) (key_of 2) with_route 30101
      Mainnet.profile.cctp

abbrev keys_of : Result CcipError (List Key) → List Key
keys_of (ok ks) = ks
keys_of (err e) = []
