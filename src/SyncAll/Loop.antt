-- ===== src/SyncAll/Loop.antt =====
-- What a run of the loop does, whatever the node answers.
use lendmirror.Common.{ℕ, ◌≡◌, Bool, true, false, ◌⊎◌, Option, none, some, List, [], ◌∷◌}
use lendmirror.Common.Outcome.{ok, err}
use lendmirror.Pda.{Key, FindPda}
use lendmirror.Client.{RefreshInput, refresh_wrapper}
use lendmirror.SyncAll.{
  StoredSnapshot, WrapperAccount, Outcome, no_snapshot, unchanged, failed, sent, Node, changed,
  refresh,
}
use lendmirror.SyncAll.Changed.{IsSame}

abbrev pub snapshot_in : Option WrapperAccount → Option StoredSnapshot
snapshot_in none = none
snapshot_in (some w) = w.snapshot

module _ (find_pda : FindPda) (program_id authority vaults_program : Key) (node : Node)
    (skip_refresh force : Bool) where
  -- Only a refresh lies between the two states: none if it is skipped, otherwise the transaction that
  -- `refreshWrapper` builds on the first state, which was confirmed.
  pub record IsRefreshed (w : WrapperAccount) (s s' : node.Chain) : Type 0 where
    pub skipped : skip_refresh ≡ true → s ≡ s'
    pub submitted :
        skip_refresh ≡ false
        → (input : RefreshInput) × (refresh_wrapper find_pda program_id
              (node.get_account s)
              authority
              w.vault_id
              w.nft_id
              vaults_program
            ≡ ok input)
          × (node.submit_refresh s input ≡ (true, s'))

  -- Behind the refresh, a reading failed, or the send was not confirmed.
  abbrev pub Fails : WrapperAccount → (between s' : node.Chain) → Type 0
  Fails w between s' =
      ((e : node.Failure) × (node.get_wrapper between w.vault_id w.nft_id ≡ err e))
      ⊎ (((e : node.Failure) × (node.quote_payload between w.vault_id w.nft_id ≡ err e))
          ⊎ ((fee : ℕ) × (node.quote_payload between w.vault_id w.nft_id ≡ ok fee)
              × (node.submit_send between w.vault_id w.nft_id fee ≡ (false, s'))))

  -- What each outcome says of the chain before and after.
  abbrev pub IsHandled : WrapperAccount → node.Chain → Outcome → node.Chain → Type 0
  IsHandled w s failed s' =
      (refresh find_pda program_id authority vaults_program node skip_refresh force w s
        ≡ (false, s'))
      ⊎ ((between : node.Chain) × IsRefreshed w s between × Fails w between s')
  IsHandled w s no_snapshot s' =
      IsRefreshed w s s'
      × ((o : Option WrapperAccount) × (node.get_wrapper s' w.vault_id w.nft_id ≡ ok o)
          × (snapshot_in o ≡ none))
  IsHandled w s unchanged s' =
      IsRefreshed w s s'
      × (force ≡ false)
      × ((after : WrapperAccount) × (node.get_wrapper s' w.vault_id w.nft_id ≡ ok (some after))
          × IsSame w after)
  IsHandled w s (sent fee) s' =
      (between : node.Chain) × IsRefreshed w s between
      × ((after : WrapperAccount) × (node.get_wrapper between w.vault_id w.nft_id ≡ ok (some after))
          × ((snap : StoredSnapshot) × (after.snapshot ≡ some snap))
          × ((force ≡ true) ⊎ (changed w after ≡ true)))
      × (node.quote_payload between w.vault_id w.nft_id ≡ ok fee)
      × (node.submit_send between w.vault_id w.nft_id fee ≡ (true, s'))

  -- Every wrapper in order, each on the chain that the one before has left, also if that one failed.
  abbrev pub IsRun : List WrapperAccount → node.Chain → List Outcome → node.Chain → Type 0
  IsRun [] s os s' = (os ≡ []) × (s ≡ s')
  IsRun (w ∷ ws) s [] s' = ⊥
  IsRun (w ∷ ws) s (o ∷ os) s'' = (s' : node.Chain) × IsHandled w s o s' × IsRun ws s' os s''

  module _ (w : WrapperAccount) (s : node.Chain) where
    abbrev Handled : Outcome × node.Chain → Type 0
    Handled r = IsHandled w s r.0 r.1
