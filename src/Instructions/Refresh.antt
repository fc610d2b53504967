-- ===== src/Instructions/Refresh.antt =====
-- lib/client/generated/lendmirror/instructions/refreshWrapper.ts: the accounts of a refresh.
use lendmirror.Common.{List, [], ◌∷◌, ◌++◌}
use lendmirror.Bytes.{Bytes}
use lendmirror.Pda.{Key}
use lendmirror.Ix.{Instruction}
use lendmirror.Client.{RefreshInput}
use lendmirror.Instructions.{
  ResolvedAccount, read_only, read_write, address, signer, optional, account_metas,
}

abbrev pub refresh_discriminator : Bytes
refresh_discriminator = 109 ∷ 244 ∷ 38 ∷ 218 ∷ 93 ∷ 104 ∷ 111 ∷ 116 ∷ []

unfoldable pub refresh_slots : RefreshInput → List ResolvedAccount
refresh_slots i =
    read_only (signer i.authority)
    ∷ read_only (address i.store)
    ∷ read_write (address i.wrapper)
    ∷ read_only (optional i.ondemand)
    ∷ read_only (address i.vaults_program)
    ∷ read_only (address i.position)
    ∷ read_only (address i.vault_state)
    ∷ read_only (address i.vault_config)
    ∷ read_only (address i.tick)
    ∷ read_only (optional i.tick_id_liquidation)
    ∷ []

-- `refreshWrapper`, and `addRemainingAccounts`.
unfoldable pub refresh_instruction : Key → RefreshInput → Instruction
refresh_instruction program i = record {
  program_id = program;
  keys = account_metas program (refresh_slots i) ++ i.remaining;
  data' = refresh_discriminator;
}
