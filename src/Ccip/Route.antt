-- ===== src/Ccip/Route.antt =====
-- The route that the instruction sets is the route that the client reads back.
use lendmirror.Common.{
  ℕ, ◌^◌, ◌<◌, ◌≡◌, refl, sym, [], ◌∷◌, ◌++◌, length, take, drop, ltb, arith, length-append, false,
  true, take-append, drop-append, ◌==◌, if◌then◌else◌,
}
use lendmirror.Common.Keys.{eqb}
use mathlib.Core.List.{append_assoc, append-nil}
use mathlib.Core.Path.{subst}
use lendmirror.Common.Outcome.{ok}
use lendmirror.Common.Text.{codes}
use lendmirror.Bytes.{
  Bytes, read_le, checked_le, le_bytes, length-le_bytes, slice, le_value, le_value-le_bytes,
}
use lendmirror.Bytes.Layout.{skip, slice_at, read_le_at}
use lendmirror.Pda.{FindPda}
use lendmirror.Ix.{Instruction, signer_meta, writable, readonly}
use lendmirror.Known.{system_program}
use lendmirror.Pda.Lendmirror.{ccip_route_address}
use lendmirror.Hex.{to_hex}
use lendmirror.Ccip.{
  CcipRouteAccount, u64le, read_pubkey, decode_ccip_route, SetCcipRouteArgs,
  set_ccip_route_instruction, ccip_route_discriminator, set_ccip_route_discriminator,
}

-- Arguments whose fields fit the account.
pub record IsRoute (a : SetCcipRouteArgs) : Type 0 where
  pub router : length a.router ≡ 32
  pub fee_quoter : length a.fee_quoter ≡ 32
  pub rmn_remote : length a.rmn_remote ≡ 32
  pub link_mint : length a.link_mint ≡ 32
  pub receiver : length a.receiver ≡ 20
  pub dest_chain_selector : a.dest_chain_selector < 2 ^ 64
  pub gas_limit : a.gas_limit < 2 ^ 64

-- `apply` of programs/lendmirror/src/instructions/set_ccip_route.rs: a limit of 0 stands for 400,000.
unfoldable pub stored_gas_limit : ℕ → ℕ
stored_gas_limit n = if n == 0 then 400000 else n

-- The account as the program keeps it: its tag, the instruction's arguments in their order with the
-- gas limit that is stored for the one given, and the bump.
unfoldable pub stored_route : Bytes → ℕ → Bytes
unfolding stored_gas_limit
stored_route payload bump =
    ccip_route_discriminator
    ++ (take 156 (drop 8 payload)
        ++ (le_bytes 8 (stored_gas_limit (le_value (drop 164 payload))) ++ (bump ∷ [])))

abbrev pub route_of : SetCcipRouteArgs → CcipRouteAccount
route_of a = record {
  router = a.router;
  fee_quoter = a.fee_quoter;
  rmn_remote = a.rmn_remote;
  link_mint = a.link_mint;
  dest_chain_selector = a.dest_chain_selector;
  receiver = codes "0x" ++ to_hex a.receiver;
  gas_limit = if a.gas_limit == 0 then 400000 else a.gas_limit;
}

u64le_lem : (n : ℕ) → n < 2 ^ 64 → u64le n ≡ ok (le_bytes 8 n)
unfolding u64le checked_le
u64le_lem n h = let fits : ltb n (2 ^ 64) ≡ true = ground arith in rw fits refl

abbrev fields : SetCcipRouteArgs → Bytes
fields a =
    a.router
    ++ (a.fee_quoter
        ++ (a.rmn_remote
            ++ (a.link_mint
                ++ (le_bytes 8 a.dest_chain_selector ++ (a.receiver ++ le_bytes 8 a.gas_limit)))))

regroup :
    (a b c d e f g : Bytes)
    → (a ++ (b ++ (c ++ (d ++ (e ++ f))))) ++ g ≡ a ++ (b ++ (c ++ (d ++ (e ++ (f ++ g)))))
regroup a b c d e f g = simp append_assoc refl

read_word : (n : ℕ) → n < 2 ^ 64 → read_le 8 0 (le_bytes 8 n) ≡ ok n
read_word n h = read_le_at 8 0 n (le_bytes 8 n) [] (sym (append-nil (le_bytes 8 n))) (omega arith) h

stored_gas_limit-fits : (n : ℕ) → n < 2 ^ 64 → stored_gas_limit n < 2 ^ 64
unfolding stored_gas_limit
stored_gas_limit-fits n h = ground arith

module _ (a : SetCcipRouteArgs) (r : IsRoute a) (account : Bytes) where
  decode_fields :
      (rest : Bytes)
      → drop 8 account
        ≡ a.router
          ++ (a.fee_quoter
              ++ (a.rmn_remote
                  ++ (a.link_mint
                      ++ (le_bytes 8 a.dest_chain_selector
                          ++ (a.receiver ++ (le_bytes 8 (stored_gas_limit a.gas_limit) ++ rest))))))
      → length account ≡ 173
      → eqb (slice 0 8 account) ccip_route_discriminator ≡ true
      → decode_ccip_route account ≡ ok (route_of a)
  unfolding decode_ccip_route read_pubkey stored_gas_limit
  decode_fields rest e0 n tag =
      let e1 = skip 8 32 account _ _ e0 r.router in
      let e2 = skip 40 32 account _ _ e1 r.fee_quoter in
      let e3 = skip 72 32 account _ _ e2 r.rmn_remote in
      let e4 = skip 104 32 account _ _ e3 r.link_mint in
      let e5 = skip 136 8 account _ _ e4 (length-le_bytes 8 a.dest_chain_selector) in
      let e6 = skip 144 20 account _ _ e5 r.receiver in
      let long : ltb (length account) 173 ≡ false = ground arith in
      rw
        (
          long,
          tag,
          slice_at 136 8 account _ _ e4 (length-le_bytes 8 a.dest_chain_selector),
          read_word a.dest_chain_selector r.dest_chain_selector,
          slice_at 164 8 account _ _ e6 (length-le_bytes 8 (stored_gas_limit a.gas_limit)),
          read_word (stored_gas_limit a.gas_limit) (stored_gas_limit-fits a.gas_limit r.gas_limit),
          slice_at 8 32 account _ _ e0 r.router,
          slice_at 40 32 account _ _ e1 r.fee_quoter,
          slice_at 72 32 account _ _ e2 r.rmn_remote,
          slice_at 104 32 account _ _ e3 r.link_mint,
          slice_at 144 20 account _ _ e5 r.receiver,
        )
        refl

abbrev route_ix : FindPda → SetCcipRouteArgs → Instruction
route_ix find_pda a = record {
  program_id = a.program_id;
  keys =
      signer_meta a.admin
      ∷ writable (ccip_route_address find_pda a.program_id)
      ∷ readonly a.store
      ∷ readonly system_program
      ∷ [];
  data' = set_ccip_route_discriminator ++ fields a;
}

abbrev front : SetCcipRouteArgs → Bytes
front a =
    a.router
    ++ (a.fee_quoter
        ++ (a.rmn_remote ++ (a.link_mint ++ (le_bytes 8 a.dest_chain_selector ++ a.receiver))))

module _ (a : SetCcipRouteArgs) (r : IsRoute a) where
  length-front : length (front a) ≡ 156
  length-front =
      simp
        (
          length-append, length-le_bytes, r.router, r.fee_quoter, r.rmn_remote, r.link_mint,
          r.receiver,
        )
        refl

  fields_lem : fields a ≡ front a ++ le_bytes 8 a.gas_limit
  fields_lem = simp append_assoc refl

  take-fields : take 156 (fields a) ≡ front a
  take-fields = rw fields_lem (
      subst (λ n. take n (front a ++ le_bytes 8 a.gas_limit) ≡ front a) length-front
        (take-append (front a) (le_bytes 8 a.gas_limit)))

  drop-fields : drop 156 (fields a) ≡ le_bytes 8 a.gas_limit
  drop-fields = rw fields_lem (
      subst (λ n. drop n (front a ++ le_bytes 8 a.gas_limit) ≡ le_bytes 8 a.gas_limit) length-front
        (drop-append (front a) (le_bytes 8 a.gas_limit)))

  -- The account, behind its tag.
  abbrev kept : ℕ → Bytes
  kept bump = front a ++ (le_bytes 8 (stored_gas_limit a.gas_limit) ++ (bump ∷ []))

  stored_route_lem :
      (bump : ℕ)
      → stored_route (set_ccip_route_discriminator ++ fields a) bump
        ≡ ccip_route_discriminator ++ kept bump
  unfolding stored_route
  stored_route_lem bump =
      rw (take-fields, drop-fields, le_value-le_bytes 8 a.gas_limit r.gas_limit) refl

  length-kept : (bump : ℕ) → length (ccip_route_discriminator ++ kept bump) ≡ 173
  length-kept bump =
      simp
        (
          length-append, length-le_bytes, r.router, r.fee_quoter, r.rmn_remote, r.link_mint,
          r.receiver,
        )
        refl

  decode_stored :
      (bump : ℕ)
      → decode_ccip_route (stored_route (set_ccip_route_discriminator ++ fields a) bump)
        ≡ ok (route_of a)
  unfolding eqb
  decode_stored bump = rw (stored_route_lem bump) (
      decode_fields a r (ccip_route_discriminator ++ kept bump) (bump ∷ [])
        (regroup a.router a.fee_quoter a.rmn_remote a.link_mint (le_bytes 8 a.dest_chain_selector)
          a.receiver (le_bytes 8 (stored_gas_limit a.gas_limit) ++ (bump ∷ [])))
        (length-kept bump) refl)

-- A route of full-length keys, a receiver of 20 bytes and numbers of 64 bits can be set, and the
-- account that the program then keeps is decoded to that same route, with a gas limit of 400,000 where
-- 0 was given.
pub set_ccip_route-decode :
    (find_pda : FindPda) (a : SetCcipRouteArgs) (bump : ℕ)
    → IsRoute a
    → (ix : Instruction) × (set_ccip_route_instruction find_pda a ≡ ok ix)
      × (decode_ccip_route (stored_route ix.data' bump) ≡ ok (route_of a))
unfolding set_ccip_route_instruction
set_ccip_route-decode find_pda a bump r = (
  route_ix find_pda a,
  rw
      (
        r.receiver,
        u64le_lem a.dest_chain_selector r.dest_chain_selector,
        u64le_lem a.gas_limit r.gas_limit,
      )
      refl,
  decode_stored a r bump,
)
