-- ===== src/Snapshot/RoundTrip.antt =====
-- The message read back by the EVM side.
use lendmirror.Common.{◌^◌, ◌≡◌, refl, ◌∙◌, ◌∷◌, ◌++◌, length, drop}
use lendmirror.Common.{arith, get_or, not, ◌==◌, length-append}
use lendmirror.Common.Outcome.{ok}
use lendmirror.Bytes.{Bytes, le_bytes, be_bytes, be_value, of_word, to_word}
use lendmirror.Bytes.{slice, le_value, bit, zeros}
use lendmirror.Bytes.Writes.{pieces}
use lendmirror.Snapshot.{PositionSnapshotFields, snapshot_writes, encode_position_snapshot}
use lendmirror.Snapshot.Layout.{HasKeys, layout, encode_lem, length-pieces}
use lendmirror.Snapshot.Body.{
  be_at, decode_body, InRange, word_at, key_at, flag_at, int_at, time_at,
}

module _ (s : PositionSnapshotFields) (body : Bytes) where
  ids :
      (rest : Bytes)
      → HasKeys s
      → InRange s
      → drop 0 body
        ≡ s.position
          ++ (be_bytes 2 s.vault_id
              ++ (be_bytes 4 s.nft_id
                  ++ (s.position_mint ++ (s.supply_token ++ (s.borrow_token ++ (rest))))))
      → (slice 0 32 body ≡ s.position)
        × (be_at 32 34 body ≡ s.vault_id)
        × (be_at 34 38 body ≡ s.nft_id)
        × (slice 38 70 body ≡ s.position_mint)
        × (slice 70 102 body ≡ s.supply_token)
        × (slice 102 134 body ≡ s.borrow_token)
        × (drop 134 body ≡ rest)
  ids rest h r e =
      let (a0, e0) = key_at 0 s.position body _ e h.position in
      let (a1, e1) = word_at 2 32 s.vault_id body _ e0 r.vault_id in
      let (a2, e2) = word_at 4 34 s.nft_id body _ e1 r.nft_id in
      let (a3, e3) = key_at 38 s.position_mint body _ e2 h.position_mint in
      let (a4, e4) = key_at 70 s.supply_token body _ e3 h.supply_token in
      let (a5, e5) = key_at 102 s.borrow_token body _ e4 h.borrow_token in
      (a0, a1, a2, a3, a4, a5, e5)

  amounts :
      (rest : Bytes)
      → HasKeys s
      → InRange s
      → drop 134 body
        ≡ be_bytes 8 s.col_raw
          ++ (be_bytes 8 s.debt_raw
              ++ (be_bytes 8 s.dust_debt ++ (be_bytes 8 s.net_debt ++ (rest))))
      → (be_at 134 142 body ≡ s.col_raw)
        × (be_at 142 150 body ≡ s.debt_raw)
        × (be_at 150 158 body ≡ s.dust_debt)
        × (be_at 158 166 body ≡ s.net_debt)
        × (drop 166 body ≡ rest)
  amounts rest h r e =
      let (a0, e0) = word_at 8 134 s.col_raw body _ e r.col_raw in
      let (a1, e1) = word_at 8 142 s.debt_raw body _ e0 r.debt_raw in
      let (a2, e2) = word_at 8 150 s.dust_debt body _ e1 r.dust_debt in
      let (a3, e3) = word_at 8 158 s.net_debt body _ e2 r.net_debt in (a0, a1, a2, a3, e3)

  meta :
      (rest : Bytes)
      → HasKeys s
      → InRange s
      → drop 166 body
        ≡ be_bytes 4 (to_word (2 ^ 32) s.tick)
          ++ (be_bytes 4 s.tick_id
              ++ (be_bytes 8 s.stored_col_raw
                  ++ (be_bytes 8 s.stored_debt_raw
                      ++ (be_bytes 4 (to_word (2 ^ 32) s.stored_tick)
                          ++ (bit s.is_supply_only
                              ∷ bit s.is_liquidated
                              ∷ bit s.is_fully_liquidated
                              ∷ rest)))))
      → (of_word (2 ^ 32) (be_at 166 170 body) ≡ s.tick)
        × (be_at 170 174 body ≡ s.tick_id)
        × (be_at 174 182 body ≡ s.stored_col_raw)
        × (be_at 182 190 body ≡ s.stored_debt_raw)
        × (of_word (2 ^ 32) (be_at 190 194 body) ≡ s.stored_tick)
        × (not (get_or body 194 0 == 0) ≡ s.is_supply_only)
        × (not (get_or body 195 0 == 0) ≡ s.is_liquidated)
        × (not (get_or body 196 0 == 0) ≡ s.is_fully_liquidated)
        × (drop 197 body ≡ rest)
  meta rest h r e =
      let (a0, e0) = int_at 166 s.tick body _ e r.tick in
      let (a1, e1) = word_at 4 170 s.tick_id body _ e0 r.tick_id in
      let (a2, e2) = word_at 8 174 s.stored_col_raw body _ e1 r.stored_col_raw in
      let (a3, e3) = word_at 8 182 s.stored_debt_raw body _ e2 r.stored_debt_raw in
      let (a4, e4) = int_at 190 s.stored_tick body _ e3 r.stored_tick in
      let (a5, e5) = flag_at 194 s.is_supply_only body _ e4 in
      let (a6, e6) = flag_at 195 s.is_liquidated body _ e5 in
      let (a7, e7) = flag_at 196 s.is_fully_liquidated body _ e6 in
      (a0, a1, a2, a3, a4, a5, a6, a7, e7)

  prices :
      (rest : Bytes)
      → HasKeys s
      → InRange s
      → drop 197 body
        ≡ be_bytes 4 s.branch_id
          ++ (be_bytes 8 s.vault_supply_exchange_price
              ++ (be_bytes 8 s.vault_borrow_exchange_price
                  ++ (be_bytes 8 (to_word (2 ^ 64) s.snapshot_time) ++ (rest))))
      → (be_at 197 201 body ≡ s.branch_id)
        × (be_at 201 209 body ≡ s.vault_supply_exchange_price)
        × (be_at 209 217 body ≡ s.vault_borrow_exchange_price)
        × (of_word (2 ^ 64) (be_at 217 225 body) ≡ s.snapshot_time)
        × (drop 225 body ≡ rest)
  prices rest h r e =
      let (a0, e0) = word_at 4 197 s.branch_id body _ e r.branch_id in
      let (a1, e1) =
        word_at 8 201 s.vault_supply_exchange_price body _ e0 r.vault_supply_exchange_price in
      let (a2, e2) =
        word_at 8 209 s.vault_borrow_exchange_price body _ e1 r.vault_borrow_exchange_price in
      let (a3, e3) = time_at 217 s.snapshot_time body _ e2 r.snapshot_time in (a0, a1, a2, a3, e3)

  decode_body_of :
      HasKeys s
      → InRange s
      → drop 0 body ≡ drop 4 (pieces (snapshot_writes s))
      → decode_body body ≡ s
  unfolding decode_body snapshot_writes be_bytes le_bytes
  decode_body_of h r e =
      let (p0, p1, p2, p3, p4, p5, e1) = ids _ h r e in
      let (p6, p7, p8, p9, e2) = amounts _ h r e1 in
      let (p10, p11, p12, p13, p14, p15, p16, p17, e3) = meta _ h r e2 in
      let (p18, p19, p20, p21, e4) = prices _ h r e3 in
      λ i. record {
        position = p0 i;
        vault_id = p1 i;
        nft_id = p2 i;
        position_mint = p3 i;
        supply_token = p4 i;
        borrow_token = p5 i;
        col_raw = p6 i;
        debt_raw = p7 i;
        dust_debt = p8 i;
        net_debt = p9 i;
        tick = p10 i;
        tick_id = p11 i;
        stored_col_raw = p12 i;
        stored_debt_raw = p13 i;
        stored_tick = p14 i;
        is_supply_only = p15 i;
        is_liquidated = p16 i;
        is_fully_liquidated = p17 i;
        branch_id = p18 i;
        vault_supply_exchange_price = p19 i;
        vault_borrow_exchange_price = p20 i;
        snapshot_time = p21 i;
      }

length-layout : (s : PositionSnapshotFields) → HasKeys s → length (layout s) ≡ 257
unfolding layout
length-layout s h =
    length-append (zeros 28) (pieces (snapshot_writes s)) ∙ omega (arith, length-pieces s h)

-- A snapshot with keys of 32 bytes and numbers in range is encoded as 257 bytes: a header of 32
-- bytes that holds the number 225, and a body from which the EVM side reads the same snapshot.
pub decode-encode :
    (s : PositionSnapshotFields)
    → HasKeys s
    → InRange s
    → (message : Bytes) × (encode_position_snapshot s ≡ ok message)
      × (length message ≡ 257)
      × (be_at 0 32 message ≡ 225)
      × (decode_body (drop 32 message) ≡ s)
unfolding be_at be_value layout snapshot_writes be_bytes le_bytes le_value
decode-encode s h r = (
  layout s,
  encode_lem s h,
  length-layout s h,
  refl,
  decode_body_of s (drop 32 (layout s)) h r refl,
)
