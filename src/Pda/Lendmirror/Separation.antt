-- ===== src/Pda/Lendmirror/Separation.antt =====
-- No two of the program's addresses come from the same bytes.
use lendmirror.Common.{
  ℕ, ◌+◌, ◌^◌, ◌<◌, ◌≡◌, refl, ap, sym, ◌∙◌, List, [], ◌∷◌, ◌++◌, length, get_or,
}
use lendmirror.Common.{arith, if◌then◌else◌, ◌==◌, length-append, append-injective}
use lendmirror.Bytes.{Bytes, le_bytes, length-le_bytes}
use lendmirror.Bytes.Layout.{le_bytes_injective}
use lendmirror.Pda.{Key, seed_bytes}
use lendmirror.Pda.Pieces.{same_prefix, pair_eq, key_first}
use lendmirror.Jupiter.Ticks.{u16_le, u32_le}
use lendmirror.Pda.Lendmirror.{
  store_seed, peer_seed, jup_position_seed, ccip_route_seed, ccip_payer_seed, wrapper_seed,
  ondemand_seed, wrapper_auth_seed, bridge_route_seed, lz_receive_types_seed, nonce_seed,
  peer_seeds, nonce_seeds, lz_receive_types_seeds, jup_position_seeds, wrapper_seeds,
  ondemand_seeds, wrapper_authority_seeds, bridge_route_seeds,
}

-- The accounts of one LendMirror program.
pub data Account : Type 0 where
  store ccip_route ccip_payer : Account
  peer : Key → ℕ → Account
  nonce : Key → ℕ → Bytes → Account
  lz_receive_types ondemand wrapper_authority : Key → Account
  jup_position wrapper : ℕ → ℕ → Account
  bridge_route : Key → ℕ → Account

-- What the code relies on of the 32-bit serializer: four bytes, and no two ids alike.
pub record IsSerializer (u32_be : ℕ → Bytes) : Type 0 where
  pub four : (n : ℕ) → n < 2 ^ 32 → length (u32_be n) ≡ 4
  pub injective : (n m : ℕ) → n < 2 ^ 32 → m < 2 ^ 32 → u32_be n ≡ u32_be m → n ≡ m

module _ (u32_be : ℕ → Bytes) where
  pub seeds : Account → List Bytes
  unfolding peer_seeds nonce_seeds lz_receive_types_seeds ondemand_seeds wrapper_authority_seeds
      jup_position_seeds wrapper_seeds bridge_route_seeds
  seeds store = store_seed ∷ []
  seeds ccip_route = ccip_route_seed ∷ []
  seeds ccip_payer = ccip_payer_seed ∷ []
  seeds (peer k e) = peer_seeds u32_be k e
  seeds (nonce k e s) = nonce_seeds u32_be k e s
  seeds (lz_receive_types k) = lz_receive_types_seeds k
  seeds (ondemand k) = ondemand_seeds k
  seeds (wrapper_authority k) = wrapper_authority_seeds k
  seeds (jup_position v n) = jup_position_seeds v n
  seeds (wrapper v n) = wrapper_seeds v n
  seeds (bridge_route k c) = bridge_route_seeds k (le_bytes 8 c)

-- Keys are 32 bytes long, and ids are in the range of their fields.
abbrev pub InRange : Account → Type 0
InRange (peer k e) = (length k ≡ 32) × (e < 2 ^ 32)
InRange (nonce k e s) = (length k ≡ 32) × (e < 2 ^ 32) × (length s ≡ 32)
InRange (lz_receive_types k) = length k ≡ 32
InRange (ondemand k) = length k ≡ 32
InRange (wrapper_authority k) = length k ≡ 32
InRange (jup_position v n) = (v < 2 ^ 16) × (n < 2 ^ 32)
InRange (wrapper v n) = (v < 2 ^ 16) × (n < 2 ^ 32)
InRange (bridge_route k c) = (length k ≡ 32) × (c < 2 ^ 64)
InRange _ = Unit {0}

-- Most kinds have a length of their own; two pairs differ in one byte of the name.
abbrev classify : ℕ → ℕ → ℕ → ℕ
classify n tenth fourteenth =
    if n == 52 then 1000 + tenth else if n == 21 then 2000 + fourteenth else n

abbrev kind_of_bytes : Bytes → ℕ
kind_of_bytes bs = classify (length bs) (get_or bs 10 0) (get_or bs 14 0)

abbrev kind : Account → ℕ
kind store = 17
kind ccip_route = 2082
kind ccip_payer = 2080
kind (peer k e) = 1080
kind (nonce k e s) = 73
kind (lz_receive_types k) = 46
kind (ondemand k) = 1079
kind (wrapper_authority k) = 55
kind (jup_position v n) = 29
kind (wrapper v n) = 33
kind (bridge_route k c) = 63

-- The length of a name with two keys or serialized ids behind it.
length_two : (a b : Bytes) (n m : ℕ) → length a ≡ n → length b ≡ m → length (a ++ (b ++ [])) ≡ n + m
length_two a b n m p q = omega (arith, length-append a (b ++ []), length-append b [])

length_one : (a : Bytes) (n : ℕ) → length a ≡ n → length (a ++ []) ≡ n
length_one a n p = omega (arith, length-append a [])

length_three :
    (a b c : Bytes) (n m o : ℕ)
    → length a ≡ n
    → length b ≡ m
    → length c ≡ o
    → length (a ++ (b ++ (c ++ []))) ≡ n + m + o
length_three a b c n m o p q r =
    omega (arith, length-append a (b ++ (c ++ [])), length_two b c m o q r)

module _ (u32_be : ℕ → Bytes) (h : IsSerializer u32_be) where
  kind-seeds : (a : Account) → InRange a → kind_of_bytes (seed_bytes (seeds u32_be a)) ≡ kind a
  unfolding seeds u16_le u32_le le_bytes
  kind-seeds store r = refl
  kind-seeds ccip_route r = refl
  kind-seeds ccip_payer r = refl
  kind-seeds (peer k e) r = ground (arith, length_two k (u32_be e) 32 4 r.0 (h.four e r.1))
  kind-seeds (nonce k e s) r =
      ground (arith, length_three k (u32_be e) s 32 4 32 r.0 (h.four e r.1) r.2)
  kind-seeds (lz_receive_types k) r = ground (arith, length_one k 32 r)
  kind-seeds (ondemand k) r = ground (arith, length_one k 32 r)
  kind-seeds (wrapper_authority k) r = ground (arith, length_one k 32 r)
  kind-seeds (jup_position v n) r = refl
  kind-seeds (wrapper v n) r = refl
  kind-seeds (bridge_route k c) r =
      ground (arith, length_two k (le_bytes 8 c) 32 8 r.0 (length-le_bytes 8 c))

  key_eq :
      (name k l : Bytes)
      → length k ≡ 32
      → length l ≡ 32
      → seed_bytes (name ∷ k ∷ []) ≡ seed_bytes (name ∷ l ∷ [])
      → k ≡ l
  key_eq name k l p q e = (key_first k l p q (same_prefix name e)).0

  eid_first :
      (e f : ℕ) {us vs : Bytes}
      → e < 2 ^ 32
      → f < 2 ^ 32
      → u32_be e ++ us ≡ u32_be f ++ vs
      → (e ≡ f) × (us ≡ vs)
  eid_first e f {us} {vs} p q x =
      let (here, later) =
        append-injective (u32_be e) (u32_be f) {us = us} {vs = vs} (h.four e p ∙ sym (h.four f q))
          x in
      (h.injective e f p q here, later)

  chain_first :
      (c d : ℕ) → c < 2 ^ 64 → d < 2 ^ 64 → le_bytes 8 c ++ [] ≡ le_bytes 8 d ++ [] → c ≡ d
  chain_first c d p q x =
      le_bytes_injective 8 c d p q
        (append-injective (le_bytes 8 c) (le_bytes 8 d) {us = []} {vs = []}
          (length-le_bytes 8 c ∙ sym (length-le_bytes 8 d)) x).0

  same_of_kind :
      (a b : Account)
      → kind a ≡ kind b
      → InRange a
      → InRange b
      → seed_bytes (seeds u32_be a) ≡ seed_bytes (seeds u32_be b)
      → a ≡ b
  unfolding seeds
  same_of_kind store store n p q e = refl
  same_of_kind ccip_route ccip_route n p q e = refl
  same_of_kind ccip_payer ccip_payer n p q e = refl
  same_of_kind (peer k x) (peer l y) n p q e =
      let (keys, rest) = key_first k l p.0 q.0 (same_prefix peer_seed e) in
      cc (keys, (eid_first x y p.1 q.1 rest).0)
  same_of_kind (nonce k x s) (nonce l y t) n p q e =
      let (keys, rest) = key_first k l p.0 q.0 (same_prefix nonce_seed e) in
      let (eids, senders) = eid_first x y p.1 q.1 rest in
      cc (keys, eids, (key_first s t p.2 q.2 senders).0)
  same_of_kind (lz_receive_types k) (lz_receive_types l) n p q e =
      ap lz_receive_types (key_eq lz_receive_types_seed k l p q e)
  same_of_kind (ondemand k) (ondemand l) n p q e = ap ondemand (key_eq ondemand_seed k l p q e)
  same_of_kind (wrapper_authority k) (wrapper_authority l) n p q e =
      ap wrapper_authority (key_eq wrapper_auth_seed k l p q e)
  same_of_kind (jup_position v i) (jup_position w j) n p q e =
      let (vaults, nfts) = pair_eq jup_position_seed v w i j p q e in cc (vaults, nfts)
  same_of_kind (wrapper v i) (wrapper w j) n p q e =
      let (vaults, nfts) = pair_eq wrapper_seed v w i j p q e in cc (vaults, nfts)
  same_of_kind (bridge_route k c) (bridge_route l d) n p q e =
      let (keys, rest) = key_first k l p.0 q.0 (same_prefix bridge_route_seed e) in
      cc (keys, chain_first c d p.1 q.1 rest)
  same_of_kind _ _ n p q e = absurd (omega arith)

  -- Two of the program's accounts have the same seeds, read one after the other, only if they are
  -- the same account: keys have 32 bytes, ids are in the range of their fields, and the serializer
  -- of endpoint ids writes four bytes and tells the ids apart.
  pub account_seeds_separate :
      (a b : Account)
      → InRange a
      → InRange b
      → seed_bytes (seeds u32_be a) ≡ seed_bytes (seeds u32_be b)
      → a ≡ b
  account_seeds_separate a b p q e =
      same_of_kind a b (sym (kind-seeds a p) ∙ ap kind_of_bytes e ∙ kind-seeds b q) p q e
