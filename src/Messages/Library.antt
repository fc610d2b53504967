-- ===== src/Messages/Library.antt =====
-- Which libraries a message goes through.
use lendmirror.Common.{◌≡◌, ◌⊎◌, inl, inr, refl, some, ℕ}
use lendmirror.Common.Outcome.{ok}
use lendmirror.Bytes.{Bytes}
use lendmirror.Pda.{Key, FindPda}
use lendmirror.Pda.Lendmirror.{oapp}
use lendmirror.Instructions.Message.{Serializers}
use lendmirror.Messages.{
  MessageLib, MessageLibVersion, simple_message_lib, uln, Network, lib_of_version,
  get_send_library_program,
}

-- LayerZero's version 2 of the endpoint, with the simple library or with ULN 3.0.
abbrev pub IsSupported : Key → MessageLibVersion → MessageLib → Type 0
IsSupported key v lib =
    (v.minor ≡ 0)
    × (v.endpoint_version ≡ 2)
    × (((v.major ≡ 0) × (lib ≡ simple_message_lib key)) ⊎ ((v.major ≡ 3) × (lib ≡ uln key)))

pub lib_of_version_lem :
    {F : Type 0} (key : Key) (v : MessageLibVersion) (lib : MessageLib)
    → IsSupported key v lib
    → lib_of_version {F = F} key v ≡ ok lib
unfolding lib_of_version
lib_of_version_lem key v lib (m, e, inl (z, same)) = rw (m, e, z, same) refl
lib_of_version_lem key v lib (m, e, inr (t, same)) = rw (m, e, t, same) refl

module _ (find_pda : FindPda) (program_id : Key) (net : Network) where
  -- The node knows a library for the path, of a version that is supported.
  pub record HasLibrary (payer : Key) (dst_eid : ℕ) (lib : MessageLib) : Type 0 where
    pub key : Key
    pub version : MessageLibVersion
    pub set : net.get_send_library (oapp find_pda program_id) dst_eid ≡ ok (some key)
    pub version_is : net.get_message_lib_version payer key ≡ ok version
    pub supported : IsSupported key version lib

  pub get_send_library_program-HasLibrary :
      (u32_be : ℕ → Bytes) (ser : Serializers) (payer : Key) (dst_eid : ℕ) (lib : MessageLib)
      → HasLibrary payer dst_eid lib
      → get_send_library_program find_pda u32_be program_id net ser payer dst_eid ≡ ok lib
  unfolding get_send_library_program
  get_send_library_program-HasLibrary u32_be ser payer dst_eid lib h =
      rw (h.set, h.version_is, lib_of_version_lem h.key h.version lib h.supported) refl
