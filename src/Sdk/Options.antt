-- ===== src/Sdk/Options.antt =====
-- What the reduction of enforced options keeps.
use lendmirror.Common.{
  ℕ, ◌≡◌, refl, sym, ap, ◌∙◌, Bool, true, false, ◌&&◌, Option, none, some, List, [], ◌∷◌, ◌==◌,
  if◌then◌else◌, Bool-cases, Option-cases, inl, inr, arith,
}
use lendmirror.Common.Dict.{lookup, put, lookup-put}
use lendmirror.Common.Outcome.{ok, Result-cases, ok-injective}
use lendmirror.Bytes.{Bytes}
use lendmirror.Sdk.{
  EnforcedOption, OptionsByEid, is_msg_type, or_empty, add_option, reduce_from,
  reduce_enforced_options,
}

abbrev pub stored : OptionsByEid → ℕ → ℕ → Option Bytes
stored by_eid eid msg_type = lookup msg_type (or_empty by_eid eid)

module _ (encode : Bytes → Option Bytes) where
  -- The encoding of the last option of the list for a path and a message type, and `before` if there
  -- is none.
  unfoldable pub last_option : ℕ → ℕ → Option Bytes → List EnforcedOption → Option Bytes
  last_option eid msg_type before [] = before
  last_option eid msg_type before (option ∷ options) =
      last_option eid msg_type
        (if (option.eid == eid) && (option.msg_type == msg_type)
          then encode option.options
          else before)
        options

  or_empty-put :
      (by_eid : OptionsByEid) (e eid : ℕ) (m : List (ℕ × Bytes))
      → or_empty (put e m by_eid) eid ≡ (if e == eid then m else or_empty by_eid eid)
  unfolding or_empty
  or_empty-put by_eid e eid m =
      ap (λ o. elim o as (λ _. List (ℕ × Bytes)) [ none ↦ [] | some d ↦ d ])
        (lookup-put e eid m by_eid)
      ∙ pushed (e == eid)
    where
      pushed :
          (b : Bool)
          → (elim (if b then some m else lookup eid by_eid) as (λ _. List (ℕ × Bytes)) [
            | none ↦ []
            | some d ↦ d
          ])
            ≡ (if b then m else or_empty by_eid eid)
      pushed true = refl
      pushed false = refl

  stored-put :
      (by_eid : OptionsByEid) (e t eid msg_type : ℕ) (bytes : Bytes)
      → stored (put e (put t bytes (or_empty by_eid e)) by_eid) eid msg_type
        ≡ (if (e == eid) && (t == msg_type) then some bytes else stored by_eid eid msg_type)
  stored-put by_eid e t eid msg_type bytes =
      ap (lookup msg_type) (or_empty-put by_eid e eid (put t bytes (or_empty by_eid e)))
      ∙ elim (Bool-cases (e == eid)) [
        | inl same ↦ rw same (at_path (ground arith))
        | inr other ↦ rw other refl
      ]
    where
      at_path :
          e ≡ eid
          → lookup msg_type (put t bytes (or_empty by_eid e))
            ≡ (if t == msg_type then some bytes else stored by_eid eid msg_type)
      at_path is =
          lookup-put t msg_type bytes (or_empty by_eid e)
          ∙ ap (λ d. if t == msg_type then some bytes else stored by_eid d msg_type) is

  stored-add :
      (by_eid by_eid' : OptionsByEid) (option : EnforcedOption) (eid msg_type : ℕ)
      → add_option encode by_eid option ≡ ok by_eid'
      → stored by_eid' eid msg_type ≡ (
          if (option.eid == eid) && (option.msg_type == msg_type)
          then encode option.options
          else stored by_eid eid msg_type)
  unfolding add_option
  stored-add by_eid by_eid' option eid msg_type e =
      elim (Bool-cases (is_msg_type option.msg_type)) [
        | inr unknown ↦ ground arith
        | inl known ↦ elim (Option-cases (encode option.options)) [
          | inl malformed ↦ ground arith
          | inr (bytes, encoded) ↦ rw encoded (
              ap (λ m. stored m eid msg_type) (sym (result_is bytes known encoded))
              ∙ stored-put by_eid option.eid option.msg_type eid msg_type bytes)
        ]
      ]
    where
      result_is :
          (bytes : Bytes)
          → is_msg_type option.msg_type ≡ true
          → encode option.options ≡ some bytes
          → put option.eid (put option.msg_type bytes (or_empty by_eid option.eid)) by_eid ≡ by_eid'
      result_is bytes known encoded = ground arith

  stored-reduce_from :
      (by_eid result : OptionsByEid) (options : List EnforcedOption) (eid msg_type : ℕ)
      → reduce_from encode by_eid options ≡ ok result
      → stored result eid msg_type ≡ last_option eid msg_type (stored by_eid eid msg_type) options
  unfolding reduce_from last_option
  stored-reduce_from by_eid result [] eid msg_type e =
      ap (λ r. stored r eid msg_type) (sym (ok-injective e))
  stored-reduce_from by_eid result (option ∷ options) eid msg_type e =
      elim (Result-cases (add_option encode by_eid option)) [
        | inr (x, failed) ↦ ground arith
        | inl (next, added) ↦
            stored-reduce_from next result options eid msg_type (ground arith)
            ∙ ap (λ b. last_option eid msg_type b options)
                (stored-add by_eid next option eid msg_type added)
      ]

  -- If the reduction of a list of options returns, then for every path and message type it holds the
  -- encoding of the last option of the list for them, and nothing where the list has none.
  pub reduce_enforced_options-last :
      (result : OptionsByEid) (options : List EnforcedOption) (eid msg_type : ℕ)
      → reduce_enforced_options encode options ≡ ok result
      → stored result eid msg_type ≡ last_option eid msg_type none options
  unfolding reduce_enforced_options or_empty lookup
  reduce_enforced_options-last result options eid msg_type e =
      stored-reduce_from [] result options eid msg_type e
