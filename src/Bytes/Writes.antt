-- ===== src/Bytes/Writes.antt =====
-- A row of writes into a fresh buffer.
use lendmirror.Common.{ℕ, ◌+◌, ◌≡◌, refl, sym, ap, ◌∙◌, List, [], ◌∷◌, ◌++◌, length, arith}
use lendmirror.Common.{length-append}
use lendmirror.Common.Outcome.{Result, ok, ◌>>=◌}
use lendmirror.Bytes.Cells.{Bytes, RangeError, write_at, zeros}
use lendmirror.Bytes.Laws.{write_at-zeros}
use mathlib.Core.List.{append-nil, append_assoc}

-- An offset and what is written there.
abbrev pub Write : Type 0
Write = ℕ × Bytes

unfoldable pub write_all : List Write → Bytes → Result RangeError Bytes
write_all [] out = ok out
write_all ((offset, piece) ∷ more) out = do out' ← write_at offset piece out; write_all more out'

abbrev pub pieces : List Write → Bytes
pieces [] = []
pieces ((offset, piece) ∷ more) = piece ++ pieces more

-- Each write starts where the one before it ends.
abbrev pub Contiguous : ℕ → List Write → Type 0
Contiguous from [] = Unit
Contiguous from ((offset, piece) ∷ more) = (offset ≡ from) × Contiguous (from + length piece) more

write_all_from :
    (ws : List Write) (done : Bytes) (from total k : ℕ)
    → length done ≡ from
    → Contiguous from ws
    → total ≡ length (pieces ws) + k
    → write_all ws (done ++ zeros total) ≡ ok ((done ++ pieces ws) ++ zeros k)
unfolding write_all
write_all_from [] done from total k at c e =
    let same : total ≡ k = omega arith in rw (append-nil done, same) refl
write_all_from ((offset, piece) ∷ more) done from total k at (here, later) e =
    rw
      (
        write_at-zeros done piece offset total (length (pieces more) + k) (at ∙ sym here)
            (omega (arith, length-append piece (pieces more))),
        write_all_from more (done ++ piece) (from + length piece) (length (pieces more) + k) k
            (omega (arith, length-append done piece)) later refl,
        append_assoc done piece (pieces more),
      )
      refl

-- Contiguous writes that fill a buffer leave it holding their pieces in order.
pub write_all-Contiguous :
    (ws : List Write) (done : Bytes) (total : ℕ)
    → Contiguous (length done) ws
    → total ≡ length (pieces ws)
    → write_all ws (done ++ zeros total) ≡ ok (done ++ pieces ws)
write_all-Contiguous ws done total c e =
    write_all_from ws done (length done) total 0 refl c (omega arith)
    ∙ ap ok (append-nil (done ++ pieces ws))
