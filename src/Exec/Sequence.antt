-- ===== src/Exec/Sequence.antt =====
-- Methods in a row, shut: long methods are taken apart by the rules on `>>=`, not by computing.
use interviewer.Exec.{Exec, continue}

module _ {S A B : Type 0} where
  infixl 5 ◌>>=◌ ◌>>◌
  unfoldable pub ◌>>=◌ : Exec S A → (A → Exec S B) → Exec S B
  ◌>>=◌ m f s = continue (m s).0 f (m s).1

  abbrev pub ◌>>◌ : Exec S A → Exec S B → Exec S B
  m >> k = m >>= λ _. k
