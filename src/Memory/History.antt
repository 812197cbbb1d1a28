-- ===== src/Memory/History.antt =====
-- The messages that a key has in the session memory.
use interviewer.Prelude.{
  ◌≡◌, refl, String, str_eq, none, List, [], ◌∷◌, ◌++◌, arith, if◌then◌else◌, or_else, lookup,
  lookup-insert, eq_iff, Bool-cases, inl, inr,
}
use interviewer.Floats.{Floats}
use interviewer.Memory.{AgentMessage, SessionMemory, extend, history, clear}

module _ ⦃F : Floats⦄ where
  -- What is added under a key comes last in the history of this key, and changes no other one.
  pub history-extend :
      (memory : SessionMemory) (key other : String) (ms : List AgentMessage)
      → history (extend memory key ms) other none
        ≡ (if str_eq key other then history memory key none ++ ms else history memory other none)
  unfolding history extend
  history-extend memory key other ms =
      let new = or_else (lookup memory key) [] ++ ms in
      elim (Bool-cases (str_eq key other)) [
        | inl same ↦ rw (lookup-insert memory key other new, same) refl
        | inr apart ↦ rw (lookup-insert memory key other new, apart) refl
      ]

  lookup-clear :
      (memory : SessionMemory) (key other : String)
      → lookup (clear memory key) other ≡ (if str_eq key other then none else lookup memory other)
  unfolding clear lookup
  lookup-clear [] key other = ground arith
  lookup-clear ((k, ms) ∷ memory) key other =
      ground (arith, lookup-clear memory key other, eq_iff k key, eq_iff key other, eq_iff k other)

  -- A key that is cleared has no history, whatever it was given before, and every other key has
  -- the history that it had.
  pub history-clear :
      (memory : SessionMemory) (key other : String)
      → history (clear memory key) other none
        ≡ (if str_eq key other then [] else history memory other none)
  unfolding history
  history-clear memory key other = elim (Bool-cases (str_eq key other)) [
    | inl same ↦ rw (lookup-clear memory key other, same) refl
    | inr apart ↦ rw (lookup-clear memory key other, apart) refl
  ]
