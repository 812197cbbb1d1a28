-- ===== src/Checkpoint/Restart.antt =====
-- Sessions that are saved and loaded by the JSON store
-- (src/interview_agent_runtime/checkpoint/stores.py).
use interviewer.Prelude.{
  ℕ, ◌≡◌, ◌∙◌, refl, sym, ap, true, Option, str_eq-same, String, str_eq, some, if◌then◌else◌,
  Bool-cases, inl, inr, lookup-insert,
}
use interviewer.Floats.{Floats}
use interviewer.Unicode.{Unicode}
use interviewer.Values.{dict, Result, ok}
use interviewer.Blackboard.{InterviewBlackboard}
use interviewer.Checkpoint.{JsonTexts, JsonFiles, save_json, load_json}
use interviewer.Checkpoint.Session.{Times, TimeLaws, board_fields}
use interviewer.Checkpoint.Restored.{restored}
use interviewer.Checkpoint.Again.{restored-restored}
use interviewer.Checkpoint.RoundTrip.Board.{board_from_json-board_fields}

module _ {A : Type 0} where
  from_some : A → Result (Option A) → A
  from_some otherwise (ok (some a)) = a
  from_some otherwise _ = otherwise

  ok_some : {x y : A} → Result.ok (some x) ≡ Result.ok (some y) → x ≡ y
  unfolding from_some
  ok_some {x = x} e = ap (from_some x) e

module _ ⦃F : Floats⦄ ⦃T : Times⦄ ⦃U : Unicode⦄ ⦃J : JsonTexts⦄ where
  -- If a time that was written is read back, and so is the JSON text of this blackboard, then a session
  -- that was saved is loaded as `restored` says, and every other session is loaded as before: the
  -- session keeps all but the policy of the plan, the confidence of plans, questions, answers and
  -- reports, and the fields that the constructors derive from others.
  pub load_json-save_json :
      (laws : TimeLaws T) (fresh : String → String) (now : ℕ) (files : JsonFiles)
      (board : InterviewBlackboard) (session : String)
      → J.loads (J.dumps (dict (board_fields board))) ≡ some (dict (board_fields board))
      → load_json fresh now (save_json files board) session ≡ (
          if str_eq board.session_id session
          then ok (some (restored board))
          else load_json fresh now files session)
  unfolding load_json save_json
  load_json-save_json laws fresh now files board session reads =
      let text = J.dumps (dict (board_fields board)) in
      elim (Bool-cases (str_eq board.session_id session)) [
        | inl same ↦
            rw
              (
                lookup-insert files board.session_id session text,
                same,
                reads,
                board_from_json-board_fields laws fresh now board,
              )
              refl
        | inr other ↦ rw (lookup-insert files board.session_id session text, other) refl
      ]

  -- If the times that were written are read back, and so are the JSON texts of both blackboards, and the session of a saved blackboard is loaded as another
  -- blackboard, then the store into which that one is saved gives for every session the same as the
  -- store into which the first was saved: after one restart no further restart changes anything.
  pub load_json-again :
      (laws : TimeLaws T) (fresh : String → String) (now : ℕ) (files : JsonFiles)
      (board loaded : InterviewBlackboard) (session : String)
      → J.loads (J.dumps (dict (board_fields board))) ≡ some (dict (board_fields board))
      → J.loads (J.dumps (dict (board_fields loaded))) ≡ some (dict (board_fields loaded))
      → load_json fresh now (save_json files board) board.session_id ≡ ok (some loaded)
      → load_json fresh now (save_json files loaded) session
        ≡ load_json fresh now (save_json files board) session
  load_json-again laws fresh now files board loaded session reads reads_loaded h =
      let itself : str_eq board.session_id board.session_id ≡ true =
        str_eq-same board.session_id board.session_id refl in
      let first : load_json fresh now (save_json files board) board.session_id
          ≡ ok (some (restored board)) =
        rw (load_json-save_json laws fresh now files board board.session_id reads, itself) refl in
      let same : restored board ≡ loaded = ok_some (sym first ∙ h) in
      let kept : restored loaded ≡ loaded =
        sym (ap restored same) ∙ restored-restored board ∙ same in
      let named : loaded.session_id ≡ board.session_id = sym (ap (λ b. b.session_id) same) in
      rw
        (
          load_json-save_json laws fresh now files loaded session reads_loaded,
          load_json-save_json laws fresh now files board session reads,
          kept,
          same,
          named,
        )
        refl
