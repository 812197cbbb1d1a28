-- ===== src/Runtime/Answers.antt =====
-- What `receive_answer` and the steps at rest do to the session.
use interviewer.Prelude.{
  ℕ, String, str_eq, lookup-insert, ◌≡◌, refl, Bool, true, false, Option, none, some, [], ◌∷◌, ◌++◌,
  if◌then◌else◌, lookup, insert,
}
use interviewer.Floats.{Floats}
use interviewer.Unicode.{Unicode}
use interviewer.Values.{ok, err, runtime_error}
use interviewer.Stage.{
  InterviewStage, listening, waiting_human_review, finished, failed, evaluating,
}
use interviewer.Artifacts.{answer, AnswerArtifact, QuestionArtifact}
use interviewer.Blackboard.{InterviewBlackboard, publish}
use interviewer.StateMachine.{TransitionGuard, transition}
use interviewer.Runtime.{Outside, RuntimeState, InterviewRuntime, load_context, advance}
use interviewer.Runtime.Answering.{
  AnswerInput, answer_artifact, receive_answer, answer_in_stage, answer_question,
}

abbrev pub is_listening : InterviewStage → Bool
is_listening listening = true
is_listening _ = false

abbrev pub is_over : InterviewStage → Bool
is_over finished = true
is_over failed = true
is_over waiting_human_review = true
is_over _ = false

module _ ⦃F : Floats⦄ ⦃U : Unicode⦄ ⦃E : Outside⦄ where
  pub load_context_found :
      (session : String) (s : RuntimeState) (board : InterviewBlackboard)
      → lookup s.store session ≡ some board
      → load_context session s ≡ (ok board, s)
  unfolding load_context
  load_context_found session s board h = rw h

  refused_in_stage :
      (rt : InterviewRuntime) (session : String) (input : AnswerInput)
      (context : InterviewBlackboard) (stage : InterviewStage) (s : RuntimeState)
      → is_listening stage ≡ false
      → answer_in_stage rt session input context stage s ≡ (err runtime_error, s)
  unfolding answer_in_stage
  refused_in_stage rt session input context listening s h = cc
  refused_in_stage rt session input context _ s h = refl

  -- An answer to a session that is not listening is refused, and every stored blackboard is as
  -- it was.
  pub receive_answer_refused :
      (rt : InterviewRuntime) (session : String) (input : AnswerInput) (s : RuntimeState)
      (board : InterviewBlackboard)
      → lookup s.store session ≡ some board
      → is_listening board.current_stage ≡ false
      → ((receive_answer rt session input s).0 ≡ err runtime_error)
        × ((receive_answer rt session input s).1.store ≡ s.store)
  unfolding receive_answer
  receive_answer_refused rt session input s board found h =
      rw
        (
          load_context_found session s board found,
          refused_in_stage rt session input board board.current_stage _ h,
        )
        (refl, refl)

  transition_listening :
      (guard : TransitionGuard) (now : ℕ) (stage : InterviewStage) (b : InterviewBlackboard)
      (a : AnswerArtifact)
      → stage ≡ listening
      → transition guard now stage b (some (answer a)) ≡ (evaluating, b)
  unfolding transition
  transition_listening guard now listening b a h = refl
  transition_listening guard now _ b a h = cc

  -- The blackboard after an answer.
  abbrev pub answered : ℕ → AnswerArtifact → InterviewBlackboard → InterviewBlackboard
  answered now a board = record board {
    runtime_metadata = record board.runtime_metadata { updated_at = now };
    answers = board.answers ++ (a ∷ []);
    current_stage = evaluating;
  }

  advance-answered :
      (rt : InterviewRuntime) (a : AnswerArtifact) (board : InterviewBlackboard) (s : RuntimeState)
      → board.current_stage ≡ listening
      → advance rt
          (publish (E.now s.outside) (answer a) board).1.current_stage
          (some (answer a))
          (publish (E.now s.outside) (answer a) board).1
          s
        ≡ answered (E.now s.outside) a board
  unfolding advance publish
  advance-answered rt a board s h =
      let now = E.now s.outside in rw (transition_listening rt.guard now board.current_stage _ a h)

  answer_taken :
      (rt : InterviewRuntime) (session : String) (input : AnswerInput) (board : InterviewBlackboard)
      (o : Option QuestionArtifact) (q : QuestionArtifact) (s : RuntimeState)
      → o ≡ some q
      → board.current_stage ≡ listening
      → (answer_question rt session input board o s).1.store
        ≡ insert s.store board.session_id
            (answered (E.now s.outside) (answer_artifact input q) board)
  unfolding answer_question publish
  answer_taken rt session input board none q s e h = cc
  answer_taken rt session input board (some p) q s e h =
      let same : p ≡ q = cc in rw (advance-answered rt (answer_artifact input p) board s h, same)

  taken_in_stage :
      (rt : InterviewRuntime) (session : String) (input : AnswerInput) (board : InterviewBlackboard)
      (q : QuestionArtifact) (stage : InterviewStage) (s : RuntimeState)
      → stage ≡ listening
      → board.current_question ≡ some q
      → board.current_stage ≡ listening
      → (answer_in_stage rt session input board stage s).1.store
        ≡ insert s.store board.session_id
            (answered (E.now s.outside) (answer_artifact input q) board)
  unfolding answer_in_stage
  taken_in_stage rt session input board q listening s e asked h =
      answer_taken rt session input board board.current_question q s asked h
  taken_in_stage rt session input board q _ s e asked h = cc

  -- A listening session with a question takes the answer: the answer to the current question
  -- joins the answers, the session goes on to be evaluated, nothing else of it changes but the
  -- time of the update, and no other session does.
  pub receive_answer_accepted :
      (rt : InterviewRuntime) (session : String) (input : AnswerInput) (s : RuntimeState)
      (board : InterviewBlackboard) (q : QuestionArtifact)
      → lookup s.store session ≡ some board
      → board.session_id ≡ session
      → board.current_stage ≡ listening
      → board.current_question ≡ some q
      → (other : String)
      → lookup (receive_answer rt session input s).1.store other ≡ (
          if str_eq session other
          then some (answered (E.now s.outside) (answer_artifact input q) board)
          else lookup s.store other)
  unfolding receive_answer
  receive_answer_accepted rt session input s board q found named h asked other = rw (
    load_context_found session s board found,
    taken_in_stage rt session input board q board.current_stage _ h asked h,
    lookup-insert s.store board.session_id other
        (answered (E.now s.outside) (answer_artifact input q) board),
    named,
  )
