-- ===== src/Runtime/Reviews.antt =====
-- How a session begins, and how a human ends one that waits for a review.
use interviewer.Prelude.{
  String, str_eq, lookup-insert, ◌≡◌, refl, eq_iff, Bool, true, false, Option, some, List, arith,
  if◌then◌else◌, Dict, lookup, insert,
}
use interviewer.Floats.{Floats}
use interviewer.Unicode.{Unicode}
use interviewer.Values.{Fields, ok, err, runtime_error}
use interviewer.Stage.{InterviewStage, waiting_human_review, finished, failed}
use interviewer.Blackboard.{InterviewBlackboard}
use interviewer.Runtime.{Outside, RuntimeState, load_context}
use interviewer.Runtime.Start.{start_session}
use interviewer.Runtime.HumanReview.{submit_human_review, review_in_stage}
use interviewer.Runtime.Answers.{load_context_found}

abbrev pub is_waiting : InterviewStage → Bool
is_waiting waiting_human_review = true
is_waiting _ = false

module _ ⦃F : Floats⦄ ⦃U : Unicode⦄ ⦃E : Outside⦄ where
  -- The blackboard after the decision of the reviewer.
  abbrev pub reviewed : Bool → String → String → InterviewBlackboard → InterviewBlackboard
  reviewed approved reviewer reason board = record board {
    review_required = true;
    review_status = if approved then "approved" else "rejected";
    review_reviewer = reviewer;
    review_decision_reason = reason;
    current_stage = if approved then finished else failed;
  }

  review_in_stage-store :
      (session : String) (approved : Bool) (reviewer reason : String) (board : InterviewBlackboard)
      (stage : InterviewStage) (s : RuntimeState)
      → (review_in_stage session approved reviewer reason board stage s).1.store ≡ (
          if is_waiting stage
          then insert s.store board.session_id (reviewed approved reviewer reason board)
          else s.store)
  unfolding review_in_stage
  review_in_stage-store session approved reviewer reason board waiting_human_review s = refl
  review_in_stage-store session approved reviewer reason board _ s = refl

  review_in_stage-result :
      (session : String) (approved : Bool) (reviewer reason : String) (board : InterviewBlackboard)
      (stage : InterviewStage) (s : RuntimeState)
      → (review_in_stage session approved reviewer reason board stage s).0 ≡ (
          if is_waiting stage
          then ok (reviewed approved reviewer reason board)
          else err runtime_error)
  unfolding review_in_stage
  review_in_stage-result session approved reviewer reason board waiting_human_review s = refl
  review_in_stage-result session approved reviewer reason board _ s = refl

  lookup_if :
      (b : Bool) (store : Dict InterviewBlackboard) (session other : String)
      (board : InterviewBlackboard)
      → board.session_id ≡ session
      → lookup (if b then insert store board.session_id board else store) other ≡ (
          if b
          then if str_eq session other then some board else lookup store other
          else lookup store other)
  lookup_if true store session other board named =
      rw (lookup-insert store board.session_id other board, named)
  lookup_if false store session other board named = refl

  -- Only a session that waits for a human is reviewed: it is finished or has failed as the human
  -- decides, and no other session changes. In any other stage the call is refused and every
  -- stored blackboard is as it was.
  pub submit_human_review-lookup :
      (session : String) (approved : Bool) (reviewer reason : String) (s : RuntimeState)
      (board : InterviewBlackboard)
      → lookup s.store session ≡ some board
      → board.session_id ≡ session
      → let r = submit_human_review session approved reviewer reason s in
        let waits = is_waiting board.current_stage in
        (r.0 ≡ (if waits then ok (reviewed approved reviewer reason board) else err runtime_error))
        × ((other : String)
            → lookup r.1.store other ≡ (
                if waits
                then if str_eq session other
                  then some (reviewed approved reviewer reason board)
                  else lookup s.store other
                else lookup s.store other))
  unfolding submit_human_review
  submit_human_review-lookup session approved reviewer reason s board found named =
      let stage = board.current_stage in
      rw
        (
          load_context_found session s board found,
          review_in_stage-result session approved reviewer reason board stage s,
          review_in_stage-store session approved reviewer reason board stage s,
        )
        (refl, λ other. lookup_if (is_waiting stage) s.store session other _ named)

  -- A session that has started is loaded as it was made, and no other session is touched.
  pub load_context-start_session :
      (session trace : String) (resume jd : Option Fields) (candidate : Option String)
      (allowed : Option (List String)) (s : RuntimeState)
      → let r = start_session session trace resume jd candidate allowed s in
        (load_context session r.1 ≡ r)
        × ((other : String)
            → str_eq session other ≡ false
            → lookup r.1.store other ≡ lookup s.store other)
  unfolding start_session load_context
  load_context-start_session session trace resume jd candidate allowed s =
      let same : str_eq session session ≡ true = ground (arith, eq_iff session session) in
      (
        rw (lookup-insert s.store session session _, same),
        λ other apart. rw (lookup-insert s.store session other _, apart),
      )
