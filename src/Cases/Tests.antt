-- ===== src/Cases/Tests.antt =====
-- Requests for the record of one worker, and the theorems about records at them.
use nafas_hr.Prelude.{◌≡◌, refl, true, false, none, some, [], ◌∷◌, map, is_some}
use nafas_hr.Samples.{
  monday, thousandths, supervisor_user, hr_user, ceo_user, case_at, state_after, account,
}
use nafas_hr.Model.Enums.{hr, deputy, draft, submitted, hr_approved, deputy_approved}
use nafas_hr.Model.Values.{is_ok, ok}
use nafas_hr.Model.Tables.{User}
use nafas_hr.Model.Store.{Case}
use nafas_hr.Workflow.Roles.{may_act_at, chain_rank, is_direct_ceo_path, is_manager_path}
use nafas_hr.Workflow.Table.{is_open, seat, deputy_user_id}
use nafas_hr.Cases.Chain.{
  require_hr, ensure_not_about_oneself, hr_approve_evaluation, return_evaluation, submit_evaluation,
  ceo_finalize_evaluation,
}
use nafas_hr.Cases.Chain.Answers.{
  ceo_finalize-is_ok, hr_approve-is_ok, return-is_ok, submit-is_ok, is_ready, may_return,
}
use nafas_hr.Window.{ensure_open, record_accepts_entries, window_for, combine, period_end}
use nafas_hr.Window
use nafas_hr.Framework.{indicators_for_record, indicator_ids_for_record}
use nafas_hr.Scoring.Finalize.{finalize_scoring, scores_of, scored_ids, indicator_ids}
use nafas_hr.Cases.Scores.{
  is_the_scorer, scoring_role, ensure_scorer, upsert_scores, ScoreItem, replace_scores, check_items,
  item_fault,
}
use nafas_hr.Cases.Scores.Rows.{upsert_scores-rows, said, asked, all_known, distinct}
use nafas_hr.Cases.Owners.{
  extend_submission_window, hr_handover, user_by_id, may_own, reassign_stage_owner, deputy_stage,
  field_of, live_user, expected_role, same_role,
}
use nafas_hr.Cases.Owners.Rules.{extend-tells_scorer, told, same_owner, reassign-keeps_apart}
use nafas_hr.Guards.{
  is_about, ensure_not_deciding_about_oneself, ensure_evaluators_are_not_the_subject, has_conflict,
  ensure_chain_stages_are_not_redundant, is_redundant,
}
use nafas_hr.Workflow.Apply.{has_scores, set_seat}
use nafas_hr.Cases.Snapshot.{personnel_by_id, first_scorer}

ceo_finalize_example :
    is_ok (ceo_finalize_evaluation monday ceo_user (case_at deputy_approved (some 6000))) ≡ true
unfolding may_act_at is_ready has_scores personnel_by_id
ceo_finalize_example = ceo_finalize-is_ok monday ceo_user (case_at deputy_approved (some 6000))

hr_approve_example :
    is_ok (hr_approve_evaluation monday hr_user (case_at submitted (some 6000))) ≡ true
unfolding is_about is_direct_ceo_path
hr_approve_example = hr_approve-is_ok monday hr_user (case_at submitted (some 6000))

return_example :
    is_ok (return_evaluation monday "look again" ceo_user (case_at hr_approved (some 6000))) ≡ false
unfolding may_return
return_example = return-is_ok monday "look again" ceo_user (case_at hr_approved (some 6000))

submit_example :
    is_ok (submit_evaluation thousandths monday supervisor_user (case_at draft none))
    ≡ is_ok (finalize_scoring thousandths monday supervisor_user (case_at draft none))
unfolding is_the_scorer scoring_role first_scorer is_direct_ceo_path is_manager_path may_act_at
    chain_rank record_accepts_entries window_for Window.is_open combine period_end
submit_example = submit-is_ok thousandths monday supervisor_user (case_at draft none)

abbrev new_score : ScoreItem
new_score = record { indicator_id = 11; score = 4; evidence_text = none }

abbrev saved : Case
saved =
    state_after (case_at draft none)
      (upsert_scores monday (new_score ∷ []) supervisor_user (case_at draft none))

saving_goes_through :
    upsert_scores monday (new_score ∷ []) supervisor_user (case_at draft none) ≡ ok (tt, saved)
unfolding upsert_scores ensure_open window_for ensure_scorer is_the_scorer scoring_role first_scorer
    is_direct_ceo_path is_manager_path may_act_at chain_rank Window.is_open combine period_end
    replace_scores check_items item_fault indicators_for_record indicator_ids_for_record
saving_goes_through = refl

rows_example :
    (map said (scores_of saved.record_ saved.db) ≡ map asked (new_score ∷ []))
    × (all_known
          (indicator_ids
            (indicators_for_record (case_at draft none).db (case_at draft none).record_))
          (scored_ids (scores_of saved.record_ saved.db))
        ≡ true)
    × (distinct [] (scored_ids (scores_of saved.record_ saved.db)) ≡ true)
rows_example =
    upsert_scores-rows monday (new_score ∷ []) supervisor_user (case_at draft none) saved
      saving_goes_through

-- The case is handed over to the same company's second user of human resources.
abbrev second_hr : User
second_hr = account 8 hr none

abbrev staffed : Case
staffed =
    let c = case_at submitted (some 6000) in
    record c { db = record c.db { users = second_hr ∷ account 7 deputy none ∷ c.db.users } }

abbrev handed : Case
handed = state_after staffed (hr_handover monday 8 "leave" hr_user staffed)

handing_goes_through : hr_handover monday 8 "leave" hr_user staffed ≡ ok (tt, handed)
unfolding hr_handover require_hr ensure_not_about_oneself ensure_not_deciding_about_oneself is_about
    user_by_id may_own
handing_goes_through = refl

abbrev reseated : Case
reseated = state_after staffed (reassign_stage_owner monday deputy_stage 7 "leave" hr_user staffed)

reassigning_goes_through :
    reassign_stage_owner monday deputy_stage 7 "leave" hr_user staffed ≡ ok (tt, reseated)
unfolding reassign_stage_owner require_hr field_of seat user_by_id live_user expected_role same_role
    ensure_evaluators_are_not_the_subject has_conflict ensure_chain_stages_are_not_redundant
    set_seat is_redundant
reassigning_goes_through = refl

reassign_example :
    (is_open submitted ≡ true)
    × (is_some (seat deputy_user_id staffed.record_) ≡ true)
    × (seat deputy_user_id reseated.record_ ≡ some 7)
    × (has_conflict 1 (7 ∷ []) staffed.db.users ≡ false)
    × (same_owner reseated.record_.unit_supervisor_user_id reseated.record_.deputy_user_id ≡ false)
    × (same_owner reseated.record_.deputy_user_id (some reseated.record_.ceo_user_id) ≡ false)
unfolding field_of
reassign_example =
    reassign-keeps_apart monday deputy_stage 7 "leave" hr_user staffed reseated
      reassigning_goes_through

-- A draft of the path of the chief executive, and the case once it is extended.
abbrev direct : Case
direct =
    let c = case_at draft none in
    record c {
      record_ = record c.record_ { unit_supervisor_user_id = none; deputy_user_id = none };
    }

abbrev prolonged : Case
prolonged = state_after direct (extend_submission_window monday 30 "leave" hr_user direct)

extending_goes_through :
    extend_submission_window monday 30 "leave" hr_user direct ≡ ok (tt, prolonged)
unfolding extend_submission_window require_hr ensure_not_about_oneself
    ensure_not_deciding_about_oneself is_about
extending_goes_through = refl

extend_example : told prolonged.db.notifications ≡ told direct.db.notifications
unfolding is_direct_ceo_path is_the_scorer first_scorer scoring_role is_manager_path may_act_at
    chain_rank
extend_example =
    extend-tells_scorer monday 30 "leave" hr_user ceo_user direct prolonged refl
      extending_goes_through
