-- ===== src/Cases/Comments.antt =====
-- backend/app/api/routers/evaluations.py: `add_comment` and `_add_reply`.
use nafas_hr.Prelude.{
  ℕ, ◌+◌, ◌==◌, Bool, ◌&&◌, ◌||◌, not, Option, none, some, [], ◌∷◌, first, is_none, is_some,
  is_just, String, if◌then◌else◌,
}
use nafas_hr.Model.Enums.{
  hr, deputy, ceo, is_submitted, is_hr_approved, is_deputy_approved, CommentStage, hr_review,
  deputy_review, ceo_final, stage_value,
}
use nafas_hr.Model.Values.{
  Env, num, text, http, comment_not_allowed, forbidden, parent_not_found, reply_to_reply,
}
use nafas_hr.Model.Evaluation.{Evaluation, Comment, plain}
use nafas_hr.Model.Tables.{CurrentUser, comment_reply_added}
use nafas_hr.Model.Store.{Db, Case}
use nafas_hr.Web.{Exec, raise_if, or_raise, modify, gets, ◌>>=◌, ◌>>◌}
use nafas_hr.Audit.{log_event}
use nafas_hr.Notifications.{notify}
use nafas_hr.Cases.Chain.{add_top_comment}
use nafas_hr.Cases.Scores.{ensure_can_view}

-- `stage_by_role`: the stage of a comment and whether the record is at it, for the user.
unfoldable pub comment_place : Evaluation → CurrentUser → Option (CommentStage × Bool)
comment_place r user = elim user.role [
  | hr ↦ some (hr_review, is_submitted r.status)
  | deputy ↦ some (
    deputy_review,
    is_hr_approved r.status && (is_none r.deputy_user_id || is_just user.id r.deputy_user_id),
  )
  | ceo ↦ some (ceo_final, is_deputy_approved r.status && user.id == r.ceo_user_id)
  | _ ↦ none
]

-- A comment that is no reply.
unfoldable pub add_stage_comment : Env → String → CurrentUser → Exec Case (Unit {0})
add_stage_comment env words user = do
  place ← gets (λ c. comment_place c.record_ user)
  at ← or_raise place (http 403 forbidden)
  raise_if (not at.1) (http 403 comment_not_allowed)
  modify (add_top_comment user at.0 (plain words))
  modify (λ c. record c {
    db =
        log_event env user.id "comment_added" (some c.record_.id) none
          (some (("stage", text (stage_value at.0)) ∷ [])) c.db;
  })

unfoldable pub comment_by_id : ℕ → Db → Option Comment
comment_by_id id db = first (λ m. m.id == id) db.comments

-- `db.get(EvaluationComment, id)`, where the comment stands on the record.
unfoldable pub parent_of : ℕ → Case → Option Comment
parent_of id c = elim (comment_by_id id c.db) [
  | none ↦ none
  | some m ↦ if m.evaluation_record_id == c.record_.id then some m else none
]

-- The reply itself, its row in the log and the notification of the author of the parent.
unfoldable pub put_reply : Env → CurrentUser → Comment → String → Case → Case
put_reply env user parent words c =
    let added = record c.db {
      comments =
          (record {
            id = c.db.next_id;
            evaluation_record_id = c.record_.id;
            commenter_user_id = user.id;
            parent_comment_id = some parent.id;
            stage = parent.stage;
            comment_text = plain words;
          })
          ∷ c.db.comments;
      next_id = c.db.next_id + 1;
    } in
    let logged =
      log_event env user.id "comment_reply_added" (some c.record_.id) none
        (some
          (("parent_comment_id", num parent.id) ∷ ("stage", text (stage_value parent.stage)) ∷ []))
        added in
    record c {
      db =
          if parent.commenter_user_id == user.id
          then logged
          else notify env (parent.commenter_user_id ∷ []) comment_reply_added (some c.record_.id)
              logged;
    }

-- `_add_reply`.
unfoldable pub add_reply : Env → ℕ → String → CurrentUser → Exec Case (Unit {0})
add_reply env parent_id words user = do
  ensure_can_view user
  parent ← or_raise (← gets (parent_of parent_id)) (http 404 parent_not_found)
  raise_if (is_some parent.parent_comment_id) (http 400 reply_to_reply)
  modify (put_reply env user parent words)

-- `add_comment`.
unfoldable pub add_comment : Env → Option ℕ → String → CurrentUser → Exec Case (Unit {0})
add_comment env (some parent_id) words user = add_reply env parent_id words user
add_comment env none words user = add_stage_comment env words user
