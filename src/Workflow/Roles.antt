-- ===== src/Workflow/Roles.antt =====
-- backend/app/services/workflow.py: the paths of a record (`is_manager_path`,
-- `is_direct_ceo_path`, `skips_deputy`) and who may act at a stage (`_CHAIN_RANK`, `may_act_at`).
use nafas_hr.Prelude.{ℕ, Bool, false, ◌&&◌, Option, none, some, is_none, leb}
use nafas_hr.Model.Enums.{UserRole, unit_supervisor, hr, deputy, ceo, is_hr}
use nafas_hr.Model.Evaluation.{Evaluation}

unfoldable pub is_manager_path : Evaluation → Bool
is_manager_path r = is_none r.unit_supervisor_user_id

unfoldable pub is_direct_ceo_path : Evaluation → Bool
is_direct_ceo_path r = is_none r.unit_supervisor_user_id && is_none r.deputy_user_id

unfoldable pub skips_deputy : Evaluation → Bool
skips_deputy r = is_none r.deputy_user_id

-- `_CHAIN_RANK.get`.
unfoldable pub chain_rank : UserRole → Option ℕ
chain_rank unit_supervisor = some 1
chain_rank deputy = some 2
chain_rank ceo = some 3
chain_rank _ = none

abbrev rank_le : Option ℕ → Option ℕ → Bool
rank_le none _ = false
rank_le (some s) none = false
rank_le (some s) (some u) = leb s u

-- `may_act_at(user_role, stage_role)`.
unfoldable pub may_act_at : UserRole → UserRole → Bool
unfolding chain_rank
may_act_at user_role hr = is_hr user_role
may_act_at user_role stage_role = rank_le (chain_rank stage_role) (chain_rank user_role)
