-- ===== src/Account.antt =====
-- internal/store/store.go: the rows that routing reads. A uuid.UUID is the number of its 16 bytes,
-- so that uuid.Nil is 0.
use openllms.Prelude.{ℕ, Option, Text}
use openllms.Prelude.Int.{ℤ}
use openllms.Number.{Time}
use openllms.Config.{Fields}

abbrev pub Uuid : Type 0
Uuid = ℕ

abbrev pub uuid_nil : Uuid
uuid_nil = 0

pub record Account (F : Type 0) : Type 0 where
  pub id : Uuid
  pub project_id : Uuid
  pub vendor : Text
  pub name : Text
  pub auth_type : Text
  pub infisical_path : Text
  pub base_url : Text
  pub health : Text
  pub default_model : Text
  pub weight : ℤ
  pub position : ℤ
  pub quota_remaining_pct : Option F
  pub quota_reset_at : Option Time
  pub quota_updated_at : Option Time
  pub quota_5h_remaining_pct : Option F
  pub quota_5h_reset_at : Option Time
  pub quota_7d_remaining_pct : Option F
  pub quota_7d_reset_at : Option Time

-- `config` is the decoded map of the column, `none` where it is empty.
pub record Route (F : Type 0) : Type 0 where
  pub id : Uuid
  pub project_id : Uuid
  pub slug : Text
  pub strategy : Text
  pub config : Option (Fields F)
  pub default_model : Text
