-- ===== src/Account/Object.antt =====
-- The account of src/account/manager.rs, as the server describes it.
use acmex.Base.{String, Bool, Option, List}

pub record Account : Type 0 where
  pub id : String
  pub status : String
  pub contact : List String
  pub terms_of_service_agreed : Bool
  pub created_at : Option String
  pub initial_ip : Option String
  pub orders : Option String
  pub external_account_binding : Option String
