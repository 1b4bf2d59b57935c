-- ===== src/Account/Fresh.antt =====
-- The operations of src/account/manager.rs keep the account of nonces, on every path.
use acmex.Base.{String, Bool, List}
use acmex.Act.Triple.{Keeps}
use acmex.Types.{Contact}
use acmex.Platform.{Platform}
use acmex.Protocol.Request.{Manager}
use acmex.Protocol.Fresh.{IsFresh}
use acmex.Order.Fresh.{fresh_rules}
use acmex.Account.Manager.{register, update_contacts, get_account, deactivate}

module _ {Key : Type 0} (p : Platform Key) (m : Manager Key) where
  pub register-IsFresh :
      (cs : List Contact) (agreed : Bool) → Keeps IsFresh (register p m cs agreed)
  unfolding register
  register-IsFresh cs agreed = search fresh_rules depth 14

  pub update_contacts-IsFresh :
      (id : String) (cs : List Contact) → Keeps IsFresh (update_contacts p m id cs)
  unfolding update_contacts
  update_contacts-IsFresh id cs = search fresh_rules depth 10

  pub get_account-IsFresh : (id : String) → Keeps IsFresh (get_account p m id)
  unfolding get_account
  get_account-IsFresh id = search fresh_rules depth 10

  pub deactivate-IsFresh : (id : String) → Keeps IsFresh (deactivate p m id)
  unfolding deactivate
  deactivate-IsFresh id = search fresh_rules depth 10
