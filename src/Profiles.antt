-- ===== src/Profiles.antt =====
-- crates/control-tower-service-core/src/profiles.rs: the manifest profiles.yaml, as far as the
-- modelled code reads and writes it.
use control_tower.Prelude.{ℕ, String, Bool, Option, List}

-- Options for the download of a subscription.
pub record ProfileDownloadOptions : Type 0 where
  pub user_agent : Option String
  pub timeout_seconds : Option ℕ
  pub with_proxy : Option Bool
  pub danger_accept_invalid_certs : Option Bool

pub record ProfileItem : Type 0 where
  pub uid : String
  pub name : Option String
  pub file : Option String
  pub url : Option String
  pub cron : Option String
  pub updated_at : Option ℕ
  pub options : Option ProfileDownloadOptions
  pub kind : Option String
  pub script : Option String
  pub merge : List String

pub record ProfilesYaml : Type 0 where
  pub current : Option String
  pub items : List ProfileItem

-- What a read of the file gives.
pub data Manifest : Type 0 where
  missing unreadable invalid : Manifest
  manifest : ProfilesYaml → Manifest

pub record RuleProviderConfig : Type 0 where
  pub name : String
  pub kind : String
  pub behavior : String
  pub url : Option String
  pub path : Option String
  pub interval : ℕ
  pub enabled : Bool
  pub lazy : Bool
  pub filter : Option String
