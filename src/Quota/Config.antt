-- ===== src/Quota/Config.antt =====
-- internal/quota/quota.go: the data of the quota file. The YAML decoder is not part of the
-- repository; a pointer or a map that may be absent is an `Option`.
use proxmox_user_quota_proxy.Base.{Option, List, ℤ, Text, Map}

pub record NodeOverride : Type 0 where
  pub cores : Option ℤ
  pub memory_mib : Option ℤ
  pub instances : Option ℤ
  pub disk_gib : Option (Map ℤ)

pub record UserQuota : Type 0 where
  pub pool : Text
  pub cores : ℤ
  pub memory_mib : ℤ
  pub instances : ℤ
  pub disk_gib : Map ℤ
  pub nodes : Map NodeOverride

-- A user with an empty record is a nil pointer. The field `Defaults` is never read.
pub record Config : Type 0 where
  pub version : ℤ
  pub admins : List Text
  pub users : Map (Option UserQuota)
