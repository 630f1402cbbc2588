-- ===== src/Config/Validation.antt =====
-- `Config.load` of an accepted configuration, and of the copy for the worker process.
use remnanode_xhttp_cleaner.Base.{◌≡◌, ◌≢◌, ◌≤◌, [], arith, ok}
use remnanode_xhttp_cleaner.Json.{dict, Fields}
use remnanode_xhttp_cleaner.Config.{
  Config, ConfigFile, absent, holds, load, validate, RawConfig, asdict,
}

pub record IsValid (c : Config) : Type 0 where
  pub named : c.container ≢ []
  pub floor : 300 ≤ c.idle_seconds

validate-IsValid : (raw : RawConfig) (c : Config) → validate raw ≡ ok c → IsValid c
unfolding validate
validate-IsValid raw c h = ground arith

from_dict-IsValid : (raw : Fields) (c : Config) → load (holds (dict raw)) ≡ ok c → IsValid c
unfolding load
from_dict-IsValid raw c h = ground arith

-- A configuration that `load` returns has a container name and an idle time of at least 300 seconds.
pub load-IsValid : (f : ConfigFile) (c : Config) → load f ≡ ok c → IsValid c
unfolding load
load-IsValid absent c h = ground arith
load-IsValid (holds (dict raw)) c h = from_dict-IsValid raw c h
load-IsValid f c h = ground arith

-- A valid configuration that is written as JSON and loaded again is the same configuration.
pub load-asdict : (c : Config) → IsValid c → load (holds (asdict c)) ≡ ok c
unfolding load asdict
load-asdict c v = ground arith
