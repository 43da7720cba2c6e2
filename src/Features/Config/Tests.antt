-- ===== src/Features/Config/Tests.antt =====
-- The theorem on the configuration, applied to a file that chooses Redis.
use ml_monitor.Prelude.{refl, String, [], ◌∷◌}
use ml_monitor.Prelude.Dict.{Dict, get, put, remove}
use ml_monitor.Features.Config.{
  Yaml, mapping, text, number, FeatureStoreConfig, default_offline, default_online,
  default_registry, from_dict, section, merge,
}
use ml_monitor.Features.Config.Laws.{IsSection, from_dict-IsSection}

abbrev raw : Dict String Yaml
raw = ("online_store", mapping (("type", text "redis") ∷ ("host", text "cache") ∷ [])) ∷ []

abbrev loaded : FeatureStoreConfig
loaded = record {
  offline_store = record {
    store_type = text "parquet";
    options = ("path", text "./data/offline") ∷ [];
  };
  online_store = record {
    store_type = text "redis";
    options =
        ("path", text "./data/online.db") ∷ ("ttl_hours", number 24) ∷ ("host", text "cache") ∷ [];
  };
  registry = record {
    store_type = text "sqlite";
    options = ("path", text "./data/registry.db") ∷ [];
  };
}

from_dict-IsSection_example :
    IsSection "offline_store" default_offline raw loaded.offline_store
    × IsSection "online_store" default_online raw loaded.online_store
    × IsSection "registry" default_registry raw loaded.registry
unfolding from_dict section merge put remove get
from_dict-IsSection_example = from_dict-IsSection raw loaded refl
