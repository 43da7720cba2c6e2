-- ===== src/Features/Config.antt =====
-- src/ml_platform/features/core/config.py, and `_build_offline_store` and `_build_online_store` of
-- core/feature_store.py: the configuration and the stores that it chooses. YAML is read by an argument.
pub mod Laws
mod Tests
use ml_monitor.Prelude.{
  ℕ, String, Bool, true, false, ◌&&◌, Option, none, some, List, [], ◌∷◌, ◌==◌, string_eq,
  if◌then◌else◌,
}
use ml_monitor.Prelude.Dict.{Dict, get, put, remove}

-- A value of a section.
pub data Value : Type 0 where
  text : String → Value
  number : ℕ → Value
  other : Value

abbrev pub Section : Type 0
Section = Dict String Value

-- What stands under a top-level key: a mapping, or something that `**` refuses, such as null.
pub data Yaml : Type 0 where
  mapping : Section → Yaml
  no_mapping : Yaml

abbrev pub default_offline : Section
default_offline = ("type", text "parquet") ∷ ("path", text "./data/offline") ∷ []

abbrev pub default_online : Section
default_online =
    ("type", text "sqlite") ∷ ("path", text "./data/online.db") ∷ ("ttl_hours", number 24) ∷ []

abbrev pub default_registry : Section
default_registry = ("type", text "sqlite") ∷ ("path", text "./data/registry.db") ∷ []

pub record StoreConfig : Type 0 where
  pub store_type : Value
  pub options : Section

pub record FeatureStoreConfig : Type 0 where
  pub offline_store : StoreConfig
  pub online_store : StoreConfig
  pub registry : StoreConfig

pub data Config (A : Type 0) : Type 0 where
  ok : A → Config A
  type_error key_error value_error import_error : Config A

infixl 5 ◌>>=◌
abbrev pub ◌>>=◌ : {A B : Type 0} → Config A → (A → Config B) → Config B
ok a >>= f = f a
type_error >>= f = type_error
key_error >>= f = key_error
value_error >>= f = value_error
import_error >>= f = import_error

-- `StoreConfig.get`
unfoldable pub get_option : StoreConfig → String → Value → Value
get_option cfg name default = elim (get name cfg.options) [ none ↦ default | some v ↦ v ]

-- `{**old, **new}`
unfoldable pub merge : {A : Type 0} → Dict String A → Dict String A → Dict String A
merge old [] = old
merge old ((k, v) ∷ new) = merge (put k v old) new

-- `_section` over the merged dict, with the defaults of the section.
unfoldable pub section : Dict String Yaml → Section → String → Config StoreConfig
unfolding merge
section merged defaults name =
    let given : Yaml = elim (get name merged) [ none ↦ mapping [] | some y ↦ y ] in
    elim given [
      | no_mapping ↦ type_error
      | mapping options ↦
          let all = merge defaults options in
          elim (get "type" all) [
            | none ↦ key_error
            | some t ↦ ok (record { store_type = t; options = remove "type" all })
          ]
    ]

abbrev pub default_config : Dict String Yaml
default_config =
    ("offline_store", mapping default_offline)
    ∷ ("online_store", mapping default_online)
    ∷ ("registry", mapping default_registry)
    ∷ []

unfoldable pub from_dict : Dict String Yaml → Config FeatureStoreConfig
unfolding section
from_dict raw = do
  offline ← section (merge default_config raw) default_offline "offline_store"
  online ← section (merge default_config raw) default_online "online_store"
  registry ← section (merge default_config raw) default_registry "registry"
  ok (record { offline_store = offline; online_store = online; registry = registry })

-- `load`: `none` is a path where no file is; `yaml.safe_load(f) or {}` is what the file holds.
unfoldable pub load : Option (Dict String Yaml) → Config FeatureStoreConfig
unfolding from_dict
load none = from_dict []
load (some raw) = from_dict raw

pub data OfflineBackend : Type 0 where
  parquet : Value → OfflineBackend

pub data OnlineBackend : Type 0 where
  -- path and TTL; host, port and TTL
  sqlite : Value → Value → OnlineBackend
  redis : Value → Value → Value → OnlineBackend

abbrev pub is_text : String → Value → Bool
is_text s (text t) = t == s
is_text s (number n) = false
is_text s other = false

-- The module of the DuckDB store imports a name that base.py does not define.
unfoldable pub build_offline_store : StoreConfig → Config OfflineBackend
unfolding get_option
build_offline_store cfg =
    if is_text "parquet" cfg.store_type
    then ok (parquet (get_option cfg "path" (text "./data/offline")))
    else if is_text "duckdb" cfg.store_type
    then import_error
    else value_error

unfoldable pub build_online_store : StoreConfig → Config OnlineBackend
unfolding get_option
build_online_store cfg =
    if is_text "sqlite" cfg.store_type
    then ok (
        sqlite (get_option cfg "path" (text "./data/online.db"))
          (get_option cfg "ttl_hours" (number 24)))
    else if is_text "redis" cfg.store_type
    then ok (
        redis (get_option cfg "host" (text "localhost")) (get_option cfg "port" (number 6_379))
          (get_option cfg "ttl_hours" (number 24)))
    else value_error
