-- ===== src/Features/Config/Laws.antt =====
-- A configured option overrides its default, one by one.
use ml_monitor.Prelude.{
  ◌≡◌, refl, ◌∙◌, String, Bool, true, false, Option, none, some, [], ◌∷◌, arith, ◌==◌, string_eq,
  eq_iff, if◌then◌else◌, Option-cases, inl, inr,
}
use ml_monitor.Prelude.Dict.{Dict, get, put, remove, get-put, get-remove}
use ml_monitor.Features.Config.{
  Value, Section, Yaml, mapping, no_mapping, StoreConfig, FeatureStoreConfig, Config, ok,
  type_error, key_error, value_error, import_error, ◌>>=◌, merge, section, from_dict,
  default_offline, default_online, default_registry, default_config,
}

-- The value that `{**old, **new}` has for a key.
abbrev pub last_given : {A : Type 0} → String → Dict String A → Option A
last_given k [] = none
last_given k ((j, v) ∷ new) = elim (last_given k new) [
  | some w ↦ some w
  | none ↦ if j == k then some v else none
]

abbrev pub or_else : {A : Type 0} → Option A → Option A → Option A
or_else (some v) old = some v
or_else none old = old

get-merge :
    {A : Type 0} (k : String) (old new : Dict String A)
    → get k (merge old new) ≡ or_else (last_given k new) (get k old)
unfolding merge
get-merge k old [] = refl
get-merge k old ((j, v) ∷ new) = get-merge k (put j v old) new ∙ ground (arith, get-put j k v old)

-- The options that the file gives a section.
abbrev pub options_of : Option Yaml → Section
options_of (some (mapping options)) = options
options_of (some no_mapping) = []
options_of none = []

abbrev pub is_mapping : Option Yaml → Bool
is_mapping (some (mapping options)) = true
is_mapping (some no_mapping) = false
is_mapping none = true

-- A default is overridden by what the file gives under the section's name.
abbrev pub chosen : String → String → Section → Dict String Yaml → Option Value
chosen k name defaults raw =
    or_else (last_given k (options_of (last_given name raw))) (get k defaults)

-- The options of a section are those given over the defaults, and its type is taken out of them.
abbrev pub IsSection : String → Section → Dict String Yaml → StoreConfig → Type 0
IsSection name defaults raw cfg =
    (chosen "type" name defaults raw ≡ some cfg.store_type)
    × ((k : String)
        → get k cfg.options ≡ (if "type" == k then none else chosen k name defaults raw))

with_type_lem :
    (all : Section) (cfg : StoreConfig)
    → (elim (get "type" all) as (λ _. Config StoreConfig) [
      | none ↦ key_error
      | some t ↦ ok (record { store_type = t; options = remove "type" all })
    ])
      ≡ ok cfg
    → (get "type" all ≡ some cfg.store_type)
      × ((k : String) → get k cfg.options ≡ (if "type" == k then none else get k all))
with_type_lem all cfg h = elim (Option-cases (get "type" all)) [
  | inl absent ↦ absurd (ground (arith, absent, h))
  | inr (t, here) ↦
      let e : record { store_type = t; options = remove "type" all } ≡ cfg =
        ground (arith, here, h) in
      rw (← e) (here, λ k. get-remove "type" k all)
]

section_lem :
    (name : String) (defaults : Section) (raw : Dict String Yaml) (cfg : StoreConfig)
    → get name default_config ≡ some (mapping defaults)
    → ((k : String) → last_given k defaults ≡ get k defaults)
    → section (merge default_config raw) defaults name ≡ ok cfg
    → IsSection name defaults raw cfg
unfolding section
section_lem name defaults raw cfg known distinct h =
    let merged = get-merge name default_config raw in
    elim (Option-cases (last_given name raw)) [
      | inl absent ↦
          let (kind, rest) =
            with_type_lem (merge defaults defaults) cfg
              (ground (arith, merged, absent, known, h)) in
          (
            ground (arith, absent, kind, get-merge "type" defaults defaults, distinct "type"),
            λ k. rest k ∙ ground (arith, absent, get-merge k defaults defaults, distinct k),
          )
      | inr (no_mapping, bad) ↦ absurd (ground (arith, merged, bad, h))
      | inr (mapping options, given) ↦
          let (kind, rest) =
            with_type_lem (merge defaults options) cfg (ground (arith, merged, given, h)) in
          (
            ground (arith, given, kind, get-merge "type" defaults options),
            λ k. rest k ∙ ground (arith, given, get-merge k defaults options),
          )
    ]

-- A step that gave a value, from which the rest gave the result.
abbrev Goes : {A B : Type 0} → (A → Config B) → B → Config A → Type 0
Goes {A = A} rest result step = (given : A) × (rest given ≡ ok result) × (step ≡ ok given)

>>=-Goes :
    {A B : Type 0} (rest : A → Config B) (result : B) (step : Config A)
    → (step >>= rest) ≡ ok result
    → Goes rest result step
>>=-Goes rest result type_error h = absurd (cc h)
>>=-Goes rest result key_error h = absurd (cc h)
>>=-Goes rest result value_error h = absurd (cc h)
>>=-Goes rest result import_error h = absurd (cc h)
>>=-Goes rest result (ok given) h = (given, h, refl)

once_offline : (k : String) → last_given k default_offline ≡ get k default_offline
unfolding get
once_offline k = ground (arith, eq_iff "type" k, eq_iff "path" k, eq_iff "type" "path")

once_online : (k : String) → last_given k default_online ≡ get k default_online
unfolding get
once_online k = ground (
  arith,
  eq_iff "type" k,
  eq_iff "path" k,
  eq_iff "ttl_hours" k,
  eq_iff "type" "path",
  eq_iff "type" "ttl_hours",
  eq_iff "path" "ttl_hours",
)

once_registry : (k : String) → last_given k default_registry ≡ get k default_registry
unfolding get
once_registry k = ground (arith, eq_iff "type" k, eq_iff "path" k, eq_iff "type" "path")

-- A configuration that loads has in each of its three sections the options that the file gives over the
-- defaults of that section, one by one, and the type among them as the store's type.
pub from_dict-IsSection :
    (raw : Dict String Yaml) (c : FeatureStoreConfig)
    → from_dict raw ≡ ok c
    → IsSection "offline_store" default_offline raw c.offline_store
      × IsSection "online_store" default_online raw c.online_store
      × IsSection "registry" default_registry raw c.registry
unfolding from_dict get
from_dict-IsSection raw c h =
    let (offline, h1, first) =
      >>=-Goes _ _ (section (merge default_config raw) default_offline "offline_store") h in
    let (online, h2, second) =
      >>=-Goes _ _ (section (merge default_config raw) default_online "online_store") h1 in
    let (registry, h3, third) =
      >>=-Goes _ _ (section (merge default_config raw) default_registry "registry") h2 in
    let e : record { offline_store = offline; online_store = online; registry = registry } ≡ c =
      ground (arith, h3) in
    rw (← e) (
      section_lem "offline_store" default_offline raw offline refl (λ k. once_offline k) first,
      section_lem "online_store" default_online raw online refl (λ k. once_online k) second,
      section_lem "registry" default_registry raw registry refl (λ k. once_registry k) third,
    )
