-- ===== src/Samples/Users.antt =====
-- A feature store with one group of users, with natural numbers as values.
use ml_monitor.Prelude.{
  ◌+◌, ℕ, true, false, Option, none, some, String, List, [], ◌∷◌, ◌++◌, length, ◌==◌, string_eq,
  leb, if◌then◌else◌,
}
use ml_monitor.Prelude.Dict.{get}
use ml_monitor.Samples.Fixed.{fixed}
use ml_monitor.Features.Frame.{Frame, Row}
use ml_monitor.Features.Registry.{Feature, FeatureRegistry, Group, TagText, GroupRow}
use ml_monitor.Features.Store.Serving.{Queries}
use ml_monitor.Features.Store.{Libraries, FeatureStore}
use ml_monitor.Features.PitJoin.{Pandas}

abbrev pub tag_text : TagText
tag_text = record { dumps = λ tags. "[]"; loads = λ text. [] }

abbrev pub age : Feature
age = record { name = "age"; dtype = "int64"; description = "" }

abbrev pub registry : FeatureRegistry ℕ
registry = record {
  entities = [];
  feature_groups = [];
  features = [];
  ingestion_log = [];
  next_ingestion = 1;
}

abbrev pub columns : List String
columns = "entity_id" ∷ "event_timestamp" ∷ "age" ∷ []

abbrev pub library : Libraries ℕ ℕ
library = record {
  tag_text = tag_text;
  dtypes = record {
    is_na = λ v. false;
    is_integer = λ vs. true;
    is_float = λ vs. false;
    is_bool = λ vs. false;
    is_object = λ vs. false;
  };
  scan_features = λ fs. fs;
  scan_online = λ rows. rows;
  sort_values = λ rows. rows;
  column = λ df name. some (30 ∷ []);
  profile = λ df names. length names;
  write_parts = λ old new. old ++ new;
}

abbrev pub row : String → ℕ → Row ℕ
row e t = record { entity_id = e; event_timestamp = t; features = ("age", t) ∷ [] }

abbrev pub group_row : GroupRow
group_row = record {
  entity_name = "user";
  ttl_hours = some 24;
  online = false;
  offline = true;
  tags = "[]";
  created_at = 7;
}

abbrev pub group : Group
group = record {
  name = "users";
  entity_name = "user";
  ttl_hours = some 24;
  online = false;
  offline = true;
  tags = [];
  created_at = 7;
  features = age ∷ [];
}

abbrev pub store : FeatureStore fixed library
store = record {
  registry = record registry {
    feature_groups = ("users", group_row) ∷ [];
    features = ("users", age) ∷ [];
  };
  offline = ("users", row "u1" 1 ∷ row "u1" 3 ∷ []) ∷ [];
  online = record { default_ttl_hours = 24; table = [] };
}

abbrev pub frame : Frame ℕ
frame = record { columns = columns; rows = row "u2" 5 ∷ [] }

abbrev pub match : List (Row ℕ) → String → ℕ → Option (Row ℕ)
match [] e t = none
match (r ∷ rows) e t =
    if r.entity_id == e then if leb r.event_timestamp t then some r else none else none

abbrev pub pandas : Pandas ℕ
pandas = record {
  sort_labels = λ rows. rows;
  sort_features = λ rows. rows;
  asof = match;
  cell = λ name r. get name r.features;
  column_name = λ group name. name;
  zero = 0;
  sorted_unique = λ xs. xs;
}

abbrev pub queries : Queries ℕ ℕ
queries = record {
  order_names = λ names. names;
  like = λ keyword text. keyword == text;
  order_desc = λ rows. rows;
  feature_cols_of = λ rows. "age" ∷ [];
  batch_time = λ now i. now + i;
}

-- The group of users, with the online store on.
abbrev pub online_store : FeatureStore fixed library
online_store = record store {
  registry = record (store.registry) {
    feature_groups = ("users", record group_row { online = true }) ∷ [];
  };
}
