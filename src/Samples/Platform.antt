-- ===== src/Samples/Platform.antt =====
-- A feature store, a monitor's libraries and rows of fraud features, with natural numbers as values.
use ml_monitor.Prelude.{
  ℕ, String, true, false, Option, none, some, List, [], ◌∷◌, ◌++◌, map, length, string_eq,
}
use ml_monitor.Prelude.Dict.{Dict, get}
use ml_monitor.Samples.Fixed.{Fixed, fixed, fixed_ratio}
use ml_monitor.Features.Frame.{Row}
use ml_monitor.Features.Registry.{TagText}
use ml_monitor.Features.Store.{Libraries, FeatureStore}
use ml_monitor.Fraud.Features.{feature_names}
use ml_monitor.Monitoring.DataDrift.{Column, Frame}
use ml_monitor.Monitoring.Store.{Json}
use ml_monitor.Monitoring.Monitor.{Message}
use ml_monitor.Monitoring.Monitor.Drift.{Pandas}

-- Tags whose text is that of the fraud group.
abbrev pub fraud_tags : TagText
fraud_tags = record { dumps = λ tags. "tags"; loads = λ text. "fraud" ∷ "streaming" ∷ [] }

abbrev pub library : Libraries ℕ ℕ
library = record {
  tag_text = fraud_tags;
  dtypes = record {
    is_na = λ v. false;
    is_integer = λ vs. true;
    is_float = λ vs. true;
    is_bool = λ vs. false;
    is_object = λ vs. false;
  };
  scan_features = λ fs. fs;
  scan_online = λ rows. rows;
  sort_values = λ rows. rows;
  column = λ df name. some (1 ∷ []);
  profile = λ df names. length names;
  write_parts = λ old new. old ++ new;
}

abbrev pub or_zero : Option ℕ → ℕ
or_zero none = 0
or_zero (some v) = v

abbrev pub column_of_cells : List (Option ℕ) → Column ℕ
column_of_cells cells = record { values = map or_zero cells; is_numeric = true; is_bool = false }

abbrev amounts : List (Dict String ℕ) → Frame ℕ
amounts rows = ("amount", column_of_cells (map (λ d. get "amount" d) rows)) ∷ []

abbrev pub pandas : Pandas Fixed ℕ
pandas = record {
  frame = amounts;
  is_castable = λ values. true;
  to_float = λ v. some (fixed_ratio v 1);
  spearmanr = λ df a b. none;
  sorted_set = λ xs. xs;
  field_name = λ i. "f";
  of_dict = λ d. 0;
}

abbrev pub text_json : Json ℕ
text_json = record { dumps = λ v. "0"; loads = λ text. 0 }

abbrev pub render : Message Fixed → String
render m = "drift"

-- A row with one value in every column of the fraud features.
abbrev pub fraud_row : ℕ → Dict String ℕ
fraud_row v = map (λ f. (f, v)) feature_names

abbrev pub history_row : String → ℕ → Row ℕ
history_row e t = record { entity_id = e; event_timestamp = t; features = fraud_row t }

abbrev pub empty_store : FeatureStore fixed library
empty_store = record {
  registry = record {
    entities = [];
    feature_groups = [];
    features = [];
    ingestion_log = [];
    next_ingestion = 1;
  };
  offline = [];
  online = record { default_ttl_hours = 24; table = [] };
}
