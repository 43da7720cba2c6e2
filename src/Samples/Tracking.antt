-- ===== src/Samples/Tracking.antt =====
-- A model registry that keeps the artifacts and the stage of each version, the newest first.
use mathlib.Core.List.{Memᴰ}
use ml_monitor.Prelude.{
  ℕ, ◌<◌, ◌≡◌, refl, String, Bool, true, false, Option, none, some, List, [], ◌∷◌, arith, length,
  ◌==◌, nat_eq, string_eq, eq_iff, if◌then◌else◌, inl, inr, Option-cases,
}
use ml_monitor.Samples.Fixed.{Fixed}
use ml_monitor.Fraud.Registry.{Artifact, Mlflow}
use ml_monitor.Fraud.Registry.Laws.{MlflowLaws}

abbrev pub Tracked : Type 0
Tracked = List (List (String × Artifact Fixed) × Option String)

abbrev is_at : String → Option String → Bool
is_at stage none = false
is_at stage (some s) = s == stage

abbrev listed : Tracked → List (ℕ × ℕ)
listed [] = []
listed (e ∷ s) = (length s, length s) ∷ listed s

abbrev latest : String → Tracked → List (ℕ × ℕ)
latest stage [] = []
latest stage (e ∷ s) = if is_at stage e.1 then (length s, length s) ∷ [] else latest stage s

abbrev artifacts : ℕ → Tracked → List (String × Artifact Fixed)
artifacts v [] = []
artifacts v (e ∷ s) = if v == length s then e.0 else artifacts v s

abbrev stage_after : ℕ → String → Bool → ℕ → Option String → Option String
stage_after v stage archive n old =
    if v == n then some stage else if archive then (if is_at stage old then none else old) else old

abbrev transition : ℕ → String → Bool → Tracked → Tracked
transition v stage archive [] = []
transition v stage archive (e ∷ s) =
    (e.0, stage_after v stage archive (length s) e.1) ∷ transition v stage archive s

abbrev pub mlflow : Mlflow Fixed
mlflow = record {
  State = Tracked;
  Version = ℕ;
  Source = ℕ;
  text = λ v. "1";
  register_model = λ files s. ((length s, length s), (files, none) ∷ s);
  search_model_versions = listed;
  get_latest_versions = latest;
  download_artifacts = artifacts;
  transition_model_version_stage = transition;
}

latest-lt :
    (stage : String) (s : Tracked) (v : ℕ × ℕ) (older : List (ℕ × ℕ))
    → latest stage s ≡ v ∷ older
    → v.1 < length s
latest-lt stage [] v older h = absurd (cc h)
latest-lt stage (e ∷ s) v older h = ground (arith, h, latest-lt stage s v older)

length-transition :
    (v : ℕ) (stage : String) (s : Tracked) → length (transition v stage true s) ≡ length s
length-transition v stage [] = refl
length-transition v stage (e ∷ s) = ground (arith, length-transition v stage s)

listed-lt : (v : ℕ × ℕ) (s : Tracked) → Memᴰ v (listed s) → v.0 < length s
listed-lt v [] h = elim h [ ]
listed-lt v (e ∷ s) (Memᴰ.head same) = ground (arith, same)
listed-lt v (e ∷ s) (Memᴰ.tail more) = ground (arith, listed-lt v s more)

transition_moves_lem :
    (v : ℕ × ℕ) (stage : String) (s : Tracked)
    → Memᴰ v (listed s)
    → latest stage (transition v.0 stage true s) ≡ v ∷ []
transition_moves_lem v stage [] h = elim h [ ]
transition_moves_lem v stage (e ∷ s) (Memᴰ.head same) =
    ground (arith, same, length-transition v.0 stage s, eq_iff stage stage)
transition_moves_lem v stage (e ∷ s) (Memᴰ.tail more) =
    let older = listed-lt v s more in
    let rest = transition_moves_lem v stage s more in
    elim (Option-cases e.1) [
      | inl bare ↦ ground (arith, older, rest, bare)
      | inr (old, at) ↦ ground (arith, older, rest, at)
    ]

transition_keeps_lem :
    (v source : ℕ) (stage : String) (s : Tracked)
    → artifacts source (transition v stage true s) ≡ artifacts source s
transition_keeps_lem v source stage [] = refl
transition_keeps_lem v source stage (e ∷ s) =
    ground (arith, length-transition v stage s, transition_keeps_lem v source stage s)

pub mlflow_laws : MlflowLaws mlflow
mlflow_laws = record {
  register_unstaged = λ files stage s active. refl;
  register_keeps = λ files stage s v older h. ground (arith, latest-lt stage s v older h);
  register_stores = λ files s. ground arith;
  register_listed = λ files s. Memᴰ.head refl;
  transition_moves = λ v stage s active. transition_moves_lem v stage s;
  transition_keeps = λ v source stage s active. transition_keeps_lem v source stage s;
}
