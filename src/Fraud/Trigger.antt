-- ===== src/Fraud/Trigger.antt =====
-- src/ml_platform/fraud/monitor/alerting.py: `DriftTrigger`, which counts consecutive drifted
-- windows, with the state file that lets the count survive a restart.
pub mod Streak
use ml_monitor.Prelude.{
  ℕ, ◌+◌, Bool, true, false, not, ◌&&◌, Option, none, some, if◌then◌else◌, leb, Floats,
}

-- What `data.get("consecutive", 0)` finds: nothing, a number, or a value that `int` refuses.
pub data Field : Type 0 where
  absent : Field
  number : ℕ → Field
  malformed : Field

-- drift_state.json: not readable or not JSON; JSON that is no object; an object.
pub data StateFile : Type 0 where
  unreadable : StateFile
  not_object : StateFile
  object : Field → Option Bool → StateFile

pub data LoadError : Type 0 where
  attribute_error : LoadError

pub data Loaded (A : Type 0) : Type 0 where
  ok : A → Loaded A
  raise : LoadError → Loaded A

pub record Decision : Type 0 where
  pub drifted : Bool
  pub consecutive : ℕ
  pub should_alert : Bool
  pub recovered : Bool
  pub should_retrain : Bool

module _ (fl : Floats) where
  open fl use {Float, le}

  pub record Trigger : Type 0 where
    pub threshold : Float
    pub required_windows : ℕ
    pub consecutive : ℕ
    pub alerted : Bool
    pub file : StateFile

  -- `_load`: an unreadable state leaves the object as it is.
  unfoldable pub load : Trigger → Loaded Trigger
  load t = elim t.file [
    | unreadable ↦ ok t
    | not_object ↦ raise attribute_error
    | object c a ↦
        let alerted : Bool = elim a [ none ↦ false | some b ↦ b ] in
        elim c [
          | absent ↦ ok (record t { consecutive = 0; alerted = alerted })
          | number n ↦ ok (record t { consecutive = n; alerted = alerted })
          | malformed ↦ ok t
        ]
  ]

  -- `__init__`, over the file that it finds.
  unfoldable pub init : StateFile → Float → ℕ → Loaded Trigger
  unfolding load
  init file threshold required_windows = load (record {
    threshold = threshold;
    required_windows = required_windows;
    consecutive = 0;
    alerted = false;
    file = file;
  })

  -- `_save`
  unfoldable pub save : Trigger → Trigger
  save t = record t { file = object (number t.consecutive) (some t.alerted) }

  -- `drift_share is not None and drift_share >= self.threshold`
  unfoldable pub is_drifted : Trigger → Option Float → Bool
  is_drifted t none = false
  is_drifted t (some share) = le t.threshold share

  unfoldable pub observe : Trigger → Option Float → Trigger × Decision
  unfolding is_drifted save
  observe t drift_share =
      let drifted = is_drifted t drift_share in
      let consecutive = if drifted then t.consecutive + 1 else 0 in
      let fires = leb t.required_windows consecutive && not t.alerted in
      let clears = not drifted && t.alerted in
      let should_alert = fires in
      let recovered = if fires then false else clears in
      let alerted = if fires then true else if clears then false else t.alerted in
      (
        save (record t { consecutive = consecutive; alerted = alerted }),
        record {
          drifted = drifted;
          consecutive = consecutive;
          should_alert = should_alert;
          recovered = recovered;
          should_retrain = alerted;
        },
      )
