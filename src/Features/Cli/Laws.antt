-- ===== src/Features/Cli/Laws.antt =====
-- The dry run `validate` and the command `ingest` decide alike.
use ml_monitor.Prelude.{
  ℕ, ◌≡◌, sym, ◌∙◌, String, none, some, List, [], arith, string_eq, if◌then◌else◌, Option-cases,
  List-cases, Bool-cases, inl, inr, Floats,
}
use ml_monitor.Features.Frame.{Frame, Row}
use ml_monitor.Features.Registry.{Group}
use ml_monitor.Features.Schema.{validate_schema, check_quality}
use ml_monitor.Features.Store.{
  raise, StoreError, not_registered, key_error, Libraries, FeatureStore, group_of, ingest,
  online_write, offline_write, online_rows, latest_per_entity, feature_names,
}
use ml_monitor.Features.Store.Groups.{Outcome-cases}
use ml_monitor.Features.Store.Serving.{Queries}
use ml_monitor.Features.PitJoin.{Pandas}
use ml_monitor.Features.Cli.{
  no_such_group, ingested, ingest_failed, validation_failed, valid, Exit, exit_0, exit_1, traceback,
  ingest_command, validate,
}

-- What the gates say of a frame.
pub data Verdict : Type 0 where
  accepted unregistered other : Verdict
  refused : StoreError → Verdict

abbrev pub verdict_of_error : StoreError → Verdict
verdict_of_error not_registered = unregistered
verdict_of_error key_error = accepted
verdict_of_error e = other

-- A KeyError comes after both gates.
abbrev pub verdict : {S : Type 0} → Exit S → Verdict
verdict (exit_0 (ingested n group)) = accepted
verdict (exit_0 (valid n group)) = accepted
verdict (exit_0 line) = other
verdict (exit_1 (ingest_failed e)) = refused e
verdict (exit_1 (validation_failed e)) = refused e
verdict (exit_1 (no_such_group group)) = unregistered
verdict (exit_1 line) = other
verdict (traceback e) = verdict_of_error e

module _ (fl : Floats) {S V : Type 0} (lib : Libraries S V) (q : Queries S V) (pd : Pandas V) where
  online_write-error :
      (g : Group) (rows : List (Row V)) (now : ℕ) (fs : FeatureStore fl lib) (e : StoreError)
      → online_write fl lib g rows now fs ≡ raise e
      → e ≡ key_error
  unfolding online_write
  online_write-error g rows now fs e h =
      elim (Option-cases (online_rows (feature_names g) (latest_per_entity fl lib rows))) [
        | inl bad ↦ ground (arith, bad, h)
        | inr (out, good) ↦ absurd (ground (arith, good, h))
      ]

  -- Both gates passed: all that can still be raised is a KeyError.
  ingest-error :
      (group : String) (df : Frame V) (now : ℕ) (fs : FeatureStore fl lib) (g : Group)
      (e : StoreError)
      → group_of fl lib group fs ≡ some g
      → validate_schema df.columns g.features ≡ none
      → check_quality fl lib.dtypes (lib.column df) g.features ≡ []
      → ingest fl lib group df now fs ≡ raise e
      → e ≡ key_error
  unfolding ingest
  ingest-error group df now fs g e known schema quality h =
      let fs1 : FeatureStore fl lib =
        if g.offline then offline_write fl lib group df.rows fs else fs in
      elim (Bool-cases g.online) [
        | inr off ↦ absurd (ground (arith, known, schema, quality, off, h))
        | inl on ↦ elim (Outcome-cases (online_write fl lib g df.rows now fs1)) [
          | inl (x, bad) ↦
              let same : x ≡ e = ground (arith, known, schema, quality, on, bad, h) in
              sym same ∙ online_write-error g df.rows now fs1 x bad
          | inr (a, good) ↦ absurd (ground (arith, known, schema, quality, on, good, h))
        ]
      ]

  -- The dry run `validate` says of every group and frame what the gates of an ingest say of it: that
  -- they accept it, where a KeyError after the gates counts as accepted, that one refuses it with that
  -- error, or that the group is not registered.
  pub verdict-validate :
      (group : String) (df : Frame V) (now : ℕ) (fs : FeatureStore fl lib)
      → verdict (ingest_command fl lib q pd group df now fs).0
        ≡ verdict (validate fl lib q pd group df fs)
  unfolding validate ingest_command ingest
  verdict-validate group df now fs = elim (Option-cases (group_of fl lib group fs)) [
    | inl unknown ↦ ground (arith, unknown)
    | inr (g, known) ↦ elim (Option-cases (validate_schema df.columns g.features)) [
      | inr (problem, bad) ↦ ground (arith, known, bad)
      | inl schema ↦ elim (List-cases (check_quality fl lib.dtypes (lib.column df) g.features)) [
        | inr (p, rest, bad) ↦ ground (arith, known, schema, bad)
        | inl quality ↦ elim (Outcome-cases (ingest fl lib group df now fs)) [
          | inl (e, raised) ↦
              ground (arith, known, schema, quality, raised, ingest-error group df now fs g e)
          | inr (((n, stats), fs'), done) ↦ ground (arith, known, schema, quality, done)
        ]
      ]
    ]
  ]
