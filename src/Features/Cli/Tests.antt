-- ===== src/Features/Cli/Tests.antt =====
-- The theorem on the commands of the feature store, applied to concrete values.
use ml_monitor.Prelude.{◌≡◌}
use ml_monitor.Samples.Fixed.{fixed}
use ml_monitor.Samples.Users.{library, queries, pandas, frame, store}
use ml_monitor.Features.Cli.{ingest_command, validate}
use ml_monitor.Features.Cli.Laws.{verdict, verdict-validate}

verdict-validate_example :
    verdict (ingest_command fixed library queries pandas "users" frame 9 store).0
    ≡ verdict (validate fixed library queries pandas "users" frame store)
verdict-validate_example = verdict-validate fixed library queries pandas "users" frame 9 store
