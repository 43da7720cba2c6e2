-- ===== src/Monitoring/Concept/Tests.antt =====
-- The theorems on the concept drift detectors, each applied to concrete values.
use ml_monitor.Prelude.{
  ℕ, ◌≡◌, refl, true, false, some, List, [], ◌∷◌, ◌++◌, arith, map, length, min, take, drop,
  take_last, get_elem?, string_eq, nat_eq, pair_eq, ◌+◌,
}
use ml_monitor.Samples.Fixed.{fixed, fixed_ratio}
use ml_monitor.Monitoring.Concept.Ddm as Ddm
use ml_monitor.Monitoring.Concept.Ddm.Laws.{decisions, IsRare, decisions-IsRare}
use ml_monitor.Monitoring.Concept.Ddm.ErrorFree.{ZeroLaws, replicate, decisions-error_free}
use ml_monitor.Monitoring.Concept.Adwin.{Bucket, Rows, insert, flat, counts, drop_oldest}
use ml_monitor.Monitoring.Concept.Adwin.Histogram.{IsHistogram, insert-IsHistogram}
use ml_monitor.Monitoring.Concept.Adwin.Order.{
  join, values, chronicle, insert_all, chronicle-drop_oldest,
}
use ml_monitor.Monitoring.Concept.Detect.{detect_concept_drift, is_some, rate}
use ml_monitor.Monitoring.Concept.Detect.Laws.{first_true, if_decided, detect_concept_drift-ddm}

abbrev ddm : Ddm.Ddm fixed
ddm = record {
  warning_level = fixed_ratio 2 1;
  drift_level = fixed_ratio 3 1;
  min_n = 3;
  n = 0;
  p = fixed_ratio 1 1;
  s = fixed_ratio 0 1;
  p_min = fixed.inf;
  s_min = fixed.inf;
  drift_detected = false;
  warning_detected = false;
}

decisions-IsRare_example :
    IsRare fixed 3 0
      (decisions fixed (fixed_ratio 0 1 ∷ fixed_ratio 1 1 ∷ fixed_ratio 1 1 ∷ []) ddm)
decisions-IsRare_example =
    decisions-IsRare fixed (fixed_ratio 0 1 ∷ fixed_ratio 1 1 ∷ fixed_ratio 1 1 ∷ []) ddm

abbrev zero_laws : ZeroLaws fixed
zero_laws = record {
  first_p = refl;
  next_p = λ n. refl;
  zero_square = λ n. refl;
  zero_lt = refl;
  zero_sqrt = refl;
  zero_sum = refl;
  below_inf = refl;
  zero_le = refl;
}

decisions-error_free_example :
    get_elem?
      (decisions fixed
        (replicate 30 (fixed_ratio 0 1) ++ [])
        (Ddm.init fixed (fixed_ratio 2 1) (fixed_ratio 3 1) 30))
      29
    ≡ some true
decisions-error_free_example =
    decisions-error_free fixed zero_laws (fixed_ratio 2 1) (fixed_ratio 3 1) 29 [] refl

abbrev one : Bucket ℕ
one = record { count = 1; total = 4; variance = 0 }

insert-IsHistogram_example :
    (rows' : Rows ℕ) × (insert 0 (λ x y. x + y) 1 7 ((one ∷ []) ∷ []) ≡ some rows')
    × IsHistogram 1 1 rows'
    × (counts (flat 0 (λ x y. x + y) rows') ≡ counts (flat 0 (λ x y. x + y) ((one ∷ []) ∷ [])) + 1)
insert-IsHistogram_example =
    insert-IsHistogram 0 (λ x y. x + y) 1 7 (one ∷ []) [] (omega arith)
      (omega arith, (refl, tt), tt)

abbrev item : List ℕ → Bucket (List ℕ)
item xs = record { count = length xs; total = xs; variance = [] }

abbrev newer : List (Bucket (List ℕ))
newer = item (7 ∷ []) ∷ item (8 ∷ []) ∷ []

abbrev older : Rows (List ℕ)
older = (item (4 ∷ 5 ∷ []) ∷ []) ∷ []

built : insert_all 2 (4 ∷ 5 ∷ 7 ∷ 8 ∷ []) ([] ∷ []) ≡ some (newer ∷ older)
unfolding insert_all insert
built = refl

chronicle-drop_oldest_example :
    (4 ∷ 5 ∷ 7 ∷ 8 ∷ [] ≡ chronicle older ++ (values (take 1 newer) ++ values (drop 1 newer)))
    × (chronicle (drop_oldest [] join (counts (take 1 newer)) (newer ∷ older))
        ≡ chronicle older ++ values (drop 1 newer))
chronicle-drop_oldest_example =
    chronicle-drop_oldest 2 1 (4 ∷ 5 ∷ 7 ∷ 8 ∷ []) newer older (omega arith) built (omega arith)

detect_concept_drift-ddm_example :
    let all : List ℕ = 0 ∷ 1 ∷ [] in
    let start = Ddm.init fixed (fixed_ratio 2 1) (fixed_ratio 3 1) 30 in
    let errors = map (λ x. fixed_ratio x 1) all in
    let point = first_true 0 (decisions fixed errors start) in
    detect_concept_drift fixed all "ddm" 30
    ≡ if_decided fixed errors (decisions fixed errors start) (record {
      drift_detected = is_some fixed point;
      drift_point_index = point;
      current_error_rate = some (rate fixed (take_last (min 30 (length all)) all));
      baseline_error_rate = some (rate fixed (take (min 30 (length all)) all));
      method = "ddm";
    })
detect_concept_drift-ddm_example = detect_concept_drift-ddm fixed 0 (1 ∷ []) 30 (omega arith)
