-- ===== src/Coverage/Tests.antt =====
-- One clock walked by hand.
use comply_roll.Common.{
  ℕ, ◌+◌, ◌*◌, ◌≡◌, refl, true, false, some, none, ◌≤◌, List, [], ◌∷◌, All, Any, ◌⊎◌, arith, String,
}
use comply_roll.Common.Order.{nat_order}
use comply_roll.Coverage.Clock.{ClockKey, mvx_rule}
use comply_roll.Common.Sort.{Ascending}
use comply_roll.Coverage.Evidence.{Anchor, CoverageEvidence, EvidenceKind, anchors_of}
use comply_roll.Coverage.Evidence.Anchoring.{anchors_of_lem, evidence_at, least_at}
use comply_roll.Coverage.Derive.{summary}
use comply_roll.Coverage.Derive.Summaries.{summary_lem, reading, clocks_under}
use comply_roll.Coverage.Projection.{RuleSummary}
use comply_roll.Coverage.Promises.{run-records, run-windows, run-current, run-stale, run-returns}
use comply_roll.Coverage.Run.{
  Ran, run, run_from, walk, reaching, closing, lapsing, finish, until, drop, last_of, window_of,
  clock_of, make_window, is_lapsed, status_of,
}
use comply_roll.Coverage.Run.Gaps.{Covers, InGap}
use comply_roll.Coverage.Run.Split.{InTimeOrder}
use comply_roll.Coverage.Run.Windows.{IsFaithful}
use comply_roll.Coverage.Window.{
  CoverageClock, CoverageStatus, CoverageWindow, check_window, check_clock, check_anchor,
}
use comply_roll.Errors.{ok}
use comply_roll.Instant.{day, advance}
use comply_roll.Models.{ResourceRef, ObservationDisposition}
use comply_roll.Policy.{
  CertificationClass, CertificationType, CertificationPath, CertificationProfile, PolicyProvenance,
  PolicyDeadline, RuleForce, SelectedPolicy, SelectedRule,
}
use comply_roll.Policy.Calendar.Utc.{utc_zone}
use comply_roll.Policy.Deadlines.{coverage_deadline, deadline_for_rule, find_rule, deadline_under}
use comply_roll.Policy.Timeframe.{
  RuleTimeframe, TimeframeUnit, deadline_from, decimal_timedelta, whole,
}

abbrev profile : CertificationProfile
profile = record {
  certification_class = CertificationClass.b;
  certification_type = CertificationType.twenty_x;
  certification_path = CertificationPath.program;
  affected_party = "Providers";
  calendar_timezone = "UTC";
  calendar_zone = utc_zone;
}

abbrev provenance : PolicyProvenance
provenance = record {
  repository = "FedRAMP/rules";
  commit = "c0ffee";
  dataset_version = "1";
  dataset_last_updated = "2026-06-24";
  dataset_sha256 = "00";
}

abbrev three_days : RuleTimeframe
three_days = record { amount = record { coefficient = 3; places = 0 }; unit = TimeframeUnit.days }

abbrev mvx : SelectedRule
mvx = record {
  rule_id = mvx_rule;
  document_id = "VDR";
  subset_id = "TFR";
  source_scope = "all";
  name = "Machine verification";
  statement = "Verify machine-based resources.";
  force = RuleForce.must;
  timeframe = some three_days;
  pain_timeframes = [];
}

abbrev policy : SelectedPolicy
policy = record { profile = profile; provenance = provenance; rules = mvx ∷ [] }

abbrev host : ResourceRef
host = record { resource_id = "web-1"; resource_type = "host" }

abbrev key : ClockKey
key = record { rule_id = mvx_rule; resource = some host; sample_group = none }

abbrev scanned : ℕ → Anchor
scanned at = record {
  at = at;
  evidence = record {
    kind = EvidenceKind.observation;
    resource = host;
    at = some at;
    reference = "obs";
    disposition = some ObservationDisposition.pass;
  };
  stand_in = none;
}

abbrev due_from : ℕ → PolicyDeadline
due_from at = record {
  rule_id = mvx_rule;
  rule_name = "Machine verification";
  force = RuleForce.must;
  start_at = at * day;
  due_at = at * day + 3 * day;
  timeframe = three_days;
  profile = profile;
  provenance = provenance;
  description = "";
}

abbrev scans : List Anchor
scans = scanned (10 * day) ∷ scanned (20 * day) ∷ []

abbrev lapsed_ran : Ran
lapsed_ran = record {
  clock =
      clock_of key RuleForce.must CoverageStatus.stale
        (record { anchor = some (scanned (20 * day)); deadline = due_from 20; windows = [] });
  windows =
      window_of key (some (scanned (10 * day))) (due_from 10) (some (20 * day))
      ∷ window_of key (some (scanned (20 * day))) (due_from 20) none
      ∷ [];
}

deadline_20 : coverage_deadline policy mvx_rule (20 * day) ≡ ok (due_from 20)
unfolding coverage_deadline deadline_for_rule find_rule deadline_under deadline_from
    decimal_timedelta whole advance
deadline_20 = refl

lapsed_runs : run key RuleForce.must policy (30 * day) (9 * day) none scans true ≡ ok lapsed_ran
unfolding run run_from walk reaching closing lapsing finish until drop last_of make_window is_lapsed
    status_of check_window check_clock check_anchor coverage_deadline deadline_for_rule find_rule
    deadline_under deadline_from decimal_timedelta whole advance
lapsed_runs = refl

abbrev kept_ran : Ran
kept_ran = record {
  clock =
      clock_of key RuleForce.must CoverageStatus.current
        (record { anchor = some (scanned (20 * day)); deadline = due_from 20; windows = [] });
  windows = window_of key (some (scanned (10 * day))) (due_from 10) (some (20 * day)) ∷ [];
}

kept_runs : run key RuleForce.must policy (21 * day) (9 * day) none scans true ≡ ok kept_ran
unfolding run run_from walk reaching closing lapsing finish until drop last_of make_window is_lapsed
    status_of check_window check_clock check_anchor coverage_deadline deadline_for_rule find_rule
    deadline_under deadline_from decimal_timedelta whole advance
kept_runs = refl

-- A resource that was never examined is missing, and its lapse runs from the declaration.
never_runs :
    run key RuleForce.must policy (21 * day) (10 * day) none [] false
    ≡ ok (record {
      clock =
          clock_of key RuleForce.must CoverageStatus.missing
            (record { anchor = none; deadline = due_from 10; windows = [] });
      windows = window_of key none (due_from 10) none ∷ [];
    })
unfolding run run_from walk reaching closing lapsing finish until drop last_of make_window is_lapsed
    status_of check_window check_clock check_anchor coverage_deadline deadline_for_rule find_rule
    deadline_under deadline_from decimal_timedelta whole advance
never_runs = refl

ordered : InTimeOrder scans
ordered = ((refl, tt), (tt, tt))

run-records_example :
    Covers (coverage_deadline policy mvx_rule) (15 * day) (9 * day)
    ⊎ Any (λ (a : Anchor). Covers (coverage_deadline policy mvx_rule) (15 * day) a.at) scans
    ⊎ Any (InGap (15 * day)) lapsed_ran.windows
run-records_example =
    run-records policy key RuleForce.must (30 * day) (9 * day) none scans true ordered lapsed_ran
      (15 * day) lapsed_runs (omega arith) (omega arith) tt

run-windows_example : All (IsFaithful (30 * day) scans) lapsed_ran.windows
run-windows_example =
    run-windows policy key RuleForce.must (30 * day) (9 * day) none scans true ordered lapsed_ran
      (omega arith) lapsed_runs

run-current_example :
    (true ≡ true)
    × Any
        (λ (a : Anchor).
          (d : PolicyDeadline) × (coverage_deadline policy mvx_rule a.at ≡ ok d)
          × (21 * day ≤ d.due_at)
          × (kept_ran.clock.deadline ≡ some d))
        scans
run-current_example =
    run-current policy key RuleForce.must (21 * day) (9 * day) none scans true ordered kept_ran
      (omega arith) kept_runs refl tt

run-stale_example :
    (true ≡ true)
    × Any
        (λ (w : CoverageWindow).
          (w.resumed_at ≡ none) × (lapsed_ran.clock.deadline ≡ some w.deadline))
        lapsed_ran.windows
run-stale_example =
    run-stale policy key RuleForce.must (30 * day) (9 * day) none scans true ordered lapsed_ran
      (omega arith) lapsed_runs refl

deadline_9 : coverage_deadline policy mvx_rule (9 * day) ≡ ok (due_from 9)
unfolding coverage_deadline deadline_for_rule find_rule deadline_under deadline_from
    decimal_timedelta whole advance
deadline_9 = refl

deadline_10 : coverage_deadline policy mvx_rule (10 * day) ≡ ok (due_from 10)
unfolding coverage_deadline deadline_for_rule find_rule deadline_under deadline_from
    decimal_timedelta whole advance
deadline_10 = refl

found_mvx : find_rule policy.rules mvx_rule ≡ ok mvx
unfolding find_rule
found_mvx = refl

run-returns_example :
    (ran : Ran) × (run key RuleForce.must policy (30 * day) (9 * day) none scans true ≡ ok ran)
run-returns_example =
    run-returns policy key RuleForce.must (30 * day) (9 * day) none scans true ordered mvx found_mvx
      refl (refl, (refl, tt)) ((due_from 10, deadline_10), ((due_from 20, deadline_20), tt))
      (due_from 9, deadline_9)

abbrev seen : String → CoverageEvidence
seen reference = record {
  kind = EvidenceKind.observation;
  resource = host;
  at = some (10 * day);
  reference = reference;
  disposition = some ObservationDisposition.pass;
}

anchors_of_lem_example :
    Ascending
      (λ (a : Anchor). a.at)
      (anchors_of ((10 * day, seen "obs-2") ∷ (10 * day, seen "obs-1") ∷ []))
    × (evidence_at
          (10 * day)
          (anchors_of ((10 * day, seen "obs-2") ∷ (10 * day, seen "obs-1") ∷ []))
        ≡ least_at (10 * day) ((10 * day, seen "obs-2") ∷ (10 * day, seen "obs-1") ∷ []))
anchors_of_lem_example =
    anchors_of_lem ((10 * day, seen "obs-2") ∷ (10 * day, seen "obs-1") ∷ []) (10 * day)

abbrev rows_of : List CoverageClock
rows_of = lapsed_ran.clock ∷ kept_ran.clock ∷ []

summary_lem_example :
    (row : RuleSummary) × (summary mvx_rule RuleForce.must rows_of ≡ ok row)
    × (row.rule_id ≡ mvx_rule)
    × (row.expected ≡ clocks_under mvx_rule rows_of)
    × (row.current ≡ reading mvx_rule 0 rows_of)
    × (row.stale ≡ reading mvx_rule 1 rows_of)
    × (row.missing ≡ reading mvx_rule 2 rows_of)
    × (row.unanchored ≡ reading mvx_rule 3 rows_of)
    × (row.undetermined ≡ reading mvx_rule 4 rows_of)
summary_lem_example = summary_lem mvx_rule RuleForce.must rows_of
