-- ===== src/Coverage/Clock.antt =====
-- reports/coverage.py: `ClockKey` and the clock table of an inventory entry.
use Prim.Native.String.{◌++◌}
use mathlib.Core.List.{◌++◌ as append}
use comply_roll.Common.{
  not, String, Option, none, some, List, [], ◌∷◌, ◌==◌, bool_eqb, is_some, is_none, if◌then◌else◌,
}
use comply_roll.Common.Order.Text.{string_order}
use comply_roll.Common.Order.Tuple.{pair_order}
use comply_roll.Common.Sort.{sorted}
use comply_roll.Errors.{Result, ok, value_error, refuse_if, ◌>>=◌, ◌>>◌}
use comply_roll.Inventory.{InformationResource, Drift, ref_of}
use comply_roll.Models.{ResourceRef}
use comply_roll.Models.Text.{contains}
use comply_roll.Policy.Deadlines.{coverage_rule_ids}

abbrev pub mvx_rule : String
mvx_rule = "VDR-TFR-MVX"

abbrev pub nmv_rule : String
nmv_rule = "VDR-TFR-NMV"

abbrev pub pcd_rule : String
pcd_rule = "VDR-TFR-PCD"

abbrev pub pdd_rule : String
pdd_rule = "VDR-TFR-PDD"

abbrev pub psd_rule : String
psd_rule = "VDR-TFR-PSD"

abbrev pub drift_likelihood_unknown : String
drift_likelihood_unknown = "drift_likelihood_unknown"

pub record ClockKey : Type 0 where
  pub rule_id : String
  pub resource : Option ResourceRef
  pub sample_group : Option String

-- `ClockKey.__post_init__`
unfoldable pub check_clock_key : ClockKey → Result ClockKey
check_clock_key key = do
  refuse_if (not (contains key.rule_id coverage_rule_ids)) (value_error "rule_id")
  refuse_if (bool_eqb (is_none key.resource) (is_none key.sample_group)) (value_error "one subject")
  refuse_if (not (bool_eqb (is_some key.sample_group) (key.rule_id == psd_rule)))
      (value_error "sample group")
  ok key

group_subject : Option String → ResourceRef
group_subject none = record { resource_id = "sample-group/None"; resource_type = "logical" }
group_subject (some name) = record {
  resource_id = "sample-group/" ++ name;
  resource_type = "logical";
}

-- `ClockKey.subject`: a sample group reads as a logical resource.
subject_of : Option ResourceRef → Option String → ResourceRef
unfolding group_subject
subject_of none sample_group = group_subject sample_group
subject_of (some resource) sample_group = resource

unfoldable pub subject : ClockKey → ResourceRef
unfolding subject_of
subject key = subject_of key.resource key.sample_group

-- `ClockKey.context_key` and `coverage_label`
unfoldable pub context_key : ClockKey → String
unfolding subject
context_key key = (subject key).resource_type ++ (":" ++ (subject key).resource_id)

abbrev pub SortKey : Type 0
SortKey = String × (String × String)

unfoldable pub clock_sort_key : ClockKey → SortKey
unfolding subject
clock_sort_key key = (key.rule_id, ((subject key).resource_type, (subject key).resource_id))

pub record EntryClocks : Type 0 where
  pub clocks : List ClockKey
  pub warnings : List String

-- `ClockKey(rule_id, resource=ref)` and `ClockKey(PSD_RULE, sample_group=name)`
resource_clock : String → ResourceRef → Result ClockKey
unfolding check_clock_key
resource_clock rule_id ref =
    check_clock_key (record { rule_id = rule_id; resource = some ref; sample_group = none })

unfoldable pub group_clock : String → Result ClockKey
unfolding check_clock_key
group_clock name =
    check_clock_key (record { rule_id = psd_rule; resource = none; sample_group = some name })

-- Only False takes PCD; unknown drift takes PDD, the shorter window.
drift_rule : Option Drift → String
drift_rule (some Drift.unlikely) = pcd_rule
drift_rule _ = pdd_rule

drift_warnings : Option Drift → List String
drift_warnings (some Drift.unknown) = drift_likelihood_unknown ∷ []
drift_warnings _ = []

own_clocks : InformationResource → Result (List ClockKey)
unfolding resource_clock drift_rule
own_clocks entry =
    if entry.machine_based
    then (do
      mvx ← resource_clock mvx_rule (ref_of entry)
      drift ← resource_clock (drift_rule entry.drift_likely) (ref_of entry)
      ok (mvx ∷ drift ∷ []))
    else (do nmv ← resource_clock nmv_rule (ref_of entry); ok (nmv ∷ []))

group_clocks : Option String → Result (List ClockKey)
group_clocks none = ok []
group_clocks (some name) = do clock ← group_clock name; ok (clock ∷ [])

unfoldable pub entry_clocks : InformationResource → Result EntryClocks
unfolding own_clocks group_clocks drift_warnings
entry_clocks entry = do
  own ← own_clocks entry
  shared ← group_clocks entry.sample_group
  ok (record {
    clocks = sorted clock_sort_key (append own shared);
    warnings = if entry.machine_based then drift_warnings entry.drift_likely else [];
  })
