-- ===== src/Report.antt =====
-- internal/report/report.go: the trimmed VulnerabilityReport and the workload it belongs to.
pub mod Owner
pub mod Described
use trivy_epss_kev_exporter.Base.{
  Bool, true, false, ◌&&◌, ◌||◌, List, [], ◌∷◌, Option, none, some, Text, codes, text_discrete, ite,
  if◌then◌else◌,
}
use trivy_epss_kev_exporter.Maps
use trivy_epss_kev_exporter.Maps.{Map}
use trivy_epss_kev_exporter.Strings.{trim_space}

abbrev pub label_resource_kind : Text
label_resource_kind = codes "trivy-operator.resource.kind"

abbrev pub label_resource_name : Text
label_resource_name = codes "trivy-operator.resource.name"

abbrev pub label_resource_namespace : Text
label_resource_namespace = codes "trivy-operator.resource.namespace"

abbrev pub label_container_name : Text
label_container_name = codes "trivy-operator.container.name"

pub record OwnerReference : Type 0 where
  pub kind : Text
  pub name : Text
  -- `none` is the nil pointer
  pub controller : Option Bool

pub record Metadata : Type 0 where
  pub name : Text
  pub namespace : Text
  pub uid : Text
  pub labels : Map Text Text
  pub owner_references : List OwnerReference

pub record Vulnerability : Type 0 where
  pub vulnerability_id : Text
  pub resource : Text
  pub severity : Text

pub record Spec : Type 0 where
  pub vulnerabilities : List Vulnerability

pub record VulnerabilityReport : Type 0 where
  pub metadata : Metadata
  pub spec : Spec

-- `var r VulnerabilityReport`
abbrev pub zero_report : VulnerabilityReport
zero_report = record {
  metadata = record { name = []; namespace = []; uid = []; labels = []; owner_references = [] };
  spec = record { vulnerabilities = [] };
}

-- `FromJSON`, with `json.Unmarshal`, which fills in a given report or fails.
abbrev pub from_json :
    (Text → VulnerabilityReport → Option VulnerabilityReport) → Text → Option VulnerabilityReport
from_json unmarshal json = unmarshal json zero_report

pub record Workload : Type 0 where
  pub namespace : Text
  pub name : Text
  pub kind : Text
  pub container : Text

-- `t == ""`
unfoldable pub is_empty : Text → Bool
is_empty [] = true
is_empty (_ ∷ _) = false

unfoldable pub first_non_empty : List Text → Text
unfolding is_empty
first_non_empty [] = []
first_non_empty (v ∷ vs) = if is_empty (trim_space v) then first_non_empty vs else v

-- `o.Controller != nil && *o.Controller`
abbrev pub is_controller : OwnerReference → Bool
is_controller o = elim o.controller [ none ↦ false | some b ↦ b ]

-- The loop of `controllerOwner`.
find_controller : List OwnerReference → Option OwnerReference
find_controller [] = none
find_controller (o ∷ refs) = if is_controller o then some o else find_controller refs

first_ref : List OwnerReference → Option OwnerReference
first_ref [] = none
first_ref (o ∷ _) = some o

-- `controllerOwner`, `none` where its second result is false.
unfoldable pub controller_owner : List OwnerReference → Option OwnerReference
unfolding find_controller first_ref
controller_owner refs = elim (find_controller refs) [ some o ↦ some o | none ↦ first_ref refs ]

-- `l[key]`, which is empty where the key is missing.
label_value : Option Text → Text
label_value none = []
label_value (some v) = v

pub label : Map Text Text → Text → Text
unfolding label_value
label labels key = label_value (Maps.lookup text_discrete key labels)

-- The pieces that the labels leave empty, from an owner.
fill_from : Option OwnerReference → Workload → Workload
fill_from none w = w
fill_from (some o) w =
    let named = if is_empty w.name then record w { name = o.name } else w in
    if is_empty named.kind then record named { kind = o.kind } else named

unfoldable pub workload : VulnerabilityReport → Workload
unfolding label fill_from is_empty
workload r =
    let l = r.metadata.labels in
    let w : Workload = record {
      namespace = first_non_empty (label l label_resource_namespace ∷ r.metadata.namespace ∷ []);
      name = label l label_resource_name;
      kind = label l label_resource_kind;
      container = label l label_container_name;
    } in
    if is_empty w.name || is_empty w.kind
    then fill_from (controller_owner r.metadata.owner_references) w
    else w
