-- ===== src/Enrich.antt =====
-- internal/enrich/enrich.go: the series that a report contributes.
pub mod Tuples
pub mod Values
use trivy_epss_kev_exporter.Base.{
  Bool, true, false, List, [], ◌∷◌, Option, none, some, ◌≡◌, arith, ap, Text, codes, text_discrete,
  list_discrete, ite, if◌then◌else◌,
}
use trivy_epss_kev_exporter.Maps
use trivy_epss_kev_exporter.Maps.{Map}
use trivy_epss_kev_exporter.Float64.{Float64, bool_to_float}
use trivy_epss_kev_exporter.Strings.{CaseTable, trim_space, to_upper, normalize_cve}
use trivy_epss_kev_exporter.Epss
use trivy_epss_kev_exporter.Kev
use trivy_epss_kev_exporter.Report.{Vulnerability, VulnerabilityReport, Workload}

pub record Labels : Type 0 where
  pub cve : Text
  pub namespace : Text
  pub workload : Text
  pub workload_kind : Text
  pub container : Text
  pub resource : Text
  pub severity : Text

-- `LabelNames`
unfoldable pub label_names : List Text
label_names =
    codes "cve"
    ∷ codes "namespace"
    ∷ codes "workload"
    ∷ codes "workload_kind"
    ∷ codes "container"
    ∷ codes "resource"
    ∷ codes "severity"
    ∷ []

-- `(Labels).Values`
unfoldable pub values : Labels → List Text
values l =
    l.cve ∷ l.namespace ∷ l.workload ∷ l.workload_kind ∷ l.container ∷ l.resource ∷ l.severity ∷ []

pub values_injective : (l m : Labels) → values l ≡ values m → l ≡ m
unfolding values
values_injective l m e = ground arith

unfoldable pub labels_discrete : Discrete Labels
unfolding list_discrete text_discrete values
labels_discrete l m = elim (list_discrete text_discrete (values l) (values m)) [
  | yes p ↦ yes (values_injective l m p)
  | no n ↦ no (λ e. n (ap values e))
]

pub record Series (F : Type 0) : Type 0 where
  pub labels : Labels
  pub epss_score : F
  pub epss_percentile : F
  pub kev : F
  pub kev_ransomware : F

module _ ⦃table : CaseTable⦄ where
  or_unknown : Text → Text
  or_unknown [] = codes "UNKNOWN"
  or_unknown (c ∷ cs) = c ∷ cs

  unfoldable pub normalize_severity : Text → Text
  unfolding or_unknown
  normalize_severity s = or_unknown (to_upper (trim_space s))

  -- The label tuple of one vulnerability with the normalised identifier `cve`.
  unfoldable pub labels_of : Workload → Text → Vulnerability → Labels
  labels_of w cve v = record {
    cve = cve;
    namespace = w.namespace;
    workload = w.name;
    workload_kind = w.kind;
    container = w.container;
    resource = v.resource;
    severity = normalize_severity v.severity;
  }

module _ {F : Type 0} ⦃float : Float64 F⦄ ⦃table : CaseTable⦄ where
  module _ (e : Option (Epss.Snapshot F)) (k : Option Kev.Snapshot) where
    -- The series of a label tuple, from both snapshots.
    unfoldable pub series_of : Labels → Series F
    series_of lbl =
        let (sc, _) = Epss.lookup e lbl.cve in
        record {
          labels = lbl;
          epss_score = sc.score;
          epss_percentile = sc.percentile;
          kev = bool_to_float (Kev.has k lbl.cve);
          kev_ransomware = bool_to_float (Kev.is_ransomware k lbl.cve);
        }

    -- The rest of the loop, with the tuples seen so far.
    unfoldable pub report_loop :
        Workload → Map Labels (Unit {0}) → List Vulnerability → List (Series F)
    unfolding labels_of normalize_severity series_of
    report_loop w seen [] = []
    report_loop w seen (v ∷ vs) =
        let cve = normalize_cve v.vulnerability_id in
        let lbl = labels_of w cve v in
        let skipped = report_loop w seen vs in
        let kept = series_of lbl ∷ report_loop w (Maps.store labels_discrete lbl tt seen) vs in
        ite (text_discrete cve []) skipped
          (if Maps.contains labels_discrete lbl seen then skipped else kept)

  -- `Report`; `none` is the nil report.
  unfoldable pub report :
      Option VulnerabilityReport
      → Workload
      → Option (Epss.Snapshot F)
      → Option Kev.Snapshot
      → List (Series F)
  unfolding report_loop
  report none w e k = []
  report (some r) w e k = report_loop e k w [] r.spec.vulnerabilities
