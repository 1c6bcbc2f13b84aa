-- ===== src/Enrich/Tuples.antt =====
-- `Report` of internal/enrich/enrich.go gives one series to each label tuple of the report.
use trivy_epss_kev_exporter.Base.{
  List, [], ◌∷◌, map, Option, some, ◌≡◌, refl, arith, ap, ◌∙◌, text_discrete, ite,
}
use trivy_epss_kev_exporter.Maps
use trivy_epss_kev_exporter.Maps.{Map}
use trivy_epss_kev_exporter.Maps.Dedupe.{
  member, dedupe, IsUnique, unseen, unseen-empty, unseen-drop_key, unseen-store, dedupe-IsUnique,
  member-dedupe,
}
use trivy_epss_kev_exporter.Float64.{Float64}
use trivy_epss_kev_exporter.Strings.{CaseTable, normalize_cve}
use trivy_epss_kev_exporter.Epss
use trivy_epss_kev_exporter.Kev
use trivy_epss_kev_exporter.Report.{Vulnerability, VulnerabilityReport, Workload}
use trivy_epss_kev_exporter.Enrich.{
  Labels, Series, labels_of, labels_discrete, series_of, report_loop, report,
}

module _ ⦃table : CaseTable⦄ where
  -- The label tuples of the vulnerabilities whose identifier is not blank, in order.
  abbrev pub tuples : Workload → List Vulnerability → List Labels
  tuples w [] = []
  tuples w (v ∷ vs) =
      let cve = normalize_cve v.vulnerability_id in
      ite (text_discrete cve []) (tuples w vs) (labels_of w cve v ∷ tuples w vs)

module _ {F : Type 0} ⦃float : Float64 F⦄ ⦃table : CaseTable⦄ where
  module _ (w : Workload) (e : Option (Epss.Snapshot F)) (k : Option Kev.Snapshot) where
    report_loop-unseen :
        (seen : Map Labels (Unit {0})) (vs : List Vulnerability)
        → report_loop e k w seen vs
          ≡ map (series_of e k) (unseen labels_discrete seen (dedupe labels_discrete (tuples w vs)))
    unfolding report_loop
    report_loop-unseen seen [] = refl
    report_loop-unseen seen (v ∷ vs) =
        let cve = normalize_cve v.vulnerability_id in
        let lbl = labels_of w cve v in
        let rest = dedupe labels_discrete (tuples w vs) in
        ground (
          arith,
          report_loop-unseen seen vs,
          report_loop-unseen (Maps.store labels_discrete lbl tt seen) vs,
          unseen-store labels_discrete lbl seen rest,
          unseen-drop_key labels_discrete lbl seen rest,
        )

    -- The series of a report are those of its label tuples, each tuple once, in the order of first
    -- appearance, with the values that both snapshots give.
    pub report-dedupe :
        (r : VulnerabilityReport)
        → report (some r) w e k
          ≡ map (series_of e k) (dedupe labels_discrete (tuples w r.spec.vulnerabilities))
    unfolding report
    report-dedupe r =
        report_loop-unseen [] r.spec.vulnerabilities
        ∙ ap (map (series_of e k)) (
            unseen-empty labels_discrete (dedupe labels_discrete (tuples w r.spec.vulnerabilities)))

    map_labels : (ls : List Labels) → map (λ (s : Series F). s.labels) (map (series_of e k) ls) ≡ ls
    unfolding series_of
    map_labels [] = refl
    map_labels (l ∷ ls) = ap (◌∷◌ l) (map_labels ls)

    pub report-labels :
        (r : VulnerabilityReport)
        → map (λ (s : Series F). s.labels) (report (some r) w e k)
          ≡ dedupe labels_discrete (tuples w r.spec.vulnerabilities)
    report-labels r =
        ap (map (λ (s : Series F). s.labels)) (report-dedupe r)
        ∙ map_labels (dedupe labels_discrete (tuples w r.spec.vulnerabilities))

    -- No two series of a report have the same labels, and a tuple has a series exactly if some
    -- vulnerability that is not blank has that tuple.
    report-IsUnique :
        (r : VulnerabilityReport)
        → let labels = map (λ (s : Series F). s.labels) (report (some r) w e k) in
          IsUnique labels_discrete labels
          × ((l : Labels)
              → member labels_discrete l labels
                ≡ member labels_discrete l (tuples w r.spec.vulnerabilities))
    report-IsUnique r = rw (report-labels r) (
      dedupe-IsUnique labels_discrete (tuples w r.spec.vulnerabilities),
      λ l. member-dedupe labels_discrete l (tuples w r.spec.vulnerabilities),
    )
