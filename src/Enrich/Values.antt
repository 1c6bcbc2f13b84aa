-- ===== src/Enrich/Values.antt =====
-- The values of the series that `Report` of internal/enrich/enrich.go makes, from the two feeds.
use trivy_epss_kev_exporter.Base.{
  ℕ, List, [], ◌∷◌, map, Option, none, some, ◌≡◌, refl, arith, ap, ◌∙◌, sym,
}
use trivy_epss_kev_exporter.Maps.Dedupe.{drop_key, dedupe}
use trivy_epss_kev_exporter.Float64.{Float64, bool_to_float}
use trivy_epss_kev_exporter.Http.{Stream}
use trivy_epss_kev_exporter.Strings.{CaseTable, normalize_cve}
use trivy_epss_kev_exporter.Strings.Laws.{normalize_cve_idem}
use trivy_epss_kev_exporter.Epss
use trivy_epss_kev_exporter.Epss.{Read, CsvReader}
use trivy_epss_kev_exporter.Epss.Rows.{latest}
use trivy_epss_kev_exporter.Epss.Outcome as EpssOutcome
use trivy_epss_kev_exporter.Kev
use trivy_epss_kev_exporter.Kev.{FeedDecoder}
use trivy_epss_kev_exporter.Kev.Catalog.{listed, listed_known}
use trivy_epss_kev_exporter.Kev.Outcome as KevOutcome
use trivy_epss_kev_exporter.Report.{Vulnerability, VulnerabilityReport, Workload}
use trivy_epss_kev_exporter.Enrich.{Labels, Series, labels_of, labels_discrete, series_of, report}
use trivy_epss_kev_exporter.Enrich.Tuples.{tuples, report-dedupe, report-labels}

abbrev pub All {ℓ κ} : {A : Type ℓ} → (A → Type κ) → List A → Type κ
All P [] = Unit
All P (x ∷ xs) = P x × All P xs

All-drop_key :
    (P : Labels → Type 0) (k : Labels) (ls : List Labels)
    → All P ls
    → All P (drop_key labels_discrete k ls)
All-drop_key P k [] h = tt
All-drop_key P k (l ∷ ls) h = ground (arith, All-drop_key P k ls h.1)

All-dedupe : (P : Labels → Type 0) (ls : List Labels) → All P ls → All P (dedupe labels_discrete ls)
All-dedupe P [] h = tt
All-dedupe P (l ∷ ls) h = (h.0, All-drop_key P l (dedupe labels_discrete ls) (All-dedupe P ls h.1))

module _ ⦃table : CaseTable⦄ where
  abbrev pub IsNormal : Labels → Type 0
  IsNormal l = normalize_cve l.cve ≡ l.cve

  labels_of-IsNormal :
      (w : Workload) (v : Vulnerability)
      → IsNormal (labels_of w (normalize_cve v.vulnerability_id) v)
  unfolding labels_of
  labels_of-IsNormal w v = normalize_cve_idem v.vulnerability_id

  tuples-IsNormal : (w : Workload) (vs : List Vulnerability) → All IsNormal (tuples w vs)
  tuples-IsNormal w [] = tt
  tuples-IsNormal w (v ∷ vs) = ground (arith, tuples-IsNormal w vs, labels_of-IsNormal w v)

module _ {F : Type 0} ⦃float : Float64 F⦄ ⦃table : CaseTable⦄ where
  -- The values are those of the EPSS rows and the KEV entries about the identifier of the labels.
  pub record IsValued (cols : ℕ × ℕ × ℕ) (reads : List Read) (entries : List Kev.Vulnerability)
      (s : Series F) : Type 0 where
    pub epss_score_is : s.epss_score ≡ (Epss.found_score (latest cols reads s.labels.cve)).0.score
    pub epss_percentile_is :
        s.epss_percentile ≡ (Epss.found_score (latest cols reads s.labels.cve)).0.percentile
    pub kev_is : s.kev ≡ bool_to_float (listed s.labels.cve entries)
    pub kev_ransomware_is : s.kev_ransomware ≡ bool_to_float (listed_known s.labels.cve entries)

  module _ ⦃csv : CsvReader⦄ ⦃decoder : FeedDecoder⦄ where
    series_of-IsValued :
        (re : Stream) (es : Epss.Snapshot F) (ks : Kev.Snapshot) (f : Kev.Feed) (l : Labels)
        (p : EpssOutcome.IsParse re es) (q : KevOutcome.IsCatalog f ks)
        → IsNormal l
        → IsValued p.columns p.reads f.vulnerabilities (series_of (some es) (some ks) l)
    unfolding series_of
    series_of-IsValued re es ks f l p q n =
        let row = p.lookup_is l.cve ∙ ap (λ id. Epss.found_score (latest p.columns p.reads id)) n in
        let has_l = q.has_is l.cve ∙ ap (λ id. listed id f.vulnerabilities) n in
        let known = q.ransomware_is l.cve ∙ ap (λ id. listed_known id f.vulnerabilities) n in
        record {
          epss_score_is = ap (λ r. r.0.score) row;
          epss_percentile_is = ap (λ r. r.0.percentile) row;
          kev_is = ap bool_to_float has_l;
          kev_ransomware_is = ap bool_to_float known;
        }

    All-series_of :
        (re : Stream) (es : Epss.Snapshot F) (ks : Kev.Snapshot) (f : Kev.Feed) (ls : List Labels)
        (p : EpssOutcome.IsParse re es) (q : KevOutcome.IsCatalog f ks)
        → All IsNormal ls
        → All
            (IsValued p.columns p.reads f.vulnerabilities)
            (map (series_of (some es) (some ks)) ls)
    All-series_of re es ks f [] p q h = tt
    All-series_of re es ks f (l ∷ ls) p q h =
        (series_of-IsValued re es ks f l p q h.0, All-series_of re es ks f ls p q h.1)

    -- With snapshots that the two parsers returned, every series of a report carries the score and
    -- percentile of the last valid EPSS row about its CVE, or zeros if there is none, and 1 or 0
    -- as the KEV feed lists the CVE, and lists it as known ransomware, or does not.
    pub report-IsValued :
        (r : VulnerabilityReport) (w : Workload) (re rk : Stream) {es : Epss.Snapshot F}
        {ks : Kev.Snapshot}
        → Epss.parse re ≡ Epss.ok es
        → Kev.parse rk ≡ Kev.ok ks
        → (p : EpssOutcome.IsParse re es) × (f : Kev.Feed) × (decoder.decode rk ≡ some f)
          × All
              (IsValued p.columns p.reads f.vulnerabilities)
              (report (some r) w (some es) (some ks))
    report-IsValued r w re rk {es} {ks} he hk =
        let p = EpssOutcome.parse-IsParse re he in
        let (f, decoded, q) = KevOutcome.parse-IsCatalog rk hk in
        let normal =
          All-dedupe IsNormal (tuples w r.spec.vulnerabilities)
            (tuples-IsNormal w r.spec.vulnerabilities) in
        (p, f, decoded, rw report-dedupe (All-series_of re es ks f _ p q normal))

  -- All four values are zero.
  abbrev pub IsZero : Series F → Type 0
  IsZero s =
      (s.epss_score ≡ float.zero_float)
      × (s.epss_percentile ≡ float.zero_float)
      × (s.kev ≡ float.zero_float)
      × (s.kev_ransomware ≡ float.zero_float)

  All-IsZero :
      (e : Option (Epss.Snapshot F)) (ls : List Labels)
      → e ≡ none
      → All IsZero (map (series_of e none) ls)
  All-IsZero e [] h = tt
  All-IsZero e (l ∷ ls) h = (
    rw h (unfold series_of Epss.lookup Kev.has Kev.is_ransomware in (refl, refl, refl, refl)),
    All-IsZero e ls h,
  )

  -- Before either feed has loaded the report has the same label tuples, and all its values are 0.
  report-IsZero :
      (r : VulnerabilityReport) (w : Workload) (e : Option (Epss.Snapshot F))
      (k : Option Kev.Snapshot)
      → All IsZero (report (some r) w none none)
        × (map (λ (s : Series F). s.labels) (report (some r) w none none)
            ≡ map (λ (s : Series F). s.labels) (report (some r) w e k))
  report-IsZero r w e k = (
    rw report-dedupe (All-IsZero none _ refl),
    report-labels w none none r ∙ sym (report-labels w e k r),
  )
