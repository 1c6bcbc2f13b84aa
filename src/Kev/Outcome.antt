-- ===== src/Kev/Outcome.antt =====
-- What `Parse` of internal/kev/kev.go returns, on every stream.
use trivy_epss_kev_exporter.Base.{
  ◌<◌, true, false, List, [], ◌∷◌, Option, none, some, ◌≡◌, refl, arith, length, Text,
  text_discrete, if_pos, ◌∙◌, ap, sym,
}
use trivy_epss_kev_exporter.Maps
use trivy_epss_kev_exporter.Maps.{Map}
use trivy_epss_kev_exporter.Http.{Stream}
use trivy_epss_kev_exporter.Strings.{CaseTable, normalize_cve}
use trivy_epss_kev_exporter.Kev.{
  Snapshot, Vulnerability, Feed, FeedDecoder, ok, err, no_usable_entries, add_entries, finish,
  from_feed, parse, has, is_ransomware, len, marker,
}
use trivy_epss_kev_exporter.Kev.Catalog.{
  listed, listed_known, add_entries-present, add_entries-ransomware, add_entries-marks,
}

module _ ⦃table : CaseTable⦄ where
  -- The snapshot holds what the decoded feed says.
  pub record IsCatalog (f : Feed) (snap : Snapshot) : Type 0 where
    pub marker_is : marker (some snap) ≡ (f.catalog_version, f.date_released)
    pub len_pos : 0 < len (some snap)
    pub has_is : (cve : Text) → has (some snap) cve ≡ listed (normalize_cve cve) f.vulnerabilities
    pub ransomware_is :
        (cve : Text)
        → is_ransomware (some snap) cve ≡ listed_known (normalize_cve cve) f.vulnerabilities

  -- The snapshot before the first entry.
  abbrev empty_of : Feed → Snapshot
  empty_of f = record {
    present = [];
    ransomware = [];
    catalog_version = f.catalog_version;
    date_released = f.date_released;
  }

  finish_inv :
      (snap s : Snapshot) (m : Map Text (Unit {0}))
      → finish s m ≡ ok snap
      → (s ≡ snap) × (0 < length m)
  unfolding finish
  finish_inv snap s [] h = cc
  finish_inv snap s (e ∷ m) h = (cc, omega arith)

  listed_of_listed_known :
      (id : Text) (vs : List Vulnerability) → listed_known id vs ≡ true → listed id vs ≡ true
  listed_of_listed_known id [] h = h
  listed_of_listed_known id (v ∷ vs) h = ground (arith, listed_of_listed_known id vs)

  finish-total :
      (s : Snapshot) (m : Map Text (Unit {0})) (id : Text)
      → Maps.contains text_discrete id m ≡ true
      → finish s m ≡ ok s
  unfolding finish Maps.contains
  finish-total s [] id h = absurd (cc)
  finish-total s (e ∷ m) id h = refl

  contains-head :
      (e : Text × Unit {0}) (m : Map Text (Unit {0}))
      → Maps.contains text_discrete e.0 (e ∷ m) ≡ true
  unfolding Maps.contains
  contains-head e m = ap Maps.is_some (if_pos (text_discrete e.0 e.0) refl (some e.1) _)

  finish_empty :
      (s : Snapshot) (m : Map Text (Unit {0}))
      → ((id : Text) → Maps.contains text_discrete id m ≡ false)
      → finish s m ≡ err no_usable_entries
  unfolding finish
  finish_empty s [] h = refl
  finish_empty s (e ∷ m) h = absurd (cc (h e.0, contains-head e m))

  from_feed-IsCatalog :
      (f : Feed) {snap : Snapshot} → from_feed (some f) ≡ ok snap → IsCatalog f snap
  unfolding from_feed Maps.contains has is_ransomware len marker
  from_feed-IsCatalog f {snap} h =
      let (e, l) = finish_inv snap (add_entries f.vulnerabilities (empty_of f)) _ h in
      let (v, d) = add_entries-marks f.vulnerabilities (empty_of f) in
      rw (← e) (record {
        marker_is = λ i. (v i, d i);
        len_pos = l;
        has_is = λ cve. add_entries-present (normalize_cve cve) f.vulnerabilities (empty_of f);
        ransomware_is =
            λ cve. add_entries-ransomware (normalize_cve cve) f.vulnerabilities (empty_of f);
      })

  decoded :
      (o : Option Feed) {snap : Snapshot}
      → from_feed o ≡ ok snap
      → (f : Feed) × (o ≡ some f) × IsCatalog f snap
  decoded none h = absurd (unfold from_feed in cc)
  decoded (some f) h = (f, refl, from_feed-IsCatalog f h)

  module _ ⦃decoder : FeedDecoder⦄ where
    -- A snapshot that `Parse` returns is of a feed that decodes: it has the feed's markers and at
    -- least one CVE, `Has` says which CVEs the feed lists, up to case and white space around them,
    -- and `IsRansomware` which of them some entry marks as "Known".
    pub parse-IsCatalog :
        (r : Stream) {snap : Snapshot}
        → parse r ≡ ok snap
        → (f : Feed) × (decoder.decode r ≡ some f) × IsCatalog f snap
    unfolding parse
    parse-IsCatalog r h = decoded (decoder.decode r) h

    -- A CVE that is flagged for ransomware is in the catalog.
    has_of_is_ransomware :
        (r : Stream) (cve : Text) {snap : Snapshot}
        → parse r ≡ ok snap
        → is_ransomware (some snap) cve ≡ true
        → has (some snap) cve ≡ true
    has_of_is_ransomware r cve h flagged =
        let (f, _, p) = parse-IsCatalog r h in
        p.has_is cve
        ∙ listed_of_listed_known (normalize_cve cve) f.vulnerabilities
            (sym (p.ransomware_is cve) ∙ flagged)

    -- A feed that decodes and lists some CVE that is not blank parses.
    parse_of_listed :
        (r : Stream) (f : Feed) (id : Text)
        → decoder.decode r ≡ some f
        → listed id f.vulnerabilities ≡ true
        → (snap : Snapshot) × (parse r ≡ ok snap)
    unfolding parse from_feed Maps.contains
    parse_of_listed r f id e h = (
      add_entries f.vulnerabilities (empty_of f),
      rw e (finish-total _ _ id (add_entries-present id f.vulnerabilities (empty_of f) ∙ h)),
    )

    -- A feed that decodes and lists no CVE is refused.
    pub parse-no_usable_entries :
        (r : Stream) (f : Feed)
        → decoder.decode r ≡ some f
        → ((id : Text) → listed id f.vulnerabilities ≡ false)
        → parse r ≡ err no_usable_entries
    unfolding parse from_feed Maps.contains
    parse-no_usable_entries r f e h =
        rw e (finish_empty _ _ (λ id. add_entries-present id f.vulnerabilities (empty_of f) ∙ h id))
