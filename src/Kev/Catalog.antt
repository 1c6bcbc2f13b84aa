-- ===== src/Kev/Catalog.antt =====
-- `Parse` of internal/kev/kev.go against a description of both sets.
use trivy_epss_kev_exporter.Base.{
  Bool, true, false, ◌&&◌, ◌||◌, List, [], ◌∷◌, ◌≡◌, refl, arith, Text, text_discrete, ite,
}
use trivy_epss_kev_exporter.Maps
use trivy_epss_kev_exporter.Maps.{Map}
use trivy_epss_kev_exporter.Strings.{CaseTable, normalize_cve}
use trivy_epss_kev_exporter.Kev.{Snapshot, Vulnerability, is_known, add_entry, add_entries}

module _ ⦃table : CaseTable⦄ where
  -- The entry is usable and is about the identifier `id`.
  abbrev pub names : Text → Vulnerability → Bool
  names id v =
      ite (text_discrete (normalize_cve v.cve_id) []) false
        (ite (text_discrete (normalize_cve v.cve_id) id) true false)

  -- Some entry is about `id`.
  abbrev pub listed : Text → List Vulnerability → Bool
  listed id [] = false
  listed id (v ∷ vs) = names id v || listed id vs

  -- Some entry about `id` is marked as known ransomware.
  abbrev pub listed_known : Text → List Vulnerability → Bool
  listed_known id [] = false
  listed_known id (v ∷ vs) = (names id v && is_known v) || listed_known id vs

  add_entry-present :
      (id : Text) (v : Vulnerability) (snap : Snapshot)
      → Maps.contains text_discrete id
          (add_entry (normalize_cve v.cve_id) (is_known v) snap).present
        ≡ (names id v || Maps.contains text_discrete id snap.present)
  unfolding add_entry
  add_entry-present id v snap =
      ground (arith, Maps.contains-store text_discrete (normalize_cve v.cve_id) id tt snap.present)

  add_entry-ransomware :
      (id : Text) (v : Vulnerability) (snap : Snapshot)
      → Maps.contains text_discrete id
          (add_entry (normalize_cve v.cve_id) (is_known v) snap).ransomware
        ≡ ((names id v && is_known v) || Maps.contains text_discrete id snap.ransomware)
  unfolding add_entry
  add_entry-ransomware id v snap =
      ground
        (arith, Maps.contains-store text_discrete (normalize_cve v.cve_id) id tt snap.ransomware)

  -- After the loop a set holds what an entry put there, or what it held before.
  pub add_entries-present :
      (id : Text) (vs : List Vulnerability) (snap : Snapshot)
      → Maps.contains text_discrete id (add_entries vs snap).present
        ≡ (Maps.contains text_discrete id snap.present || listed id vs)
  unfolding add_entries
  add_entries-present id [] snap = ground arith
  add_entries-present id (v ∷ vs) snap = ground (
    arith,
    add_entries-present id vs (add_entry (normalize_cve v.cve_id) (is_known v) snap),
    add_entry-present id v snap,
  )

  pub add_entries-ransomware :
      (id : Text) (vs : List Vulnerability) (snap : Snapshot)
      → Maps.contains text_discrete id (add_entries vs snap).ransomware
        ≡ (Maps.contains text_discrete id snap.ransomware || listed_known id vs)
  unfolding add_entries
  add_entries-ransomware id [] snap = ground arith
  add_entries-ransomware id (v ∷ vs) snap = ground (
    arith,
    add_entries-ransomware id vs (add_entry (normalize_cve v.cve_id) (is_known v) snap),
    add_entry-ransomware id v snap,
  )

  add_entry-marks :
      (cve : Text) (known : Bool) (snap : Snapshot)
      → ((add_entry cve known snap).catalog_version ≡ snap.catalog_version)
        × ((add_entry cve known snap).date_released ≡ snap.date_released)
  unfolding add_entry
  add_entry-marks cve known snap = ground arith

  pub add_entries-marks :
      (vs : List Vulnerability) (snap : Snapshot)
      → ((add_entries vs snap).catalog_version ≡ snap.catalog_version)
        × ((add_entries vs snap).date_released ≡ snap.date_released)
  unfolding add_entries
  add_entries-marks [] snap = (refl, refl)
  add_entries-marks (v ∷ vs) snap = ground (
    arith,
    add_entries-marks vs (add_entry (normalize_cve v.cve_id) (is_known v) snap),
    add_entry-marks (normalize_cve v.cve_id) (is_known v) snap,
  )
