-- ===== src/Kev.antt =====
-- internal/kev/kev.go: the snapshot of the CISA KEV catalog and its parser. The JSON decoder is a
-- parameter, `FeedDecoder`.
pub mod Catalog
pub mod Outcome
use trivy_epss_kev_exporter.Base.{
  ℕ, Bool, true, false, not, List, [], ◌∷◌, Option, none, some, length, ◌==◌, if◌then◌else◌, Text,
  codes, text_discrete, ite,
}
use trivy_epss_kev_exporter.Maps
use trivy_epss_kev_exporter.Maps.{Map}
use trivy_epss_kev_exporter.Http.{Stream, HttpClient, Response}
use trivy_epss_kev_exporter.Strings.{CaseTable, trim_space, equal_fold, normalize_cve}

pub record Snapshot : Type 0 where
  -- sets of normalised CVE identifiers
  pub present : Map Text (Unit {0})
  pub ransomware : Map Text (Unit {0})
  pub catalog_version : Text
  pub date_released : Text

pub record Vulnerability : Type 0 where
  pub cve_id : Text
  pub known_ransomware_campaign_use : Text

pub record Feed : Type 0 where
  pub catalog_version : Text
  pub date_released : Text
  pub vulnerabilities : List Vulnerability

-- `json.NewDecoder(r).Decode(&f)`, `none` for its error.
pub record FeedDecoder : Type 0 where
  pub decode : Stream → Option Feed

pub data Error : Type 0 where
  invalid_request fetch_failed unexpected_status invalid_json no_usable_entries : Error

pub data Result {ℓ} (A : Type ℓ) : Type ℓ where
  ok : A → Result A
  err : Error → Result A

module _ ⦃table : CaseTable⦄ where
  -- `(*Snapshot).Has`; `none` is the nil receiver.
  unfoldable pub has : Option Snapshot → Text → Bool
  has none cve = false
  has (some s) cve = Maps.contains text_discrete (normalize_cve cve) s.present

  -- `(*Snapshot).IsRansomware`
  unfoldable pub is_ransomware : Option Snapshot → Text → Bool
  is_ransomware none cve = false
  is_ransomware (some s) cve = Maps.contains text_discrete (normalize_cve cve) s.ransomware

-- `(*Snapshot).Len`
unfoldable pub len : Option Snapshot → ℕ
len none = 0
len (some s) = length s.present

-- `(*Snapshot).Marker`
unfoldable pub marker : Option Snapshot → Text × Text
marker none = ([], [])
marker (some s) = (s.catalog_version, s.date_released)

-- The test on `KnownRansomwareCampaignUse`.
pub is_known : Vulnerability → Bool
is_known v = equal_fold (trim_space v.known_ransomware_campaign_use) (codes "Known")

module _ ⦃table : CaseTable⦄ where
  -- The body of the loop after the identifier is normalised.
  add_entry : Text → Bool → Snapshot → Snapshot
  add_entry cve known snap =
      let present = Maps.store text_discrete cve tt snap.present in
      ite (text_discrete cve []) snap (
        if known
        then record snap {
          present = present;
          ransomware = Maps.store text_discrete cve tt snap.ransomware;
        }
        else record snap { present = present })

  pub add_entries : List Vulnerability → Snapshot → Snapshot
  unfolding add_entry
  add_entries [] snap = snap
  add_entries (v ∷ vs) snap = add_entries vs (add_entry (normalize_cve v.cve_id) (is_known v) snap)

  -- The last test of `Parse`.
  pub finish : Snapshot → Map Text (Unit {0}) → Result Snapshot
  finish snap [] = err no_usable_entries
  finish snap (e ∷ es) = ok snap

  -- `Parse` after the decoding.
  unfoldable pub from_feed : Option Feed → Result Snapshot
  unfolding add_entries finish is_known
  from_feed none = err invalid_json
  from_feed (some f) =
      let snap = add_entries f.vulnerabilities (record {
        present = [];
        ransomware = [];
        catalog_version = f.catalog_version;
        date_released = f.date_released;
      }) in
      finish snap snap.present

  module _ ⦃decoder : FeedDecoder⦄ where
    unfoldable pub parse : Stream → Result Snapshot
    unfolding from_feed
    parse r = from_feed (decoder.decode r)

    module _ ⦃http : HttpClient⦄ where
      -- `Load` on the result of `client.Do`.
      read_response : Option Response → Result Snapshot
      read_response none = err fetch_failed
      read_response (some resp) =
          if resp.status_code == 200
          then parse (http.code_points resp.body)
          else err unexpected_status

      unfoldable pub load : Text → Result Snapshot
      unfolding read_response
      load url =
          if http.accepts url then read_response (http.do_request url) else err invalid_request
