-- ===== src/System/Sound.antt =====
-- What the running exporter's refreshers know of the stored snapshots: if equal markers mean equal
-- content, a load that counts as unchanged brings the snapshot that is stored already.
use trivy_epss_kev_exporter.Base.{
  Bool, true, false, List, [], Option, some, ◌≡◌, ◌≢◌, ap, sym, ◌∙◌, Text,
}
use trivy_epss_kev_exporter.Maps.{Map}
use trivy_epss_kev_exporter.Controller.{WorkQueue, KeyCodec}
use trivy_epss_kev_exporter.Feeds.{Marker, Refresher, Load, load_failed, loaded, is_changed}
use trivy_epss_kev_exporter.Feeds.Sweep.{Determines, unchanged_needs}
use trivy_epss_kev_exporter.Feeds.Phases.{
  Phase, resting, failing, applying, recording, calling, sweeping, Feeding, begin, after_record,
}
use trivy_epss_kev_exporter.System.{
  Output, silent, stored, noted, FeedStep, fail, apply, record_success, list_keys, add_key,
  end_sweep,
}

module _ {S : Type 0} where
  -- The snapshot is the content of the last marker, if that is not empty.
  abbrev IsLast : (Marker → S) → Refresher → Option S → Type 0
  IsLast content r o = r.have ≡ true → r.last ≢ ([], []) → o ≡ some (content r.last)

  abbrev pub IsSound : (Marker → S) → Refresher → Phase S → Option S → Type 0
  IsSound content r (applying s changed) o =
      (changed ≡ false → o ≡ some s) × IsLast content r (some s)
  IsSound content r resting o = IsLast content r o
  IsSound content r failing o = IsLast content r o
  IsSound content r (recording changed) o = IsLast content r o
  IsSound content r calling o = IsLast content r o
  IsSound content r (sweeping keys) o = IsLast content r o

  -- What is stored after a step.
  abbrev pub after_output : Output S → Option S → Option S
  after_output silent o = o
  after_output (stored s) o = some s
  after_output (noted at) o = o

  kept :
      (content : Marker → S) (r : Refresher) (o : Option S) (marker : Marker) (s : S)
      → IsLast content r o
      → (marker ≢ ([], []) → s ≡ content marker)
      → is_changed r marker ≡ false
      → o ≡ some s
  kept content r o marker s h det same =
      let (have, last, filled) = unchanged_needs r marker same in
      h have (λ e. filled (sym last ∙ e))
      ∙ ap (λ m. some (content m)) last
      ∙ ap some (sym (det filled))

  pub begin-IsSound :
      (content : Marker → S) (l : Load S) (f : Feeding S) (o : Option S)
      → f.phase ≡ resting
      → Determines content (begin l f).loads
      → IsSound content f.state f.phase o
      → IsSound content (begin l f).state (begin l f).phase o
  unfolding begin
  begin-IsSound content load_failed f o at d h = rw at at h
  begin-IsSound content (loaded marker s) f o at d h = (
    (λ same. kept content f.state o marker s (rw at at h) d.0 same),
    (λ have filled. ap some (d.0 filled)),
  )

  pub Determines-begin :
      (content : Marker → S) (l : Load S) (f : Feeding S)
      → Determines content (begin l f).loads
      → Determines content f.loads
  unfolding begin
  Determines-begin content load_failed f d = d
  Determines-begin content (loaded marker s) f d = d.1

  IsSound-after_record :
      (content : Marker → S) (r : Refresher) (changed : Bool) (o : Option S)
      → IsLast content r o
      → IsSound content r (after_record changed) o
  IsSound-after_record content r true o h = h
  IsSound-after_record content r false o h = h

  module _ {Q : Type 0} ⦃queue : WorkQueue Q⦄ ⦃keys : KeyCodec⦄ where
    pub FeedStep-IsSound :
        (allow : Map Text (Unit {0})) (cached : List Text) (content : Marker → S) (f : Feeding S)
        (q : Q) (o : Option S) {p : Phase S} {q' : Q} {out : Output S}
        → FeedStep allow cached f q p q' out
        → IsSound content f.state f.phase o
        → IsSound content f.state p (after_output out o)
    FeedStep-IsSound allow cached content f q o (fail at) h = rw at at h
    FeedStep-IsSound allow cached content f q o (apply s changed at) h = (rw at at h).1
    FeedStep-IsSound allow cached content f q o (record_success changed time at) h =
        IsSound-after_record content f.state changed o (rw at at h)
    FeedStep-IsSound allow cached content f q o (list_keys at) h = rw at at h
    FeedStep-IsSound allow cached content f q o (add_key key rest at) h = rw at at h
    FeedStep-IsSound allow cached content f q o (end_sweep at) h = rw at at h
