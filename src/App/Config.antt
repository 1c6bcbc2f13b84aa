-- ===== src/App/Config.antt =====
-- internal/app/app.go: the configuration with its defaults, and the headers of the feed requests.
use trivy_epss_kev_exporter.Base.{
  ℕ, ◌*◌, Bool, true, List, [], ◌≡◌, ◌≢◌, inl, inr, refl, ap, sym, ◌∙◌, ite, if_pos, if_neg,
  if◌then◌else◌, Text, codes, text_discrete, Bool-cases,
}
use trivy_epss_kev_exporter.Metrics
use trivy_epss_kev_exporter.Controller.Setup
use trivy_epss_kev_exporter.Int.{ℤ, pos, is_positive}

-- Durations are numbers of nanoseconds.
pub record Config : Type 0 where
  pub epss_url : Text
  pub kev_url : Text
  pub feed_refresh_interval : ℤ
  pub feed_http_timeout : ℤ
  pub enable_ransomware : Bool
  pub namespaces : List Text
  pub resync_interval : ℤ
  pub workers : ℤ
  pub enable_rollup : Bool
  pub user_agent : Text

abbrev pub default_epss_url : Text
default_epss_url = codes "https://epss.empiricalsecurity.com/epss_scores-current.csv.gz"

abbrev pub default_kev_url : Text
default_kev_url =
    codes
      "https://raw.githubusercontent.com/cisagov/kev-data/refs/heads/develop/known_exploited_vulnerabilities.json"

abbrev pub second : ℕ
second = 1000000000

abbrev pub default_interval : ℕ
default_interval = 24 * 3600 * second

abbrev pub default_timeout : ℕ
default_timeout = 2 * 60 * second

abbrev pub default_agent : Text
default_agent = codes "trivy-epss-kev-exporter"

-- `if t == "" { t = def }`
abbrev pub text_or : Text → Text → Text
text_or def t = ite (text_discrete t []) def t

-- `if d <= 0 { d = def }`
abbrev pub duration_or : ℕ → ℤ → ℤ
duration_or def d = if is_positive d then d else pos def

unfoldable pub with_defaults : Config → Config
with_defaults c = record c {
  epss_url = text_or default_epss_url c.epss_url;
  kev_url = text_or default_kev_url c.kev_url;
  feed_refresh_interval = duration_or default_interval c.feed_refresh_interval;
  feed_http_timeout = duration_or default_timeout c.feed_http_timeout;
  user_agent = text_or default_agent c.user_agent;
}

-- What `New` of app.go passes to the controller and to the metrics.
abbrev pub controller_options : Config → Setup.Options
controller_options c = record {
  namespaces = c.namespaces;
  resync_interval = c.resync_interval;
  workers = c.workers;
  enable_rollup = c.enable_rollup;
}

abbrev pub metrics_options : Config → Metrics.Options
metrics_options c = record { enable_ransomware = c.enable_ransomware }

-- Nothing is left for the defaults to fill in.
pub record IsRunnable (c : Config) : Type 0 where
  pub epss_named : c.epss_url ≢ []
  pub kev_named : c.kev_url ≢ []
  pub refreshes : is_positive c.feed_refresh_interval ≡ true
  pub times_out : is_positive c.feed_http_timeout ≡ true
  pub agent_named : c.user_agent ≢ []

text_or-filled : (def t : Text) → def ≢ [] → text_or def t ≢ []
text_or-filled def t filled e = elim (text_discrete t []) [
  | yes p ↦ filled (sym (if_pos (text_discrete t []) p def t) ∙ e)
  | no n ↦ n (sym (if_neg (text_discrete t []) n def t) ∙ e)
]

text_or-kept : (def t : Text) → t ≢ [] → text_or def t ≡ t
text_or-kept def t filled = if_neg (text_discrete t []) filled def t

duration_or-kept : (def : ℕ) (d : ℤ) → is_positive d ≡ true → duration_or def d ≡ d
duration_or-kept def d h = rw h

duration_or-positive :
    (def : ℕ) (d : ℤ) → is_positive (pos def) ≡ true → is_positive (duration_or def d) ≡ true
duration_or-positive def d h = elim (Bool-cases (is_positive d)) [ inl p ↦ rw p p | inr n ↦ rw n h ]

-- With the defaults both URLs and the user agent are not empty and the interval and the timeout are
-- positive, whatever was configured, and a configuration that has all this is kept as it is.
with_defaults-IsRunnable :
    (c : Config) → IsRunnable (with_defaults c) × (IsRunnable c → with_defaults c ≡ c)
unfolding with_defaults
with_defaults-IsRunnable c = (
  record {
    epss_named = text_or-filled default_epss_url c.epss_url (λ e. cc);
    kev_named = text_or-filled default_kev_url c.kev_url (λ e. cc);
    refreshes = duration_or-positive default_interval c.feed_refresh_interval refl;
    times_out = duration_or-positive default_timeout c.feed_http_timeout refl;
    agent_named = text_or-filled default_agent c.user_agent (λ e. cc);
  },
  λ h i. record c {
    epss_url = text_or-kept default_epss_url c.epss_url h.epss_named i;
    kev_url = text_or-kept default_kev_url c.kev_url h.kev_named i;
    feed_refresh_interval = duration_or-kept default_interval c.feed_refresh_interval h.refreshes i;
    feed_http_timeout = duration_or-kept default_timeout c.feed_http_timeout h.times_out i;
    user_agent = text_or-kept default_agent c.user_agent h.agent_named i;
  },
)

-- `http.Header`: the names of fields are compared in their canonical form.
pub record Header (H : Type 0) : Type 0 where
  pub get : Text → H → Text
  pub set : Text → Text → H → H
  pub canonical : Text → Text
  pub get-set :
      (n k v : Text) (h : H)
      → get n (set k v h) ≡ ite (text_discrete (canonical k) (canonical n)) v (get n h)
  pub get_canonical : (n m : Text) (h : H) → canonical n ≡ canonical m → get n h ≡ get m h

module _ {H : Type 0} ⦃header : Header H⦄ where
  abbrev pub set_if_blank : Text → Text → H → H
  set_if_blank n v h = ite (text_discrete (header.get n h) []) (header.set n v h) h

  -- `RoundTrip` of the feed transport, on the headers of the request.
  unfoldable pub with_headers : Text → H → H
  with_headers ua h =
      set_if_blank (codes "Accept") (codes "application/json, application/octet-stream, */*")
        (set_if_blank (codes "User-Agent") ua h)

  set_if_blank-filled : (n v : Text) (h : H) → v ≢ [] → header.get n (set_if_blank n v h) ≢ []
  set_if_blank-filled n v h filled e = elim (text_discrete (header.get n h) []) [
    | yes p ↦ filled (
        sym (header.get-set n n v h ∙ if_pos (text_discrete _ _) refl v (header.get n h))
        ∙ sym (ap (header.get n) (if_pos (text_discrete (header.get n h) []) p _ h))
        ∙ e)
    | no b ↦ b (sym (ap (header.get n) (if_neg (text_discrete (header.get n h) []) b _ h)) ∙ e)
  ]

  set_if_blank-kept :
      (n v m : Text) (h : H)
      → header.get m h ≢ []
      → header.get m (set_if_blank n v h) ≡ header.get m h
  set_if_blank-kept n v m h filled = elim (text_discrete (header.get n h) []) [
    | yes p ↦
        ap (header.get m) (if_pos (text_discrete (header.get n h) []) p _ h)
        ∙ header.get-set m n v h
        ∙ if_neg (text_discrete (header.canonical n) (header.canonical m))
            (λ c. filled (sym (header.get_canonical n m h c) ∙ p)) v (header.get m h)
    | no b ↦ ap (header.get m) (if_neg (text_discrete (header.get n h) []) b _ h)
  ]

  -- Every feed request is sent with a user agent and an `Accept` field that are not empty, whatever
  -- was configured, and every field that was not empty is sent as it was.
  pub with_headers-with_defaults :
      (c : Config) (h : H) (n : Text)
      → let sent = with_headers (with_defaults c).user_agent h in
        (header.get (codes "User-Agent") sent ≢ [])
        × (header.get (codes "Accept") sent ≢ [])
        × (header.get n h ≢ [] → header.get n sent ≡ header.get n h)
  unfolding with_headers
  with_headers-with_defaults c h n =
      let ua = (with_defaults c).user_agent in
      let named : ua ≢ [] = (with_defaults-IsRunnable c).0.agent_named in
      let agent = codes "User-Agent" in
      let accept = codes "Accept" in
      let types = codes "application/json, application/octet-stream, */*" in
      let inner = set_if_blank agent ua h in
      let agent_sent = set_if_blank-filled agent ua h named in
      (
        (λ e. agent_sent (sym (set_if_blank-kept accept types agent inner agent_sent) ∙ e)),
        set_if_blank-filled accept types inner (λ e. cc),
        (λ filled.
            let first = set_if_blank-kept agent ua n h filled in
            set_if_blank-kept accept types n inner (λ e. filled (sym first ∙ e)) ∙ first),
      )
