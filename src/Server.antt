-- ===== src/Server.antt =====
-- internal/server/server.go: the defaults of the server, and what its handler answers. The mux of
-- net/http and the metrics handler of promhttp are parameters.
pub mod Handler
use trivy_epss_kev_exporter.Base.{
  ℕ, Bool, true, false, [], Option, none, some, ◌≡◌, ◌≢◌, ◌⊎◌, ◌↔◌, inl, inr, refl, ap, sym, ◌∙◌,
  ite, if_pos, if_neg, if◌then◌else◌, Text, codes, text_discrete,
}
use mathlib.Core.Option as Option
use trivy_epss_kev_exporter.Int.{ℤ, pos, is_zero}

pub record Config : Type 0 where
  pub port : ℤ
  pub metrics_path : Text

-- `withDefaults`
unfoldable pub with_defaults : Config → Config
with_defaults c = record {
  port = if is_zero c.port then pos 8080 else c.port;
  metrics_path = ite (text_discrete c.metrics_path []) (codes "/metrics") c.metrics_path;
}

-- The handlers that are registered: `HandlerFor` of the registry, and the two probes.
pub data Route : Type 0 where
  metrics : Route
  healthz : Route
  readyz : Route

pub record Answer : Type 0 where
  pub status_code : ℕ
  pub body : Text

-- `http.ServeMux` with its registered patterns. `is_one_path` is true of a pattern that is a path,
-- without host, method and wildcard, in its cleaned form and not ending in a slash. A pattern that
-- is registered again is a panic, `none`; a path that is a pattern is served by its handler.
pub record ServeMux (M : Type 0) : Type 0 where
  pub is_one_path : Text → Bool
  pub new_mux : M
  pub handle : Text → Route → M → Option M
  pub serve : M → Text → Option Route
  pub registered : M → Text → Bool
  pub one_path-healthz : is_one_path (codes "/healthz") ≡ true
  pub one_path-readyz : is_one_path (codes "/readyz") ≡ true
  pub registered-new_mux : (q : Text) → registered new_mux q ≡ false
  pub handle_again : (p : Text) (r : Route) (m : M) → registered m p ≡ true → handle p r m ≡ none
  pub handle_first :
      (p : Text) (r : Route) (m : M)
      → is_one_path p ≡ true
      → registered m p ≡ false
      → (m' : M) × (handle p r m ≡ some m')
  pub registered-handle :
      (p q : Text) (r : Route) (m m' : M)
      → handle p r m ≡ some m'
      → registered m' q ≡ ite (text_discrete p q) true (registered m q)
  pub serve-handle :
      (p q : Text) (r : Route) (m m' : M)
      → handle p r m ≡ some m'
      → is_one_path p ≡ true
      → is_one_path q ≡ true
      → serve m' q ≡ ite (text_discrete p q) (some r) (serve m q)

abbrev pub healthz_path : Text
healthz_path = codes "/healthz"

abbrev pub readyz_path : Text
readyz_path = codes "/readyz"

-- `WriteHeader` and `WriteString`.
abbrev pub text_answer : ℕ → Text → Answer
text_answer status text = record { status_code = status; body = text }

-- What a handler answers, with what `Ready` returns and what the metrics handler writes.
unfoldable pub answer : Bool → Answer → Route → Answer
answer ready page metrics = page
answer ready page healthz = text_answer 200 (codes "ok")
answer ready page readyz =
    if ready then text_answer 200 (codes "ready") else text_answer 503 (codes "not ready")

infixl 5 ◌>>=◌
abbrev pub ◌>>=◌ : {A B : Type 0} → Option A → (A → Option B) → Option B
none >>= next = none
some a >>= next = next a

module _ {M : Type 0} ⦃mux : ServeMux M⦄ where
  -- A request to the built handler; without a route the mux answers by itself.
  abbrev pub respond : Bool → Answer → M → Text → Option Answer
  respond ready page m path = Option.map (answer ready page) (mux.serve m path)

  -- `Handler`, `none` for a panic.
  unfoldable pub handler : Config → Option M
  handler cfg = do
    a ← mux.handle cfg.metrics_path metrics mux.new_mux
    b ← mux.handle healthz_path healthz a
    mux.handle readyz_path readyz b
