-- ===== src/Epss/Load.antt =====
-- `Load` of internal/epss/epss.go on a feed that is served as it is or compressed.
use trivy_epss_kev_exporter.Base.{
  ℕ, true, false, List, [], ◌∷◌, some, ◌≡◌, ◌≢◌, ◌⊎◌, inl, inr, ◌==◌, refl, ap, arith, Bool-cases,
  if◌then◌else◌, Text,
}
use trivy_epss_kev_exporter.Float64.{Float64}
use trivy_epss_kev_exporter.Http.{ByteStream, HttpClient}
use trivy_epss_kev_exporter.Strings.{CaseTable}
use trivy_epss_kev_exporter.Epss.{ok, err, unexpected_status, CsvReader, parse}
use trivy_epss_kev_exporter.Epss.Request.{
  is_gzip, maybe_gunzip, gunzipped, peek_fails, read_response, load,
}

-- A stream that yields these bytes and ends.
abbrev pub whole : List ℕ → ByteStream
whole bytes = record { bytes = bytes; fails = false }

-- The bytes do not start with the two that a gzip member starts with (RFC 1952, 2.3.1).
abbrev pub HasNoMagic : List ℕ → Type 0
HasNoMagic bytes = (rest : List ℕ) → bytes ≢ 0x1f ∷ 0x8b ∷ rest

-- A gzip writer: what it writes starts with the two bytes, and the reader gives the input back.
pub record GzipWriter ⦃http : HttpClient⦄ : Type 0 where
  pub compress : List ℕ → List ℕ
  pub compress-magic : (bytes : List ℕ) → (rest : List ℕ) × (compress bytes ≡ 0x1f ∷ 0x8b ∷ rest)
  pub gunzip-compress : (bytes : List ℕ) → http.gunzip (whole (compress bytes)) ≡ some (whole bytes)

is_gzip_inv :
    (a b : ℕ) (rest : List ℕ) → is_gzip (a ∷ b ∷ rest) ≡ true → a ∷ b ∷ rest ≡ 0x1f ∷ 0x8b ∷ rest
unfolding is_gzip
is_gzip_inv a b rest magic =
    let first : a ≡ 0x1f = ground arith in
    let second : b ≡ 0x8b = ground arith in rw (first, second) refl

is_gzip-HasNoMagic : (bytes : List ℕ) → HasNoMagic bytes → is_gzip bytes ≡ false
unfolding is_gzip
is_gzip-HasNoMagic [] h = refl
is_gzip-HasNoMagic (a ∷ []) h = refl
is_gzip-HasNoMagic (a ∷ b ∷ rest) h = elim (Bool-cases (is_gzip (a ∷ b ∷ rest))) [
  | inl magic ↦ absurd (h rest (is_gzip_inv a b rest magic))
  | inr other ↦ other
]

module _ ⦃http : HttpClient⦄ where
  maybe_gunzip-plain :
      (bytes : List ℕ) → HasNoMagic bytes → maybe_gunzip (whole bytes) ≡ ok (whole bytes)
  unfolding maybe_gunzip peek_fails
  maybe_gunzip-plain bytes h = rw (is_gzip-HasNoMagic bytes h) refl

  is_gzip-compress : ⦃gzip : GzipWriter⦄ (bytes : List ℕ) → is_gzip (gzip.compress bytes) ≡ true
  unfolding is_gzip
  is_gzip-compress ⦃gzip⦄ bytes = let (rest, magic) = gzip.compress-magic bytes in ap is_gzip magic

  maybe_gunzip-compress :
      ⦃gzip : GzipWriter⦄ (bytes : List ℕ)
      → maybe_gunzip (whole (gzip.compress bytes)) ≡ ok (whole bytes)
  unfolding maybe_gunzip peek_fails gunzipped
  maybe_gunzip-compress ⦃gzip⦄ bytes = rw (is_gzip-compress bytes, gzip.gunzip-compress bytes) refl

  maybe_gunzip-served :
      ⦃gzip : GzipWriter⦄ (feed body : List ℕ)
      → HasNoMagic feed
      → (body ≡ feed) ⊎ (body ≡ gzip.compress feed)
      → maybe_gunzip (whole body) ≡ ok (whole feed)
  maybe_gunzip-served feed body text (inl plain) = rw plain (maybe_gunzip-plain feed text)
  maybe_gunzip-served feed body text (inr packed) = rw packed (maybe_gunzip-compress feed)

module _ {F : Type 0} ⦃float : Float64 F⦄ ⦃table : CaseTable⦄ ⦃csv : CsvReader⦄ ⦃http : HttpClient⦄
    ⦃gzip : GzipWriter⦄ where
  -- If the URL is well formed and the answer is a body that is the feed, which does not start with
  -- the magic bytes of gzip, or what a gzip writer makes of it, then with status 200 `Load` returns
  -- what `Parse` returns for the feed itself, and with any other status it fails for the status.
  pub load-compress :
      (url : Text) (feed body : List ℕ) (status : ℕ)
      → http.accepts url ≡ true
      → HasNoMagic feed
      → (body ≡ feed) ⊎ (body ≡ gzip.compress feed)
      → http.do_request url ≡ some (record { status_code = status; body = whole body })
      → load {F = F} url
        ≡ (if status == 200 then parse (http.code_points (whole feed)) else err unexpected_status)
  unfolding load read_response
  load-compress url feed body status accepted text served answered =
      rw (accepted, answered, maybe_gunzip-served feed body text served) refl
