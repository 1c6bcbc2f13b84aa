-- ===== src/Epss/Request.antt =====
-- `Load` and `maybeGunzip` of internal/epss/epss.go: the feed is requested, unpacked and parsed.
use trivy_epss_kev_exporter.Base.{
  ℕ, Bool, false, ◌&&◌, List, ◌∷◌, Option, none, some, length, ltb, ◌==◌, if◌then◌else◌, Text,
}
use trivy_epss_kev_exporter.Float64.{Float64}
use trivy_epss_kev_exporter.Http.{ByteStream, HttpClient, Response}
use trivy_epss_kev_exporter.Strings.{CaseTable}
use trivy_epss_kev_exporter.Epss.{
  Snapshot, invalid_request, fetch_failed, unexpected_status, peek_failed, gzip_failed, Result, ok,
  err, ◌>>=◌, CsvReader, parse,
}

-- `br.Peek(2)` fails: the stream does, with less than two bytes.
unfoldable pub peek_fails : ByteStream → Bool
peek_fails r = r.fails && ltb (length r.bytes) 2

-- The magic bytes of gzip.
unfoldable pub is_gzip : List ℕ → Bool
is_gzip (a ∷ b ∷ _) = a == 0x1f && b == 0x8b
is_gzip _ = false

module _ ⦃http : HttpClient⦄ where
  unfoldable pub gunzipped : Option ByteStream → Result ByteStream
  gunzipped none = err gzip_failed
  gunzipped (some r) = ok r

  unfoldable pub maybe_gunzip : ByteStream → Result ByteStream
  unfolding peek_fails is_gzip gunzipped
  maybe_gunzip r =
      if peek_fails r
      then err peek_failed
      else if is_gzip r.bytes
      then gunzipped (http.gunzip r)
      else ok r

module _ {F : Type 0} ⦃float : Float64 F⦄ ⦃table : CaseTable⦄ ⦃csv : CsvReader⦄
    ⦃http : HttpClient⦄ where
  -- `Load` on the result of `client.Do`.
  unfoldable pub read_response : Option Response → Result (Snapshot F)
  read_response none = err fetch_failed
  read_response (some resp) =
      if resp.status_code == 200
      then (do r ← maybe_gunzip resp.body; parse (http.code_points r))
      else err unexpected_status

  unfoldable pub load : Text → Result (Snapshot F)
  unfolding read_response
  load url = if http.accepts url then read_response (http.do_request url) else err invalid_request
