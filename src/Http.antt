-- ===== src/Http.antt =====
-- What `epss.Load` and `kev.Load` use of `net/http`, `compress/gzip` and `io`: readers, and the
-- results of one request.
use trivy_epss_kev_exporter.Base.{ℕ, Bool, List, Option, Text}

-- An `io.Reader` of UTF-8 text: what it yields, and whether it then fails or ends.
pub record Stream : Type 0 where
  pub content : Text
  pub fails : Bool

-- An `io.Reader` of bytes.
pub record ByteStream : Type 0 where
  pub bytes : List ℕ
  pub fails : Bool

pub record Response : Type 0 where
  pub status_code : ℕ
  pub body : ByteStream

-- The HTTP client during one call of `Load`, and the decoders of the standard library.
pub record HttpClient : Type 0 where
  -- `http.NewRequestWithContext` accepts the URL
  pub accepts : Text → Bool
  -- `client.Do`, `none` for its error
  pub do_request : Text → Option Response
  -- `gzip.NewReader` and what it then yields, `none` for its error
  pub gunzip : ByteStream → Option ByteStream
  -- the code points of what the bytes encode
  pub code_points : ByteStream → Stream
