-- ===== src/Tests/Gzip.antt =====
-- The feed of Tests/Epss as a server compresses it, with an encoding that adds the magic bytes only.
use trivy_epss_kev_exporter.Base.{
  ℕ, true, List, [], ◌∷◌, false, Option, none, some, ◌≡◌, ◌∙◌, inr, refl, ap, codes, if◌then◌else◌,
  ◌==◌,
}
use trivy_epss_kev_exporter.Http.{ByteStream, HttpClient}
use trivy_epss_kev_exporter.Epss.{parse, err, unexpected_status, ok}
use trivy_epss_kev_exporter.Epss.Request.{load}
use trivy_epss_kev_exporter.Epss.Load.{whole, HasNoMagic, GzipWriter, load-compress}
use trivy_epss_kev_exporter.Tests.Fixtures.{digits, ascii, plain_csv}
use trivy_epss_kev_exporter.Tests.Epss as EpssTests

abbrev unpacked : ByteStream → Option ByteStream
unpacked r = elim r.bytes [
  | [] ↦ none
  | x ∷ xs ↦ elim xs [ [] ↦ none | y ∷ bytes ↦ some (record { bytes = bytes; fails = r.fails }) ]
]

abbrev packed : List ℕ → List ℕ
packed bytes = 0x1f ∷ 0x8b ∷ bytes

-- Every URL serves the compressed feed.
instance abbrev packed_feed : HttpClient
packed_feed = record {
  accepts = λ url. true;
  do_request =
      λ url. some (record { status_code = 200; body = whole (packed EpssTests.feed.content) });
  gunzip = unpacked;
  code_points = λ r. record { content = r.bytes; fails = r.fails };
}

instance abbrev packer : GzipWriter
packer = record {
  compress = packed;
  compress-magic = λ bytes. (bytes, refl);
  gunzip-compress = λ bytes. refl;
}

feed-HasNoMagic : HasNoMagic EpssTests.feed.content
feed-HasNoMagic rest e =
    let same : false ≡ true = ap (λ l. elim l [ [] ↦ false | x ∷ _ ↦ x == 0x1f ]) e in absurd (cc)

load-compress_example : load {F = ℕ} (codes "https://x") ≡ (
    if 200 == 200
    then parse (record { content = EpssTests.feed.content; fails = false })
    else err unexpected_status)
load-compress_example =
    load-compress (codes "https://x") EpssTests.feed.content (packed EpssTests.feed.content) 200
      refl feed-HasNoMagic (inr refl) refl

-- The whole way gives the snapshot of the feed.
load_packed : load {F = ℕ} (codes "https://x") ≡ ok EpssTests.snapshot
load_packed = load-compress_example ∙ EpssTests.parse-feed
