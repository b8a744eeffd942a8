-- ===== src/Middleware/Compression.antt =====
-- pkg/middleware/compression.go: the writer that compresses, over the writer of `net/http`.
use beer_avaliation_api.Base.{
  ◌≡◌, ◌≤◌, refl, ap, ◌∙◌, arith, ℕ, String, Bool, true, false, Option, none, some, List, [], ◌∷◌,
  map, if◌then◌else◌, ◌==◌,
}

-- What a handler does to its `http.ResponseWriter`, in order.
pub data Call : Type 0 where
  write_header : ℕ → Call
  write : String → Call

-- The response on the wire: the status, once it is sent.
abbrev pub Wire : Type 0
Wire = Option ℕ

-- `WriteHeader` of `net/http` with a final status: only the first one counts.
unfoldable pub wire_header : ℕ → Wire → Wire
wire_header status none = some status
wire_header status (some sent) = some sent

-- `Write` of `net/http`: the status 200 is sent if none was.
unfoldable pub wire_write : Wire → Wire
wire_write none = some 200
wire_write (some sent) = some sent

unfoldable pub serve_plain : List Call → Wire → Wire
unfolding wire_header wire_write
serve_plain [] w = w
serve_plain (write_header n ∷ calls) w = serve_plain calls (wire_header n w)
serve_plain (write p ∷ calls) w = serve_plain calls (wire_write w)

-- `gzipWriter`: its fields, and the writer below it.
pub record GzipWriter : Type 0 where
  pub status : ℕ
  pub wrote_hdr : Bool
  pub below : Wire

-- `(*gzipWriter).WriteHeader`
unfoldable pub gzip_header : ℕ → GzipWriter → GzipWriter
gzip_header n g = if g.wrote_hdr then g else (record g { status = n })

-- `(*gzipWriter).Write`; what the compressor has to say goes below.
unfoldable pub gzip_write : GzipWriter → GzipWriter
unfolding wire_header wire_write
gzip_write g =
    let status = if g.status == 0 then 200 else g.status in
    if g.wrote_hdr then (record g { below = wire_write g.below }) else record {
      status = status;
      wrote_hdr = true;
      below = wire_write (wire_header status g.below);
    }

unfoldable pub run_gzip : List Call → GzipWriter → GzipWriter
unfolding gzip_header gzip_write
run_gzip [] g = g
run_gzip (write_header n ∷ calls) g = run_gzip calls (gzip_header n g)
run_gzip (write p ∷ calls) g = run_gzip calls (gzip_write g)

-- `CompressionMiddleware` for a client that accepts gzip. At the end `gz.Close()` writes the trailer
-- of the compressed stream to the writer below, a body or none.
unfoldable pub serve_gzip : List Call → Wire → Wire
unfolding run_gzip wire_write
serve_gzip calls w =
    wire_write (run_gzip calls (record { status = 0; wrote_hdr = false; below = w })).below

-- The status that the server sends: 200 if the handler has left it open.
unfoldable pub sent_status : Wire → ℕ
sent_status none = 200
sent_status (some status) = status

-- `accepts` says that `Accept-Encoding` contains `gzip`.
unfoldable pub compression_middleware : Bool → List Call → ℕ
unfolding serve_gzip serve_plain sent_status
compression_middleware accepts calls =
    if accepts then sent_status (serve_gzip calls none) else sent_status (serve_plain calls none)

run_gzip-writes :
    (parts : List String) (n : ℕ) (sent : ℕ)
    → (run_gzip
        (map write parts)
        (record { status = n; wrote_hdr = true; below = some sent })).below
      ≡ some sent
unfolding run_gzip gzip_write wire_write
run_gzip-writes [] n sent = refl
run_gzip-writes (p ∷ parts) n sent = run_gzip-writes parts n sent

serve_plain-writes :
    (parts : List String) (sent : ℕ) → serve_plain (map write parts) (some sent) ≡ some sent
unfolding serve_plain wire_write
serve_plain-writes [] sent = refl
serve_plain-writes (p ∷ parts) sent = serve_plain-writes parts sent

-- A response with a final status, 200 or above, and a body has that status whether or not it is
-- compressed. One without a body, such as 204 or 304, has it where it is not compressed; where it
-- is, the status that is sent is 200.
pub compression_middleware-status :
    (n : ℕ) (first : String) (parts : List String) (accepts : Bool)
    → 200 ≤ n
    → (compression_middleware accepts (write_header n ∷ write first ∷ map write parts) ≡ n)
      × (compression_middleware accepts (write_header n ∷ []) ≡ (if accepts then 200 else n))
unfolding compression_middleware serve_plain serve_gzip run_gzip gzip_header gzip_write wire_header
    wire_write sent_status
compression_middleware-status n first parts true h =
    let status : ℕ = if n == 0 then 200 else n in
    let same : status ≡ n = ground (arith, h) in
    let sent : Wire → ℕ = λ w. sent_status (wire_write w) in
    (ap sent (run_gzip-writes parts status status) ∙ same, refl)
compression_middleware-status n first parts false h = (rw (serve_plain-writes parts n) refl, refl)
