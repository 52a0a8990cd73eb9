-- ===== src/Http/Open.antt =====
-- src/scan_http.cpp: `on_headers_complete`, which names and opens the file of a body.
use tcpflow.Base.{
  ℕ, true, false, ◌&&◌, ◌||◌, none, some, List, [], ◌∷◌, ◌++◌, length, ◌==◌, if◌then◌else◌,
}
use tcpflow.Base.Maps.{find, insert}
use tcpflow.Flow.Addr.{same_bytes}
use tcpflow.Filename.Print.{decimal, pad}
use tcpflow.Mime.{codes, get_extension_for_mime_type}
use tcpflow.Demux.Os.{opened, failed, get_open, put_open}
use tcpflow.Demux.State.{Demux, Settings, M, ◌>>=◌, ◌>>◌, return, get_state, modify}
use tcpflow.Demux.Files.{retrying_open, open_rounds}
use tcpflow.Http.{HttpSettings, alert_open, Cbo}
use tcpflow.Http.Headers.{end_headers}

-- `headers[key]`, which enters an empty value for a key that is not there.
unfoldable pub header_at : List ℕ → List (List ℕ × List ℕ) → List ℕ × List (List ℕ × List ℕ)
header_at key m = elim (find same_bytes key m) [
  | some v ↦ (v, m)
  | none ↦ ([], insert same_bytes key [] m)
]

module _ {Z : Type 0} where
  -- The file of a body: `path`, the number of the request, and the extension of the content type.
  unfoldable pub name_output : Cbo Z → Cbo Z
  unfolding header_at get_extension_for_mime_type decimal pad
  name_output c =
      let (content_type, headers) = header_at (codes "content-type") c.headers in
      let (extension, mime) = get_extension_for_mime_type content_type c.mime in
      let stem = c.path ++ codes "-HTTPBODY-" ++ pad 3 (decimal c.request_no) in
      record c {
        headers = headers;
        mime = mime;
        output_path = if length extension == 0 then stem else stem ++ 46 ∷ extension;
      }

  -- Compressed content is inflated, or gets a name that says so.
  unfoldable pub choose_encoding : HttpSettings → Cbo Z → Cbo Z
  unfolding header_at
  choose_encoding http c =
      let (encoding, headers) = header_at (codes "content-encoding") c.headers in
      let d = record c { headers = headers } in
      if (same_bytes encoding (codes "gzip") || same_bytes encoding (codes "deflate"))
        && http.gzip_decompress
      then (if http.have_libz
          then record d { unzip = true }
          else record d { output_path = d.output_path ++ codes ".gz" })
      else d

-- O_TRUNC: the file that was opened is empty.
unfoldable pub truncate : {S : Type 0} → ℕ → Demux S → Demux S
truncate fd d = elim (get_open fd d.os) [
  | none ↦ d
  | some o ↦ record d { os = put_open fd (record o { bytes = [] }) d.os }
]

module _ {S Z : Type 0} (cfg : Settings) (http : HttpSettings) where
  unfoldable pub on_headers_complete : Cbo Z → M S (Cbo Z)
  unfolding end_headers name_output choose_encoding truncate
  on_headers_complete c0 = do
    let c = choose_encoding http (name_output (end_headers c0))
    d ← get_state
    r ← retrying_open cfg (open_rounds d) c.output_path false
    modify (λ e. elim r [ opened fd ↦ truncate fd e | failed _ ↦ e ])
    return (record c {
      fd = elim r [ opened fd ↦ some fd | failed _ ↦ none ];
      events = if http.has_alert_fd then c.events ++ alert_open c.output_path ∷ [] else c.events;
      first_body = true;
    })
