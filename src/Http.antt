-- ===== src/Http.antt =====
-- src/scan_http.cpp: the state of `scan_http_cbo`, which the callbacks of http_parser share, and
-- zlib, which is not part of the repository.
pub mod Headers
pub mod Open
pub mod Body
pub mod Complete
pub mod Scan
use tcpflow.Base.{
  ℕ, zero, suc, ◌+◌, ◌-◌, ◌*◌, ◌/◌, ◌%◌, ◌^◌, ◌≤◌, ◌<◌, min, max, ◌≡◌, refl, sym, ap, ap₂, subst,
  ◌∙◌, fun_ext, ◌≢◌, ◌↔◌, ◌⊎◌, inl, inr, Bool, true, false, not, ◌&&◌, ◌||◌, Option, none, some,
  List, [], ◌∷◌, ◌++◌, map, append_assoc, append-nil, arith, dec_lt, dec_le, ℕ_discrete, length,
  get_elem?, set, length-append, length-set, get_elem?-set_self, get_elem?-set_ne, get_or, take,
  drop, replicate, take-append-drop, length-take, length-drop, length-replicate, length-map, ltb,
  leb, ◌==◌, if◌then◌else◌, ltb→lt, lt→ltb, leb→le, ==_iff, tests, Bool-cases, Option-cases,
}
use tcpflow.Mime.{MimeMap}

-- What `inflate` returns: Z_OK, Z_STREAM_END, or an error.
pub data Inflate : Type 0 where
  z_ok z_stream_end z_error : Inflate

-- One call of `inflate` with Z_SYNC_FLUSH: the result, the input that is left, the output.
pub record Inflated (Z : Type 0) : Type 0 where
  pub result : Inflate
  pub avail_in : List ℕ
  pub output : List ℕ
  pub next : Z

-- zlib as its manual documents it: `inflateInit2` can fail, and `inflate` returns Z_OK only if it
-- made progress, which `left` measures.
pub record Zlib (Z : Type 0) : Type 0 where
  pub inflate_init : List ℕ → Option Z
  pub inflate : Z → List ℕ → Inflated Z
  pub left : Z → List ℕ → ℕ
  pub progress :
      (z : Z) (input : List ℕ)
      → (inflate z input).result ≡ z_ok
      → left (inflate z input).next (inflate z input).avail_in < left z input

-- `last_on_header_t`.
pub data LastOnHeader : Type 0 where
  nothing field value : LastOnHeader

-- Pieces of the report.
pub data XmlPart : Type 0 where
  byte_runs byte_runs_end : XmlPart
  byte_run : (file_offset : ℕ) → (filename : List ℕ) → XmlPart
  filesize : ℕ → XmlPart

-- What the scanner sends besides files: the alerts and the commands that it starts.
pub data HttpEvent : Type 0 where
  alert_open alert_close command : List ℕ → HttpEvent

pub record HttpSettings : Type 0 where
  pub gzip_decompress : Bool
  pub have_libz : Bool
  pub has_xmlstream : Bool
  pub has_alert_fd : Bool
  pub has_command : Bool
  pub subproc_max : ℕ

-- `mime`, `subprocs`, `events` and `xml` outlive the object: the table of MIME types, http_subproc,
-- what was sent and what was written to the XML stream. `zs` is `none` while zinit is false.
pub record Cbo (Z : Type 0) : Type 0 where
  pub path : List ℕ
  pub xml_fo : List XmlPart
  pub request_no : ℕ
  pub headers : List (List ℕ × List ℕ)
  pub last_on_header : LastOnHeader
  pub header_value : List ℕ
  pub header_field : List ℕ
  pub output_path : List ℕ
  pub fd : Option ℕ
  pub first_body : Bool
  pub bytes_written : ℕ
  pub unzip : Bool
  pub zs : Option Z
  pub zfail : Bool
  pub mime : MimeMap
  pub subprocs : ℕ
  pub events : List HttpEvent
  pub xml : List XmlPart

-- The constructor; the last four come from the scanner.
unfoldable pub new_cbo : {Z : Type 0} → List ℕ → MimeMap → ℕ → List HttpEvent → List XmlPart → Cbo Z
new_cbo path mime subprocs events xml = record {
  path = path;
  xml_fo = [];
  request_no = 0;
  headers = [];
  last_on_header = nothing;
  header_value = [];
  header_field = [];
  output_path = [];
  fd = none;
  first_body = true;
  bytes_written = 0;
  unzip = false;
  zs = none;
  zfail = false;
  mime = mime;
  subprocs = subprocs;
  events = events;
  xml = xml;
}

unfoldable pub on_message_begin : {Z : Type 0} → Cbo Z → Cbo Z
on_message_begin c = record c { request_no = c.request_no + 1 }
