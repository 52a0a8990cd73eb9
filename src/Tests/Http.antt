-- ===== src/Tests/Http.antt =====
-- The HTTP scanner on a small message, with a toy in place of zlib.
use tcpflow.Base.Maps
use tcpflow.Flow.Addr.{same_bytes}
use tcpflow.Base.{
  ℕ, ◌+◌, ◌<◌, ◌≡◌, refl, true, false, none, some, List, [], ◌∷◌, ◌++◌, arith, length, ltb, ◌==◌,
  if◌then◌else◌,
}
use tcpflow.Base.Word.{add64}
use tcpflow.Demux.Os.{get_open, file_bytes}
use tcpflow.Mime.{codes, mime_map, to_lower, get_extension_for_mime_type}
use tcpflow.Mime.Lookup.{get_extension_of_entry}
use tcpflow.Http.{Zlib, Inflated, z_ok, z_stream_end, z_error, HttpSettings, Cbo, new_cbo, nothing}
use tcpflow.Http.Headers.{end_headers}
use tcpflow.Http.Headers.Fragments.{Fragments, receive_headers, collect, headers-end_headers}
use tcpflow.Http.Body.{on_body}
use tcpflow.Http.Body.Writes.{AtEnd, receive_body, receive_body_plain}
use tcpflow.Http.Body.Inflating.{more, trailing, on_body-Stored}
use tcpflow.Http.Complete.{
  on_message_complete, on_message_complete_again, on_message_complete_files,
}
use tcpflow.Http.Scan.{Run, call, returned, finished, message_begin, scan_chunks}
use tcpflow.Http.Scan.Ends.{Scanned, scan_chunks-Scanned}
use tcpflow.Tests.Examples.{settings, busy}

-- Byte 0 ends a stream; any other byte stands for itself twice.
abbrev toy_inflate : ℕ → List ℕ → Inflated ℕ
toy_inflate z [] = record { result = z_error; avail_in = []; output = []; next = z }
toy_inflate z (b ∷ rest) = record {
  result = if b == 0 then z_stream_end else z_ok;
  avail_in = rest;
  output = b ∷ b ∷ [];
  next = z + 1;
}

toy_progress :
    (z : ℕ) (input : List ℕ)
    → (toy_inflate z input).result ≡ z_ok
    → length (toy_inflate z input).avail_in < length input
toy_progress z [] h = absurd (cc)
toy_progress z (b ∷ rest) h = omega arith

abbrev toy : Zlib ℕ
toy = record {
  inflate_init = λ input. some 0;
  inflate = toy_inflate;
  left = λ z input. length input;
  progress = toy_progress;
}

abbrev http : HttpSettings
http = record {
  gzip_decompress = true;
  have_libz = true;
  has_xmlstream = true;
  has_alert_fd = true;
  has_command = true;
  subproc_max = 2;
}

abbrev fresh : Cbo ℕ
fresh = record {
  path = 116 ∷ [];
  xml_fo = [];
  request_no = 1;
  headers = [];
  last_on_header = nothing;
  header_value = [];
  header_field = [];
  output_path = [];
  fd = none;
  first_body = true;
  bytes_written = 0;
  unzip = false;
  zs = none;
  zfail = false;
  mime = [];
  subprocs = 2;
  events = [];
  xml = [];
}

fresh_lem : fresh ≡ record (new_cbo (116 ∷ []) [] 2 [] []) { request_no = 1 }
unfolding new_cbo
fresh_lem = refl

-- "Content-Type: text/html" in pieces, and a header of one letter.
abbrev header_pieces : List Fragments
header_pieces =
    record {
      name = codes "Conte";
      more_name = codes "nt-" ∷ codes "Type" ∷ [];
      text = codes "text";
      more_text = codes "/html" ∷ [];
    }
    ∷ record { name = codes "A"; more_name = []; text = codes "b"; more_text = [] }
    ∷ []

headers-end_headers_example :
    (end_headers (receive_headers header_pieces fresh)).headers ≡ collect header_pieces []
headers-end_headers_example = headers-end_headers header_pieces fresh refl refl

-- A body that is written to descriptor 3.
abbrev writing : Cbo ℕ
writing = record fresh { fd = some 3; output_path = 116 ∷ [] }

receive_body_plain_example :
    let (c', os', ok) =
      receive_body toy ((40, 1 ∷ 2 ∷ []) ∷ (42, []) ∷ (50, 3 ∷ []) ∷ []) writing busy.os in
    (ok ≡ true)
    × (c'.fd ≡ some 3)
    × AtEnd 3 (1 ∷ 2 ∷ 3 ∷ []) os'
    × (add64 c'.bytes_written 0 ≡ add64 0 3)
unfolding get_open file_bytes Maps.find same_bytes
receive_body_plain_example =
    receive_body_plain toy ((40, 1 ∷ 2 ∷ []) ∷ (42, []) ∷ (50, 3 ∷ []) ∷ []) 3 [] writing busy.os
      refl refl refl

abbrev inflating : Cbo ℕ
inflating = record writing { unzip = true; zs = some 0 }

-- The stream ends at the byte 0, and the byte behind it is left over: of the two calls only the
-- output of the first is written.
on_body-Stored_example :
    let (c', os', ok) = on_body toy 40 (5 ∷ 0 ∷ 7 ∷ []) inflating busy.os in
    (ok ≡ true) × AtEnd 3 (5 ∷ 5 ∷ []) os' × (add64 c'.bytes_written 0 ≡ 2)
unfolding get_open file_bytes Maps.find same_bytes
on_body-Stored_example =
    on_body-Stored toy 40 3 (5 ∷ 0 ∷ 7 ∷ []) [] (5 ∷ 5 ∷ []) 0 inflating busy.os refl refl refl refl
      refl (more 0 5 (0 ∷ 7 ∷ []) [] refl (trailing 1 0 (7 ∷ []) refl (omega arith)))

on_message_complete_again_example :
    let (c', os') = on_message_complete http writing busy.os in
    on_message_complete http c' os' ≡ (c', os')
on_message_complete_again_example = on_message_complete_again http writing busy.os

on_message_complete_files_example :
    let os' = (on_message_complete http writing busy.os).1 in
    (writing.bytes_written ≡ 0 → file_bytes (116 ∷ []) os' ≡ none)
    × (0 < writing.bytes_written → os'.files ≡ busy.os.files)
on_message_complete_files_example = on_message_complete_files http writing busy.os (omega arith)

-- A parser that takes three bytes at a time.
abbrev by_three : List ℕ → Run
by_three sub =
    call message_begin
      (λ ok. returned (if ltb 3 (length sub) then 3 else length sub) false finished)

scan_chunks-Scanned_example :
    Scanned settings http toy by_three
      (1 ∷ 2 ∷ 3 ∷ 4 ∷ [])
      0
      fresh
      busy
      (scan_chunks settings http toy by_three 5 (1 ∷ 2 ∷ 3 ∷ 4 ∷ []) 0 fresh busy)
scan_chunks-Scanned_example =
    scan_chunks-Scanned settings http toy by_three (1 ∷ 2 ∷ 3 ∷ 4 ∷ []) 5 0 fresh busy (omega arith)

-- "text/HTML; charset=utf-8" is in the table.
get_extension_of_entry_example :
    (get_extension_for_mime_type (codes "text/HTML") mime_map ≡ (codes "html", mime_map))
    × (get_extension_for_mime_type (codes "text/HTML" ++ 59 ∷ codes " charset=utf-8") mime_map
        ≡ (codes "html", mime_map))
unfolding mime_map to_lower
get_extension_of_entry_example =
    get_extension_of_entry 623 (codes "text/html") (codes "html") (codes "text/HTML")
      (codes " charset=utf-8") refl refl (omega arith)
