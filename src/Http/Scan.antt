-- ===== src/Http/Scan.antt =====
-- src/scan_http.cpp: the scanner, which runs http_parser over a transcript. The parser is not part
-- of the repository.
pub mod Ends
use tcpflow.Base.{
  ℕ, zero, suc, ◌+◌, ◌-◌, ◌*◌, ◌/◌, ◌%◌, ◌^◌, ◌≤◌, ◌<◌, min, max, ◌≡◌, refl, sym, ap, ap₂, subst,
  ◌∙◌, fun_ext, ◌≢◌, ◌↔◌, ◌⊎◌, inl, inr, Bool, true, false, not, ◌&&◌, ◌||◌, Option, none, some,
  List, [], ◌∷◌, ◌++◌, map, append_assoc, append-nil, arith, dec_lt, dec_le, ℕ_discrete, length,
  get_elem?, set, length-append, length-set, get_elem?-set_self, get_elem?-set_ne, get_or, take,
  drop, replicate, take-append-drop, length-take, length-drop, length-replicate, length-map, ltb,
  leb, ◌==◌, if◌then◌else◌, ltb→lt, lt→ltb, leb→le, ==_iff, tests, Bool-cases, Option-cases,
}
use tcpflow.Flow.Addr.{same_bytes}
use tcpflow.Mime.{codes}
use tcpflow.Demux.State.{Demux, Settings, M, ◌>>=◌, ◌>>◌, return, stop, died, out_of_fuel, done}
use tcpflow.Http.{Zlib, HttpSettings, Cbo, new_cbo, on_message_begin, byte_runs, byte_runs_end}
use tcpflow.Http.Headers.{on_header_field, on_header_value}
use tcpflow.Http.Open.{on_headers_complete}
use tcpflow.Http.Body.{on_body}
use tcpflow.Http.Complete.{on_message_complete}

pub data Callback : Type 0 where
  message_begin headers_complete message_complete : Callback
  url header_field header_value : List ℕ → Callback
  body : (at : ℕ) → List ℕ → Callback

-- A run of http_parser_execute: each callback is told whether it returned 0; `returned` has the
-- bytes that were parsed, the upgrade flag, and the run of the call at the end of the input.
pub data Run : Type 0 where
  call : Callback → (Bool → Run) → Run
  returned : (parsed : ℕ) → (upgrade : Bool) → Run → Run
  finished : Run

-- What `http_parser_execute` returned, if it did.
pub record Returned : Type 0 where
  pub parsed : ℕ
  pub upgrade : Bool
  pub at_end : Run

-- The object of the next chunk, with what outlives the one before.
unfoldable pub next_cbo : {Z : Type 0} → Cbo Z → Cbo Z
unfolding new_cbo
next_cbo c = new_cbo c.path c.mime c.subprocs c.events c.xml

module _ {S Z : Type 0} (cfg : Settings) (http : HttpSettings) (zlib : Zlib Z) where
  unfoldable pub complete : Cbo Z → M S (Cbo Z)
  complete c d = let (c', os') = on_message_complete http c d.os in done (c', record d { os = os' })

  -- The static functions; a result is false for a return value other than 0.
  unfoldable pub callback : Callback → Cbo Z → M S (Cbo Z × Bool)
  unfolding complete
  callback message_begin c = return (on_message_begin c, true)
  callback (url at) c = return (c, true)
  callback (header_field at) c = return (on_header_field at c, true)
  callback (header_value at) c = return (on_header_value at c, true)
  callback headers_complete c = do c' ← on_headers_complete cfg http c; return (c', true)
  callback (body at bytes) c = λ d.
      let (c', os', ok) = on_body zlib at bytes c d.os in done ((c', ok), record d { os = os' })
  callback message_complete c = do c' ← complete c; return (c', true)

  unfoldable pub run_parser : Run → Cbo Z → M S (Cbo Z × Option Returned)
  unfolding callback
  run_parser finished c = return (c, none)
  run_parser (returned parsed upgrade at_end) c =
      return (c, some (record { parsed = parsed; upgrade = upgrade; at_end = at_end }))
  run_parser (call cb next) c = do (c', ok) ← callback cb c; run_parser (next ok) c'

  -- What follows the parser's run over a chunk; `resume` is the next round of the loop. The
  -- destructor completes the last message.
  unfoldable pub after_chunk :
      (resume : ℕ → Cbo Z → M S (Cbo Z))
      → (sub : List ℕ) → (offset : ℕ) → Cbo Z
      → Option Returned
      → M S (Cbo Z)
  unfolding run_parser complete
  after_chunk resume sub offset c none = complete c
  after_chunk resume sub offset c (some p) =
      if ltb (length sub) p.parsed
      then stop died
      else if p.parsed == length sub
      then (do (c', _) ← run_parser p.at_end c; complete c')
      else if p.parsed == 0 || p.upgrade
      then complete c
      else (do c' ← complete c; resume (offset + p.parsed) c')

  -- The loop over the chunks of a buffer.
  unfoldable pub scan_chunks :
      (List ℕ → Run) → ℕ → (buffer : List ℕ) → (offset : ℕ) → Cbo Z → M S (Cbo Z)
  unfolding run_parser after_chunk next_cbo
  scan_chunks execute zero buffer offset c = stop out_of_fuel
  scan_chunks execute (suc fuel) buffer offset c = do
    let sub = drop offset buffer
    (c', r) ← run_parser (execute sub) (next_cbo c)
    after_chunk (scan_chunks execute fuel buffer) sub offset c' r

  -- `scan_http` in its scan phase.
  unfoldable pub scan_http : (List ℕ → Run) → List ℕ → Cbo Z → M S (Cbo Z)
  unfolding scan_chunks
  scan_http execute buffer c =
      if leb 80 (length buffer) && same_bytes (take 7 buffer) (codes "HTTP/1.")
      then (do
        let e = if http.has_xmlstream then record c { xml = c.xml ++ byte_runs ∷ [] } else c
        f ← scan_chunks execute (suc (length buffer)) buffer 0 e
        return (if http.has_xmlstream then record f { xml = f.xml ++ byte_runs_end ∷ [] } else f))
      else return c
