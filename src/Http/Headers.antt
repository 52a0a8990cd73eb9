-- ===== src/Http/Headers.antt =====
-- src/scan_http.cpp: `on_header_field` and `on_header_value`, which take a header in fragments.
pub mod Fragments
use tcpflow.Base.{
  ℕ, zero, suc, ◌+◌, ◌-◌, ◌*◌, ◌/◌, ◌%◌, ◌^◌, ◌≤◌, ◌<◌, min, max, ◌≡◌, refl, sym, ap, ap₂, subst,
  ◌∙◌, fun_ext, ◌≢◌, ◌↔◌, ◌⊎◌, inl, inr, Bool, true, false, not, ◌&&◌, ◌||◌, Option, none, some,
  List, [], ◌∷◌, ◌++◌, map, append_assoc, append-nil, arith, dec_lt, dec_le, ℕ_discrete, length,
  get_elem?, set, length-append, length-set, get_elem?-set_self, get_elem?-set_ne, get_or, take,
  drop, replicate, take-append-drop, length-take, length-drop, length-replicate, length-map, ltb,
  leb, ◌==◌, if◌then◌else◌, ltb→lt, lt→ltb, leb→le, ==_iff, tests, Bool-cases, Option-cases,
}
use tcpflow.Base.Maps.{insert}
use tcpflow.Flow.Addr.{same_bytes}
use tcpflow.Mime.{to_lower}
use tcpflow.Http.{LastOnHeader, nothing, field, value, Cbo}

module _ {Z : Type 0} where
  -- `headers[header_field] = header_value`.
  unfoldable pub add_header : Cbo Z → Cbo Z
  add_header c = record c { headers = insert same_bytes c.header_field c.header_value c.headers }

  unfoldable pub on_header_field : List ℕ → Cbo Z → Cbo Z
  unfolding add_header
  on_header_field at c =
      let name = map to_lower at in
      elim c.last_on_header [
        | nothing ↦ record c { header_field = name; last_on_header = field }
        | value ↦ record (add_header c) { header_field = name; last_on_header = field }
        | field ↦ record c { header_field = c.header_field ++ name; last_on_header = field }
      ]

  unfoldable pub on_header_value : List ℕ → Cbo Z → Cbo Z
  on_header_value at c = elim c.last_on_header [
    | field ↦ record c { header_value = at; last_on_header = value }
    | value ↦ record c { header_value = c.header_value ++ at; last_on_header = value }
    | nothing ↦ record c { last_on_header = value }
  ]

  -- The first step of `on_headers_complete`.
  unfoldable pub end_headers : Cbo Z → Cbo Z
  unfolding add_header
  end_headers c = elim c.last_on_header [
    | value ↦ record (add_header c) { header_field = [] }
    | nothing ↦ c
    | field ↦ c
  ]
