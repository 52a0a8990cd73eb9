-- ===== src/Mime.antt =====
-- src/mime_map.cpp: the extension for a MIME type. `tolower` is that of the C locale.
pub mod Table
pub mod Lookup
use Prim.Native.Char.{code}
use Prim.Native.String.{String}
use tcpflow.Base.{
  ℕ, zero, suc, ◌+◌, ◌-◌, ◌*◌, ◌/◌, ◌%◌, ◌^◌, ◌≤◌, ◌<◌, min, max, ◌≡◌, refl, sym, ap, ap₂, subst,
  ◌∙◌, fun_ext, ◌≢◌, ◌↔◌, ◌⊎◌, inl, inr, Bool, true, false, not, ◌&&◌, ◌||◌, Option, none, some,
  List, [], ◌∷◌, ◌++◌, map, append_assoc, append-nil, arith, dec_lt, dec_le, ℕ_discrete, length,
  get_elem?, set, length-append, length-set, get_elem?-set_self, get_elem?-set_ne, get_or, take,
  drop, replicate, take-append-drop, length-take, length-drop, length-replicate, length-map, ltb,
  leb, ◌==◌, if◌then◌else◌, ltb→lt, lt→ltb, leb→le, ==_iff, tests, Bool-cases, Option-cases,
}
use tcpflow.Base.Maps.{find, insert}
use tcpflow.Flow.Addr.{same_bytes}
use tcpflow.Mime.Table.{entries}

-- The bytes of a text in ASCII.
abbrev pub codes : String → List ℕ
codes String.[] = []
codes (String.◌∷◌ c s) = code c ∷ codes s

abbrev pub MimeMap : Type 0
MimeMap = List (List ℕ × List ℕ)

abbrev pub as_bytes : List (String × String) → MimeMap
as_bytes = map (λ e. (codes e.0, codes e.1))

-- The map after `PopulateMimeMap`.
unfoldable pub mime_map : MimeMap
mime_map = as_bytes entries

unfoldable pub to_lower : ℕ → ℕ
to_lower c = if leb 65 c && leb c 90 then c + 32 else c

-- What stands before the first semicolon.
unfoldable pub base_type : List ℕ → List ℕ
base_type [] = []
base_type (c ∷ s) = if c == 59 then [] else c ∷ base_type s

-- `get_extension_for_mime_type`, with the map that it leaves: `operator []` enters an empty
-- extension for a type that is not there.
unfoldable pub get_extension_for_mime_type : List ℕ → MimeMap → List ℕ × MimeMap
unfolding base_type to_lower
get_extension_for_mime_type mime_type m =
    let key = map to_lower (base_type mime_type) in
    elim (find same_bytes key m) [ some ext ↦ (ext, m) | none ↦ ([], insert same_bytes key [] m) ]
