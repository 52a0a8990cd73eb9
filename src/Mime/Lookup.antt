-- ===== src/Mime/Lookup.antt =====
-- src/mime_map.cpp: what a type finds in the table, and what the table becomes.
use tcpflow.Base.{
  ℕ, zero, suc, ◌≡◌, refl, ap, ◌∙◌, ◌≢◌, Bool, true, false, ◌&&◌, ◌||◌, some, List, [], ◌∷◌, ◌++◌,
  map, arith, get_elem?, ltb, ◌==◌,
}
use tcpflow.Base.Maps
use tcpflow.Base.Maps.{find, insert}
use tcpflow.Flow.Addr.{same_bytes, same_bytes_iff}
use tcpflow.Demux.Os.{path_eq}
use tcpflow.Mime.{MimeMap, mime_map, to_lower, base_type, get_extension_for_mime_type}

-- The order of byte strings.
abbrev bytes_lt : List ℕ → List ℕ → Bool
bytes_lt [] [] = false
bytes_lt [] (y ∷ t) = true
bytes_lt (x ∷ s) [] = false
bytes_lt (x ∷ s) (y ∷ t) = ltb x y || (x == y && bytes_lt s t)

bytes_lt_irrefl : (s : List ℕ) → bytes_lt s s ≡ false
bytes_lt_irrefl [] = refl
bytes_lt_irrefl (x ∷ s) = ground (arith, bytes_lt_irrefl s)

bytes_lt_trans : (s t u : List ℕ) → bytes_lt s t ≡ true → bytes_lt t u ≡ true → bytes_lt s u ≡ true
bytes_lt_trans [] [] u h k = cc
bytes_lt_trans [] (y ∷ t) [] h k = k
bytes_lt_trans [] (y ∷ t) (z ∷ u) h k = refl
bytes_lt_trans (x ∷ s) [] u h k = cc
bytes_lt_trans (x ∷ s) (y ∷ t) [] h k = cc
bytes_lt_trans (x ∷ s) (y ∷ t) (z ∷ u) h k = ground (arith, bytes_lt_trans s t u)

-- Each key is above `low`, and the keys rise.
abbrev rises : List ℕ → MimeMap → Bool
rises low [] = true
rises low ((k, v) ∷ m) = bytes_lt low k && rises k m

mime_map-rises : rises [] mime_map ≡ true
unfolding mime_map
mime_map-rises = refl

rises-lt :
    (low : List ℕ) (m : MimeMap) (i : ℕ) (k v : List ℕ)
    → rises low m ≡ true
    → get_elem? m i ≡ some (k, v)
    → bytes_lt low k ≡ true
rises-lt low [] i k v h e = cc
rises-lt low ((j, w) ∷ m) zero k v h e = ground arith
rises-lt low ((j, w) ∷ m) (suc i) k v h e =
    ground (arith, rises-lt j m i k v, bytes_lt_trans low j k)

find-rises :
    (low : List ℕ) (m : MimeMap) (i : ℕ) (k v : List ℕ)
    → rises low m ≡ true
    → get_elem? m i ≡ some (k, v)
    → find same_bytes k m ≡ some v
unfolding find
find-rises low [] i k v h e = cc
find-rises low ((j, w) ∷ m) zero k v h e = ground (arith, same_bytes_iff j k)
find-rises low ((j, w) ∷ m) (suc i) k v h e =
    ground (arith, same_bytes_iff j k, rises-lt j m i k v, bytes_lt_irrefl k, find-rises j m i k v)

abbrev HasNoSemicolon : List ℕ → Type 0
HasNoSemicolon [] = Unit {0}
HasNoSemicolon (c ∷ s) = (c ≢ 59) × HasNoSemicolon s

base_type-parameters : (s rest : List ℕ) → HasNoSemicolon s → base_type (s ++ 59 ∷ rest) ≡ s
unfolding base_type
base_type-parameters [] rest h = refl
base_type-parameters (c ∷ s) rest h = ground (arith, base_type-parameters s rest h.1)

base_type_plain : (s : List ℕ) → HasNoSemicolon s → base_type s ≡ s
unfolding base_type
base_type_plain [] h = refl
base_type_plain (c ∷ s) h = ground (arith, base_type_plain s h.1)

get_extension_found :
    (s v : List ℕ) (m : MimeMap)
    → find same_bytes (map to_lower (base_type s)) m ≡ some v
    → get_extension_for_mime_type s m ≡ (v, m)
unfolding get_extension_for_mime_type
get_extension_found s v m e = ground (arith, e)

-- A type of the table in any spelling of upper and lower case, with parameters behind a semicolon
-- or without, finds the extension of its entry, and leaves the table alone.
pub get_extension_of_entry :
    (i : ℕ) (k v s parameters : List ℕ)
    → get_elem? mime_map i ≡ some (k, v)
    → map to_lower s ≡ k
    → HasNoSemicolon s
    → (get_extension_for_mime_type s mime_map ≡ (v, mime_map))
      × (get_extension_for_mime_type (s ++ 59 ∷ parameters) mime_map ≡ (v, mime_map))
get_extension_of_entry i k v s parameters e l h =
    let f = find-rises [] mime_map i k v mime_map-rises e in
    let spelled = λ (t : List ℕ) (same : base_type t ≡ s). get_extension_found t v mime_map (
      ap (λ q. find same_bytes (map to_lower q) mime_map) same
      ∙ ap (λ q. find same_bytes q mime_map) l
      ∙ f) in
    (
      spelled s (base_type_plain s h),
      spelled (s ++ 59 ∷ parameters) (base_type-parameters s parameters h),
    )

-- Looking up one type, known or not, changes the answer for no type.
pub get_extension_unchanged :
    (a b : List ℕ) (m : MimeMap)
    → (get_extension_for_mime_type b (get_extension_for_mime_type a m).1).0
      ≡ (get_extension_for_mime_type b m).0
unfolding get_extension_for_mime_type
get_extension_unchanged a b m =
    let key = map to_lower (base_type a) in
    let other = map to_lower (base_type b) in
    ground (arith, Maps.find-insert path_eq key other [] m, same_bytes_iff key other)
