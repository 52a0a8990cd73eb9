-- ===== src/Filename.antt =====
-- src/flow.cpp: the name of a transcript file, from the template of option -T; src/util.cpp: macaddr.
pub mod Print
pub mod Counts
pub mod Options
use tcpflow.Base.{
  ℕ, zero, suc, ◌+◌, ◌-◌, ◌*◌, ◌/◌, ◌%◌, ◌^◌, ◌≤◌, ◌<◌, min, max, ◌≡◌, refl, sym, ap, ap₂, subst,
  ◌∙◌, fun_ext, ◌≢◌, ◌↔◌, ◌⊎◌, inl, inr, Bool, true, false, not, ◌&&◌, ◌||◌, Option, none, some,
  List, [], ◌∷◌, ◌++◌, map, append_assoc, append-nil, arith, dec_lt, dec_le, ℕ_discrete, length,
  get_elem?, set, length-append, length-set, get_elem?-set_self, get_elem?-set_ne, get_or, take,
  drop, replicate, take-append-drop, length-take, length-drop, length-replicate, length-map, ltb,
  leb, ◌==◌, if◌then◌else◌, ltb→lt, lt→ltb, leb→le, ==_iff, tests, Bool-cases, Option-cases,
}
use tcpflow.Base.Int.{ℤ, pos, negsuc}
use tcpflow.Base.Word.{u32, signed32}
use tcpflow.Flow.{Flow, TimeVal}
use mathlib.Core.Option
use tcpflow.Flow.Addr.{same_bytes}
use Print.{decimal, pad, signed_decimal, padded3, hex2}

-- The settings `filename_template` and `outdir`, the constants of the system, and the library
-- calls whose text the names take: `inet_ntop` and `strftime`.
pub record Naming : Type 0 where
  pub template : List ℕ
  pub outdir : List ℕ
  pub af_inet : ℕ
  pub af_inet6 : ℕ
  pub inet_ntop : List ℕ → List ℕ
  pub iso8601 : TimeVal → List ℕ

-- "%A.%a-%B.%b%V%v%C%c".
abbrev pub default_template : List ℕ
default_template =
    37 ∷ 65 ∷ 46 ∷ 37 ∷ 97 ∷ 45 ∷ 37 ∷ 66 ∷ 46 ∷ 37 ∷ 98 ∷ 37 ∷ 86 ∷ 37 ∷ 118 ∷ 37 ∷ 67 ∷ 37 ∷ 99
    ∷ []

-- `macaddr` of util.cpp, and the same format in flow.cpp.
unfoldable pub macaddr : List ℕ → List ℕ
unfolding hex2
macaddr a =
    hex2 (get_or a 0 0)
    ++ 58 ∷ hex2 (get_or a 1 0)
    ++ 58 ∷ hex2 (get_or a 2 0)
    ++ 58 ∷ hex2 (get_or a 3 0)
    ++ 58 ∷ hex2 (get_or a 4 0)
    ++ 58 ∷ hex2 (get_or a 5 0)

-- "%03d.%03d.%03d.%03d".
unfoldable pub dotted : List ℕ → List ℕ
unfolding pad decimal
dotted a =
    pad 3 (decimal (get_or a 0 0))
    ++ (46
        ∷ (pad 3 (decimal (get_or a 1 0))
            ++ (46 ∷ (pad 3 (decimal (get_or a 2 0)) ++ (46 ∷ pad 3 (decimal (get_or a 3 0)))))))

-- The remainder of C, with the sign of the dividend.
abbrev pub rem1000 : ℤ → ℤ
rem1000 (pos n) = pos (n % 1000)
rem1000 (negsuc n) = if suc n % 1000 == 0 then pos 0 else negsuc (suc n % 1000 - 1)

-- `-1`, be13::packet_info::NO_VLAN.
abbrev pub no_vlan : ℤ → Bool
no_vlan (pos n) = false
no_vlan (negsuc n) = n == 0

module _ (env : Naming) (f : Flow) (connection_count : ℕ) where
  unfoldable pub address_text : List ℕ → List ℕ
  unfolding dotted
  address_text a =
      if f.addr.family == env.af_inet
      then dotted a
      else if f.addr.family == env.af_inet6
      then env.inet_ntop a
      else []

  -- The inner switch: what `%c` stands for; `none` is the exit on an unknown letter.
  unfoldable pub substitute : ℕ → Option (List ℕ)
  unfolding address_text pad decimal macaddr padded3 signed_decimal
  substitute c =
      if c == b'A'
      then some (address_text f.addr.src)
      else if c == b'a'
      then some (pad 5 (decimal f.addr.sport))
      else if c == b'B'
      then some (address_text f.addr.dst)
      else if c == b'b'
      then some (pad 5 (decimal f.addr.dport))
      else if c == b'E'
      then some (macaddr f.mac_saddr)
      else if c == b'e'
      then some (macaddr f.mac_daddr)
      else if c == b'N'
      then some (padded3 (rem1000 (signed32 (f.id % u32))))
      else if c == b'K'
      then some (padded3 (rem1000 (signed32 (f.id / 1000 % u32))))
      else if c == b'M'
      then some (padded3 (rem1000 (signed32 (f.id / 1000000 % u32))))
      else if c == b'G'
      then some (padded3 (rem1000 (signed32 (f.id / 1000000000 % u32))))
      else if c == b'T'
      then some (env.iso8601 f.tstart)
      else if c == b't'
      then some (decimal f.tstart.sec)
      else if c == b'V'
      then some (if no_vlan f.vlan then [] else 45 ∷ 45 ∷ [])
      else if c == b'v'
      then some (if no_vlan f.vlan then [] else signed_decimal f.vlan)
      else if c == b'C'
      then some (if ltb 0 connection_count then b'c' ∷ [] else [])
      else if c == b'c'
      then some (if ltb 0 connection_count then decimal connection_count else [])
      else if c == b'S'
      then some (pad 20 (decimal f.session_id))
      else if c == b'#'
      then some (decimal connection_count)
      else if c == b'%'
      then some (b'%' ∷ [])
      else none

  -- The walk over the template; `none` also for a template that ends in `%`.
  unfoldable pub expand : List ℕ → Option (List ℕ)
  expand [] = some []
  expand (c ∷ []) = if c == b'%' then none else some (c ∷ [])
  expand (c ∷ d ∷ rest) = elim (c == b'%') [
    | false ↦ Option.map (λ s. c ∷ s) (expand (d ∷ rest))
    | true ↦ elim (substitute d) [
      | none ↦ none
      | some text ↦ Option.map (λ s. text ++ s) (expand rest)
    ]
  ]

  -- The prefix for the output directory.
  unfoldable pub directory : List ℕ
  unfolding same_bytes
  directory =
      if same_bytes env.outdir (46 ∷ []) || same_bytes env.outdir []
      then []
      else env.outdir ++ 47 ∷ []

  unfoldable pub filename : Bool → Option (List ℕ)
  unfolding directory expand substitute
  filename is_pcap =
      Option.map (λ s. directory ++ s ++ (if is_pcap then 46 ∷ 112 ∷ 99 ∷ 97 ∷ 112 ∷ [] else []))
        (expand env.template)
