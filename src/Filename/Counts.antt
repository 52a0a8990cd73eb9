-- ===== src/Filename/Counts.antt =====
-- src/flow.cpp: the names that the default template gives a flow by its connection count.
use tcpflow.Base.{
  ℕ, zero, suc, ◌≡◌, refl, sym, ap, ◌∙◌, false, some, List, [], ◌∷◌, ◌++◌, arith, ltb,
  if◌then◌else◌,
}
use mathlib.Core.Option
use mathlib.Core.List.{append_cancel_left, append_cancel_right}
use tcpflow.Flow.{Flow}
use tcpflow.Filename.{
  Naming, filename, expand, substitute, directory, default_template, address_text, no_vlan,
}
use tcpflow.Filename.Print.{decimal, pad, signed_decimal}
use tcpflow.Commas.ReadBack.{read_on, read_on-decimal}

-- What `%C%c` stands for.
abbrev counted : ℕ → List ℕ
counted i = (if ltb 0 i then 99 ∷ [] else []) ++ ((if ltb 0 i then decimal i else []) ++ [])

counted_suc : (i : ℕ) → counted (suc i) ≡ 99 ∷ (decimal (suc i) ++ [])
counted_suc i = ground arith

counted_apart : (i j : ℕ) → counted i ≡ counted j → i ≡ j
counted_apart zero zero e = refl
counted_apart zero (suc j) e = absurd (ground (arith, e))
counted_apart (suc i) zero e = absurd (ground (arith, e))
counted_apart (suc i) (suc j) e =
    let same : decimal (suc i) ++ [] ≡ decimal (suc j) ++ [] =
      append_cancel_left (99 ∷ []) (decimal (suc i) ++ []) (decimal (suc j) ++ [])
        (sym (counted_suc i) ∙ e ∙ counted_suc j) in
    sym (read_on-decimal (suc i))
    ∙ ap (read_on 0) (append_cancel_right (decimal (suc i)) (decimal (suc j)) [] same)
    ∙ read_on-decimal (suc j)

module _ (env : Naming) (f : Flow) where
  -- What stands before the count, and behind the directory.
  abbrev before : List ℕ → List ℕ
  before rest =
      address_text env f 0 f.addr.src
      ++ 46
        ∷ (pad 5 (decimal f.addr.sport)
            ++ 45
              ∷ (address_text env f 0 f.addr.dst
                  ++ 46
                    ∷ (pad 5 (decimal f.addr.dport)
                        ++ ((if no_vlan f.vlan then [] else 45 ∷ 45 ∷ [])
                            ++ ((if no_vlan f.vlan then [] else signed_decimal f.vlan) ++ rest)))))

  abbrev pub default_name : ℕ → List ℕ
  default_name i = directory env f 0 ++ before (counted i) ++ []

  pub filename-default_name :
      (i : ℕ) → env.template ≡ default_template → filename env f i false ≡ some (default_name i)
  unfolding filename expand substitute directory address_text
  filename-default_name i e =
      ap (λ t. Option.map (λ s. directory env f i ++ s ++ []) (expand env f i t)) e

  before_apart : (k l : List ℕ) → before k ≡ before l → k ≡ l
  before_apart k l e =
      append_cancel_left (if no_vlan f.vlan then [] else signed_decimal f.vlan) _ _ (
        append_cancel_left (if no_vlan f.vlan then [] else 45 ∷ 45 ∷ []) _ _ (
          append_cancel_left (46 ∷ pad 5 (decimal f.addr.dport)) _ _ (
            append_cancel_left (45 ∷ address_text env f 0 f.addr.dst) _ _ (
              append_cancel_left (46 ∷ pad 5 (decimal f.addr.sport)) _ _
                (append_cancel_left (address_text env f 0 f.addr.src) _ _ e)))))

  pub default_name_apart : (i j : ℕ) → default_name i ≡ default_name j → i ≡ j
  default_name_apart i j e = counted_apart i j (
      before_apart (counted i) (counted j) (
        append_cancel_left (directory env f 0) (before (counted i)) (before (counted j)) (
          append_cancel_right (directory env f 0 ++ before (counted i))
            (directory env f 0 ++ before (counted j)) [] e)))
