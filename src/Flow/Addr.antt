-- ===== src/Flow/Addr.antt =====
-- src/tcpip.h: `class ipaddr` and `class flow_addr`, the key of every map of flows.
use tcpflow.Base.{ℕ, ◌≡◌, refl, ◌↔◌, Bool, true, false, ◌&&◌, List, [], ◌∷◌, arith, ◌==◌, ==_iff}
use tcpflow.Base.Maps.{Eq}

-- 16 bytes; an IPv4 address holds the first four and zeros.
abbrev pub IpAddr : Type 0
IpAddr = List ℕ

-- `memcmp(a, b, 16) == 0`.
unfoldable pub same_bytes : IpAddr → IpAddr → Bool
same_bytes [] [] = true
same_bytes [] (y ∷ ys) = false
same_bytes (x ∷ xs) [] = false
same_bytes (x ∷ xs) (y ∷ ys) = x == y && same_bytes xs ys

pub same_bytes_iff : (a b : IpAddr) → (same_bytes a b ≡ true) ↔ (a ≡ b)
unfolding same_bytes
same_bytes_iff [] [] = (λ _. refl, λ _. refl)
same_bytes_iff [] (y ∷ ys) = (λ e. cc, λ e. cc)
same_bytes_iff (x ∷ xs) [] = (λ e. cc, λ e. cc)
same_bytes_iff (x ∷ xs) (y ∷ ys) = ground (arith, ==_iff x y, same_bytes_iff xs ys)

pub record FlowAddr : Type 0 where
  pub src : IpAddr
  pub dst : IpAddr
  pub sport : ℕ
  pub dport : ℕ
  pub family : ℕ

-- `flow_addr::operator ==`.
unfoldable pub same_addr : FlowAddr → FlowAddr → Bool
same_addr a b =
    same_bytes a.src b.src
    && (same_bytes a.dst b.dst
        && (a.sport == b.sport && (a.dport == b.dport && a.family == b.family)))

-- The test of flow addresses holds just when the two agree in addresses, ports and family.
pub same_addr_iff : (a b : FlowAddr) → (same_addr a b ≡ true) ↔ (a ≡ b)
unfolding same_addr
same_addr_iff a b = ground (arith, same_bytes_iff a.src b.src, same_bytes_iff a.dst b.dst)

abbrev pub flow_addr_eq : Eq FlowAddr
flow_addr_eq = record { beq = same_addr; beq_iff = same_addr_iff }

-- The address of the opposite direction.
unfoldable pub reverse_addr : FlowAddr → FlowAddr
reverse_addr a = record a { src = a.dst; dst = a.src; sport = a.dport; dport = a.sport }
