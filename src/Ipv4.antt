-- ===== src/Ipv4.antt =====
-- IPv4 addresses as Rust's `Ipv4Addr` has them, a u32 in host order, and the tests on them that
-- crates/onv-hostnet/src/opening.rs makes: `not_public` and `in_egress`.
use omnuv_provider.Base.{
  ℕ, ◌+◌, ◌*◌, ◌-◌, ◌/◌, ◌%◌, ◌^◌, Bool, ◌&&◌, ◌||◌, not, List, [], ◌∷◌, Option, none, some,
  if◌then◌else◌, leb, ◌==◌, ◌>>=◌, length, all,
}
use omnuv_provider.Base.Text.{Text, is_digit, split}
use omnuv_provider.Base.Decimal.{scan}

abbrev pub octets : ℕ → ℕ → ℕ → ℕ → ℕ
octets a b c d = ((a * 256 + b) * 256 + c) * 256 + d

abbrev pub octet0 : ℕ → ℕ
octet0 ip = ip / 2 ^ 24

abbrev pub octet1 : ℕ → ℕ
octet1 ip = ip / 2 ^ 16 % 256

abbrev pub octet3 : ℕ → ℕ
octet3 ip = ip % 256

-- One part of a dotted address: one to three digits, no zero in front of another, at most 255.
unfoldable pub octet : Text → Option ℕ
octet [] = none
octet (c ∷ s) =
    if leb (length s) 2 && all is_digit (c ∷ s) && (leb (length s) 0 || not (c == b'0'))
    then scan 256 0 (c ∷ s)
    else none

unfoldable pub dotted : List Text → Option ℕ
dotted (a ∷ b ∷ c ∷ d ∷ []) = octet a >>= λ a'.
    octet b >>= λ b'. octet c >>= λ c'. octet d >>= λ d'. some (octets a' b' c' d')
dotted _ = none

-- `s.parse::<Ipv4Addr>()`
unfoldable pub parse_ip : Text → Option ℕ
parse_ip s = dotted (split (λ c. c == b'.') s)

-- Why an address cannot be reached from the internet.
pub data Unreachable : Type 0 where
  rfc1918 : Unreachable
  loopback : Unreachable
  link_local : Unreachable
  carrier_nat : Unreachable
  not_unicast : Unreachable

abbrev pub is_private : ℕ → Bool
is_private ip =
    (octet0 ip == 10)
    || ((octet0 ip == 172) && leb 16 (octet1 ip) && leb (octet1 ip) 31)
    || ((octet0 ip == 192) && (octet1 ip == 168))

abbrev pub is_multicast : ℕ → Bool
is_multicast ip = leb 224 (octet0 ip) && leb (octet0 ip) 239

unfoldable pub not_public : ℕ → Option Unreachable
not_public ip =
    if is_private ip
    then some rfc1918
    else if octet0 ip == 127
    then some loopback
    else if (octet0 ip == 169) && (octet1 ip == 254)
    then some link_local
    else if (octet0 ip == 100) && (octet1 ip / 64 == 1)
    then some carrier_nat
    else if is_multicast ip
        || (ip == octets 255 255 255 255)
        || (ip == 0)
        || (octet0 ip == 0)
        || leb 240 (octet0 ip)
    then some not_unicast
    else none

-- `EGRESS_NET`, 10.201.0.0/24, with a mask that keeps the first 24 bits.
abbrev pub egress_net : ℕ × ℕ
egress_net = (octets 10 201 0 0, 24)

unfoldable pub in_egress : ℕ → Bool
in_egress a = let (net, len) = egress_net in a / 2 ^ (32 - len) * 2 ^ (32 - len) == net
