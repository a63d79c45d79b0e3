-- ===== src/Tunnel/Packet.antt =====
-- The packet tests of internal/tunnel/tun.go.
use the_family_vpn.Base.{
  ltb, ◌==◌, if◌then◌else◌, length, get_or, Bytes, ℕ, ◌/◌, ◌^◌, Bool, false, ◌||◌, Option, none,
  some, [], ◌∷◌,
}

-- IsValidIPPacket: the version is in the high four bits of the first byte.
unfoldable pub is_valid_ip_packet : Bytes → Bool
is_valid_ip_packet [] = false
is_valid_ip_packet (b ∷ rest) = (b / 2 ^ 4 == 4) || (b / 2 ^ 4 == 6)

pub record Ipv4 : Type 0 where
  pub a : ℕ
  pub b : ℕ
  pub c : ℕ
  pub d : ℕ

-- GetDestinationIP
unfoldable pub get_destination_ip : Bytes → Option Ipv4
get_destination_ip packet =
    if ltb (length packet) 20
    then none
    else some (record {
      a = get_or packet 16 0;
      b = get_or packet 17 0;
      c = get_or packet 18 0;
      d = get_or packet 19 0;
    })
