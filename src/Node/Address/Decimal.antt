-- ===== src/Node/Address/Decimal.antt =====
-- Two addresses of the pool have the same text only if they are the same.
use the_family_vpn.Base.{drop, decimal-injective, ℕ, ◌≡◌, ap}
use the_family_vpn.Node.Address.{vpn_ip}

pub vpn_ip-injective : (m n : ℕ) → vpn_ip m ≡ vpn_ip n → m ≡ n
unfolding vpn_ip
vpn_ip-injective m n h = decimal-injective m n (ap (drop 7) h)
