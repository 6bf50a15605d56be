-- ===== src/Server/Private.antt =====
-- server.go: isPrivateIP against the subnets it names.
use file_share_p2p.Prelude.{ℕ, ◌+◌, ◌-◌, ◌*◌, ◌/◌, ◌^◌, ◌<◌, Bool, ◌||◌, ◌≡◌, arith, eqb}
use file_share_p2p.Server.Connect.{v4, is_private_ip}

-- An address of four bytes as a number.
abbrev pub number_of : ℕ → ℕ → ℕ → ℕ → ℕ
number_of a b c d = a * 2 ^ 24 + b * 2 ^ 16 + c * 2 ^ 8 + d

-- The first `prefix` bits of an address of 32 are those of the network.
abbrev pub in_subnet : ℕ → ℕ → ℕ → Bool
in_subnet network prefix address = eqb (address / 2 ^ (32 - prefix)) (network / 2 ^ (32 - prefix))

-- An address of four bytes is private where it lies in 10.0.0.0/8, 172.16.0.0/12 or 192.168.0.0/16,
-- the networks of the list in isPrivateIP, or is a loopback address, 127.0.0.0/8.
pub is_private_ip-v4 :
    (a b c d : ℕ)
    → a < 256
    → b < 256
    → c < 256
    → d < 256
    → is_private_ip (v4 a b c d) ≡ (
        in_subnet (number_of 10 0 0 0) 8 (number_of a b c d)
        || in_subnet (number_of 172 16 0 0) 12 (number_of a b c d)
        || in_subnet (number_of 192 168 0 0) 16 (number_of a b c d)
        || in_subnet (number_of 127 0 0 0) 8 (number_of a b c d))
unfolding is_private_ip
is_private_ip-v4 a b c d la lb lc ld = ground arith
