-- ===== src/Utils/Networks.antt =====
-- IsLocalIPAddress of code/utils.cpp tests for the private networks of RFC 1918, the link-local one, and one host.
use zk_libcod.Prelude.{ℕ, ◌+◌, ◌*◌, ◌/◌, ◌^◌, ◌-◌, ◌<◌, ◌≡◌, arith, ◌==◌, ◌||◌, Bool}
use zk_libcod.Utils.{Ip, is_local_ip_address}

-- The address as a number of 32 bits.
abbrev pub address : Ip → ℕ
address ip = ip.b0 * 2 ^ 24 + ip.b1 * 2 ^ 16 + ip.b2 * 2 ^ 8 + ip.b3

-- Whether the first `bits` bits are those of a network.
abbrev pub is_in_network : ℕ → ℕ → ℕ → Bool
is_in_network bits network n = n / 2 ^ (32 - bits) == network / 2 ^ (32 - bits)

-- For an address of four bytes, the tests are those for 10.0.0.0/8, 172.16.0.0/12, 192.168.0.0/16, 169.254.0.0/16
-- and 127.0.0.1/32.
pub is_local_ip_address-networks :
    (ip : Ip)
    → ip.b0 < 256
    → ip.b1 < 256
    → ip.b2 < 256
    → ip.b3 < 256
    → is_local_ip_address ip ≡ (
        is_in_network 8 167772160 (address ip)
        || is_in_network 12 2886729728 (address ip)
        || is_in_network 16 3232235520 (address ip)
        || is_in_network 16 2851995648 (address ip)
        || is_in_network 32 2130706433 (address ip))
unfolding is_local_ip_address
is_local_ip_address-networks ip h0 h1 h2 h3 = ground arith
