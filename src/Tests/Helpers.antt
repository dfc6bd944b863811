-- ===== src/Tests/Helpers.antt =====
-- The theorems on the helpers of code/utils.cpp, applied to an address and to protocols.
use zk_libcod.Prelude.{◌<◌, ◌≡◌, ◌⊎◌, ◌||◌, arith}
use zk_libcod.Prelude.Int.{pos}
use zk_libcod.Utils.{
  Ip, is_local_ip_address, protocol_count, get_index_for_protocol, get_protocol_for_index,
}
use zk_libcod.Utils.Networks.{address, is_in_network, is_local_ip_address-networks}
use zk_libcod.Utils.Protocols.{get_index_for_protocol-get_protocol_for_index}

-- 172.20.0.7
abbrev host : Ip
host = record { b0 = 172; b1 = 20; b2 = 0; b3 = 7 }

is_local_ip_address-networks_example : is_local_ip_address host ≡ (
    is_in_network 8 167772160 (address host)
    || is_in_network 12 2886729728 (address host)
    || is_in_network 16 3232235520 (address host)
    || is_in_network 16 2851995648 (address host)
    || is_in_network 32 2130706433 (address host))
is_local_ip_address-networks_example =
    is_local_ip_address-networks host (omega arith) (omega arith) (omega arith) (omega arith)

get_index_for_protocol-get_protocol_for_index_example :
    (get_index_for_protocol (pos 117) < protocol_count)
    × (get_index_for_protocol (get_protocol_for_index (pos 3)) ≡ 3)
    × ((get_protocol_for_index (pos (get_index_for_protocol (pos 117))) ≡ pos 117)
        ⊎ (get_protocol_for_index (pos (get_index_for_protocol (pos 117))) ≡ pos 118))
get_index_for_protocol-get_protocol_for_index_example =
    get_index_for_protocol-get_protocol_for_index (pos 117) 3 (omega arith)
