-- ===== src/Utils.antt =====
-- Helpers of code/utils.cpp that compute without the engine: the protocols of the game versions, and IsLocalIPAddress.
pub mod Networks
pub mod Protocols
use zk_libcod.Prelude.{ℕ, Bool, true, false, ◌&&◌, ◌||◌, leb, ◌==◌, if◌then◌else◌}
use zk_libcod.Prelude.Int.{ℤ, pos, eqb_ℤ}

-- The four bytes of an address.
pub record Ip : Type 0 where
  pub b0 : ℕ
  pub b1 : ℕ
  pub b2 : ℕ
  pub b3 : ℕ

pub is_local_ip_address : Ip → Bool
is_local_ip_address ip =
    (ip.b0 == 10)
    || ((ip.b0 == 172) && (leb 16 ip.b1 && leb ip.b1 31))
    || ((ip.b0 == 192) && (ip.b1 == 168))
    || ((ip.b0 == 169) && (ip.b1 == 254))
    || ((ip.b0 == 127) && ((ip.b1 == 0) && ((ip.b2 == 0) && (ip.b3 == 1))))

-- PROTOCOL_COUNT of declarations.hpp; the four protocols have the indices before it.
abbrev pub protocol_count : ℕ
protocol_count = 4

pub get_index_for_protocol : ℤ → ℕ
get_index_for_protocol protocol =
    if eqb_ℤ protocol (pos 115)
    then 0
    else (if eqb_ℤ protocol (pos 117)
        then 1
        else (if eqb_ℤ protocol (pos 118) then 2 else (if eqb_ℤ protocol (pos 119) then 3 else 2)))

pub get_protocol_for_index : ℤ → ℤ
get_protocol_for_index index =
    if eqb_ℤ index (pos 0)
    then pos 115
    else (if eqb_ℤ index (pos 1)
        then pos 117
        else (if eqb_ℤ index (pos 2)
            then pos 118
            else (if eqb_ℤ index (pos 3) then pos 119 else pos 118)))
