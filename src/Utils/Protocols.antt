-- ===== src/Utils/Protocols.antt =====
-- GetIndexForProtocol and GetProtocolForIndex of code/utils.cpp.
use zk_libcod.Prelude.{ℕ, ◌<◌, ◌≡◌, ◌⊎◌, arith}
use zk_libcod.Prelude.Int.{ℤ, pos}
use zk_libcod.Utils.{protocol_count, get_index_for_protocol, get_protocol_for_index}

-- Every protocol has an index that an array of PROTOCOL_COUNT entries has; each index below that is the one of the
-- protocol that it stands for; and a protocol is had back from its index or is one that counts as 118.
pub get_index_for_protocol-get_protocol_for_index :
    (protocol : ℤ) (index : ℕ)
    → index < protocol_count
    → (get_index_for_protocol protocol < protocol_count)
      × (get_index_for_protocol (get_protocol_for_index (pos index)) ≡ index)
      × ((get_protocol_for_index (pos (get_index_for_protocol protocol)) ≡ protocol)
          ⊎ (get_protocol_for_index (pos (get_index_for_protocol protocol)) ≡ pos 118))
unfolding get_index_for_protocol get_protocol_for_index
get_index_for_protocol-get_protocol_for_index protocol index h =
    (ground arith, ground arith, ground arith)
