-- ===== src/Sim.antt =====
-- What the module uses of ns2, DESERT and the floating-point unit, none of which the repository
-- holds: `double`, packet allocation and two constants. No law of `double` is assumed.
use desert_addon_uwapp_net.Common.{ℕ, ◌≡◌, Bool, length}
use desert_addon_uwapp_net.Packet.{Packet, max_length_payload}

pub record Sim : Type 1 where
  pub Double : Type 0
  pub zero_double : Double
  pub one_double : Double
  pub add : Double → Double → Double
  pub sub : Double → Double → Double
  pub mul : Double → Double → Double
  pub div : Double → Double → Double
  pub sqrt : Double → Double
  pub is_positive : Double → Bool
  pub is_zero : Double → Bool
  -- conversions between `double` and `int`, and from `uint32_t`
  pub of_int : ℕ → Double
  pub to_int : Double → ℕ
  pub of_uint32 : ℕ → Double
  -- `Packet::alloc()`: a packet whose header has room for a whole payload
  pub alloc : Packet Double
  pub alloc_room : length alloc.payload_msg ≡ max_length_payload
  -- `PT_DATA_APPLICATION`, which `p_info::addPacket` hands out, and `hdr_cmn::DOWN`
  pub pt_data_application : ℕ
  pub down : ℕ
