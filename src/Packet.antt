-- ===== src/Packet.antt =====
-- uwAppNet_cmn_header.h: the application header of a packet, beside the fields of the other headers
-- that the module reads or writes (those are declared by ns2 and DESERT).
use desert_addon_uwapp_net.Common.{ℕ, Bool, List}

-- MAX_LENGTH_PAYLOAD
abbrev pub max_length_payload : ℕ
max_length_payload = 4096

-- `struct hdr_DATA_APPLICATION`; the accessor functions of the struct return these fields.
pub record DataApplication : Type 0 where
  pub sn : ℕ  -- uint16_t
  pub app_rftt : ℕ  -- int
  pub rftt_valid : Bool
  pub priority : ℕ  -- uint8_t
  pub payload_size : ℕ  -- uint16_t
  pub payload_msg : List ℕ  -- char[MAX_LENGTH_PAYLOAD]

-- A packet over the type of simulation times.
pub record Packet (Double : Type 0) : Type 0 where
  pub app : DataApplication
  pub open app use *
  pub uid : ℕ
  pub ptype : ℕ
  pub direction : ℕ
  pub timestamp : Double
  pub size : ℕ
  pub dport : ℕ
  pub daddr : ℕ
