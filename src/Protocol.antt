-- ===== src/Protocol.antt =====
-- visuara-common/src/signaling.rs: the messages between a client and the signaling server.
-- A text is a native `String`, a u32 a number; serde's encoding of the messages is not modelled.
use visuara.Prelude.{ℕ, Bool, List, Option, String}

abbrev pub DeviceId : Type 0
DeviceId = String

abbrev pub SessionId : Type 0
SessionId = String

pub data ConnectCredential : Type 0 where
  one_time_password unattended_password : String → ConnectCredential

pub data ClientMessage : Type 0 where
  register login : String → String → ClientMessage
  register_device : String → ClientMessage
  list_devices : ClientMessage
  request_connection : DeviceId → ConnectCredential → ClientMessage
  sdp_offer sdp_answer ice_candidate : SessionId → String → ClientMessage
  request_turn_credentials : ClientMessage
  set_unattended_password : DeviceId → String → ClientMessage

pub record DeviceSummary : Type 0 where
  pub device_id : DeviceId
  pub name : String
  pub online : Bool
  pub unattended_access_enabled : Bool

pub data ServerMessage : Type 0 where
  auth_ok auth_error : String → ServerMessage
  device_registered : DeviceId → String → ServerMessage
  device_list : List DeviceSummary → ServerMessage
  incoming_connection : SessionId → Option DeviceId → ServerMessage
  connection_established : SessionId → DeviceId → ServerMessage
  sdp_offer sdp_answer ice_candidate : SessionId → String → ServerMessage
  turn_credentials : List String → String → String → ℕ → ServerMessage
  unattended_password_updated : String → ServerMessage
  error : String → ServerMessage
