-- ===== src/State.antt =====
-- visuara-signaling/src/state.rs: what the request handlers share. A DashMap is a function from keys
-- to optional values. A connection's sender is the channel that it feeds: whether its receiver is
-- alive, and what was sent, the latest first.
use visuara.Prelude.{Bool, List, Option, none, some, String, str_eq, if◌then◌else◌}
use visuara.Protocol.{ServerMessage}
use visuara.Db.{Db}
use visuara.Turn.{TurnConfig}

-- A v4 UUID, by its text.
abbrev pub ConnectionId : Type 0
ConnectionId = String

pub record Channel : Type 0 where
  pub receiving : Bool
  pub sent : List ServerMessage

pub record SessionPeers : Type 0 where
  pub a : ConnectionId
  pub b : ConnectionId

unfoldable pub other : SessionPeers → ConnectionId → Option ConnectionId
other peers me =
    if str_eq peers.a me then some peers.b else if str_eq peers.b me then some peers.a else none

abbrev pub Map : Type 0 → Type 0
Map V = String → Option V

abbrev pub insert : {V : Type 0} → String → V → Map V → Map V
insert k v m j = if str_eq k j then some v else m j

abbrev pub remove : {V : Type 0} → String → Map V → Map V
remove k m j = if str_eq k j then none else m j

pub record AppState : Type 0 where
  pub db : Db
  pub turn : TurnConfig
  pub connections : Map Channel
  pub device_online : Map ConnectionId
  pub otp : Map String
  pub sessions : Map SessionPeers
  pub client_templates_dir : String
  pub fetched_templates_dir : String
