-- ===== src/Client/Controller/Tests.antt =====
-- Concrete runs of the controller.
use visuara.Prelude.{
  ℕ, ◌≡◌, refl, true, false, none, some, Option, List, [], ◌∷◌, ◌++◌, str_eq, if◌then◌else◌, take,
}
use visuara.Protocol.{ServerMessage, error}
use visuara.Protocol
use visuara.Control.{
  ControlMessage, MonitorInfo, type_text, input, clipboard, text_updated, monitor, list_request,
  switch_request,
}
use visuara.Client.Controller.{Peer, wants_answer, connected, failed, negotiate}
use visuara.Client.Controller.Candidates.{negotiate-connects}
use visuara.Client.Host.Channel.{HostSide}
use visuara.Client.Controller.Channel.{ControllerSide}
use visuara.Client.Controller.Video.{
  Codec, read_video_track, units_of, frames_of, read_video_track-frames_of,
}
use visuara.Fixtures.{empty_disk}

-- WebRTC that takes everything but the candidate "bad".
abbrev eager : Peer
eager = record {
  builds = λ servers. true;
  offer = some "offer";
  decodes = λ c. if str_eq c "bad" then false else true;
  accepts = λ remote c. remote;
  accepts_needs_remote = λ c. refl;
  takes = λ sdp. true;
}

abbrev before : List ServerMessage
before =
    Protocol.ServerMessage.ice_candidate "other" "one"
    ∷ Protocol.ServerMessage.sdp_answer "other" "x"
    ∷ error "e"
    ∷ []

abbrev after : List ServerMessage
after =
    Protocol.ServerMessage.ice_candidate "s" "bad"
    ∷ Protocol.ServerMessage.ice_candidate "s" "two"
    ∷ []

negotiate-connects_example :
    (negotiate eager
        (before ++ Protocol.ServerMessage.sdp_answer "s" "a" ∷ after)
        (record { stage = wants_answer "s"; candidates = [] })
      ≡ record { stage = connected "s"; candidates = "two" ∷ [] })
    × (negotiate eager
          (before ++ Protocol.ServerMessage.ice_candidate "s" "soon" ∷ after)
          (record { stage = wants_answer "s"; candidates = [] })
        ≡ record { stage = failed; candidates = [] })
negotiate-connects_example =
    negotiate-connects eager "s" before after "a" "soon" [] (refl, (refl, (tt, tt))) refl

abbrev screen : MonitorInfo
screen = record { id = 1; name = "screen"; width = 800; height = 600; is_primary = true }

abbrev host_side : HostSide
host_side = record {
  inputs = [];
  clipboard_updates = [];
  monitor_switches = [];
  replies = [];
  file_receiver = record { dest_dir = "/in"; in_progress = λ t. none; disk = empty_disk };
}

abbrev controller_side : ControllerSide
controller_side = record { clipboard_updates = []; monitor_updates = [] }

abbrev traffic : List ControlMessage
traffic =
    monitor list_request
    ∷ input (type_text "a")
    ∷ monitor (switch_request 1)
    ∷ clipboard (text_updated "c")
    ∷ monitor list_request
    ∷ []

-- A codec whose packets are units, and whose frames are the sizes of units.
abbrev plain_codec : Codec
plain_codec = record {
  Packet = Option (List ℕ);
  Frame = ℕ;
  Buffer = Unit {0};
  Decoder = ℕ;
  depacketize = λ p b. (p, b);
  decode = λ nal d. (some (some d), d);
}

abbrev packets : List (Option (List ℕ))
packets = some (1 ∷ []) ∷ none ∷ some [] ∷ some (2 ∷ []) ∷ some (3 ∷ []) ∷ []

read_video_track-frames_of_example :
    read_video_track plain_codec packets tt 5 2
    ≡ take 2 (frames_of plain_codec (units_of plain_codec packets tt) 5)
read_video_track-frames_of_example = read_video_track-frames_of plain_codec packets tt 5 2
