-- ===== src/Client/Host/Tests.antt =====
-- Concrete runs of the host.
use visuara.Prelude.{
  ◌≡◌, refl, arith, map, inl, inr, true, false, none, some, List, [], ◌∷◌, ◌++◌, str_eq,
  if◌then◌else◌,
}
use visuara.Protocol.{
  SessionId, ClientMessage, request_turn_credentials, ServerMessage, incoming_connection,
  turn_credentials, error,
}
use visuara.Protocol
use visuara.Control.{
  ControlMessage, type_text, offer, input, file, clipboard, text_updated, monitor, list_request,
}
use visuara.Fixtures.{empty_disk}
use visuara.Client.FileTransfer.{receive}
use visuara.Client.Host.{
  Event, received, gathered, sample, Peer, waiting, asked_turn, streaming, serve_connections,
}
use visuara.Client.Host.Serving.{OneAnswer, serve_connections-OneAnswer}
use visuara.Client.Host.Answers.{serve_connections-answers}
use visuara.Client.Host.Lost.{serve_connections-lost}
use visuara.Client.Host.Channel.{HostSide, on_messages}
use visuara.Client.Host.Channel.Dispatch.{inputs_of, texts_of, files_of, on_messages-dispatched}

-- WebRTC that answers every offer and refuses the candidate "bad".
abbrev eager : Peer
eager = record {
  builds = λ servers. true;
  answer_to = λ sdp. some "answer";
  decodes = λ c. if str_eq c "bad" then false else true;
  accepts = λ remote c. remote;
  accepts_needs_remote = λ c. refl;
}

abbrev turn : ServerMessage
turn = turn_credentials ("turn:example" ∷ []) "u" "p" 60

abbrev chatter : List ServerMessage
chatter =
    Protocol.ServerMessage.ice_candidate "other" "good"
    ∷ Protocol.ServerMessage.sdp_offer "other" "x"
    ∷ error "e"
    ∷ []

-- The rest of a session: candidates both ways, a frame, a candidate for another session.
abbrev going : List Event
going =
    gathered (some "mine")
    ∷ received (Protocol.ServerMessage.ice_candidate "s" "good")
    ∷ sample true
    ∷ received (Protocol.ServerMessage.ice_candidate "other" "bad")
    ∷ []

abbrev crowded : List Event
crowded =
    received turn
    ∷ received (incoming_connection "t" none)
    ∷ received (Protocol.ServerMessage.sdp_offer "s" "o")
    ∷ going

serve_connections-OneAnswer_example :
    OneAnswer "s" (serve_connections eager (asked_turn "s") crowded).1
serve_connections-OneAnswer_example =
    serve_connections-OneAnswer eager "s" (asked_turn "s") crowded refl

serve_connections-answers_example :
    serve_connections eager waiting (
      received (incoming_connection "s" none)
      ∷ received turn
      ∷ (map received chatter ++ received (Protocol.ServerMessage.sdp_offer "s" "o") ∷ going))
    ≡ (
      streaming "s",
      request_turn_credentials
          ∷ Protocol.ClientMessage.sdp_answer "s" "answer"
          ∷ Protocol.ClientMessage.ice_candidate "s" "mine"
          ∷ [],
    )
serve_connections-answers_example =
    serve_connections-answers eager "s" none turn chatter "o" "answer" going refl
      (refl, (refl, (tt, tt))) refl (tt, (inr (refl, refl), (refl, (inl refl, tt))))

serve_connections-lost_example :
    (serve_connections eager waiting (
      received (incoming_connection "s" none)
      ∷ received (Protocol.ServerMessage.sdp_offer "s" "o")
      ∷ received turn
      ∷ [])).1
    ≡ request_turn_credentials ∷ []
serve_connections-lost_example =
    serve_connections-lost eager "s" none "o" (received turn ∷ []) (λ sdp e. ground arith, tt)

abbrev fresh_side : HostSide
fresh_side = record {
  inputs = [];
  clipboard_updates = [];
  monitor_switches = [];
  replies = [];
  file_receiver = record { dest_dir = "/in"; in_progress = λ t. none; disk = empty_disk };
}

abbrev traffic : List ControlMessage
traffic =
    input (type_text "a")
    ∷ file (offer "t" "f" 0)
    ∷ clipboard (text_updated "c")
    ∷ monitor list_request
    ∷ input (type_text "b")
    ∷ []

on_messages-dispatched_example :
    ((on_messages none traffic fresh_side).inputs ≡ [] ++ inputs_of traffic)
    × ((on_messages none traffic fresh_side).clipboard_updates ≡ [] ++ texts_of traffic)
    × ((on_messages none traffic fresh_side).file_receiver
        ≡ receive (files_of traffic) fresh_side.file_receiver)
on_messages-dispatched_example = on_messages-dispatched none traffic fresh_side
