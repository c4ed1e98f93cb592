-- ===== src/Ws/Served.antt =====
-- The presence tables beside requests to the API (visuara-signaling/src/api, and ws.rs).
use visuara.Session.{Headers}
use visuara.Api.Router.{Request, serve}
use visuara.Ws.Types.{External}
use visuara.Ws.Hub.{World, Reachable}
use visuara.Ws.Presence.{Present}
use visuara.Ws.Reach.{Reachable-Present}
use visuara.Ws.Requests.{serve-Reachable}

-- After a request to the API, those for downloads and client builds left aside, in a state that the
-- server comes to, whoever sends it and whatever it deletes: a connection has a channel exactly while its
-- task runs, a device has a one-time password exactly while it is online, and a device is online only on
-- a connection whose task runs and has registered it.
pub serve-Present :
    (ext : External) (headers : Headers) (r : Request) (w : World)
    → Reachable ext w
    → Present (serve ext.argon headers r w.app).1 w.tasks
serve-Present ext headers r w h =
    Reachable-Present ext (record w { app = (serve ext.argon headers r w.app).1 })
      (serve-Reachable ext headers r w h)
