-- ===== src/Service/Whole.antt =====
-- src/meta_plugin.cpp with src/fastdl_server.cpp: the plugin with the server that it starts and stops, and how it
-- keeps to the plugin's own account of it in Plugin.
use fastdl_mm.Prelude.{Bool, false, not, List, [], ◌∷◌, if◌then◌else◌, Bytes}
use fastdl_mm.Plugin
use fastdl_mm.Plugin.{Plugin, Engine}
use fastdl_mm.Service
use fastdl_mm.Service.{Host, Service}

-- The plugin's globals and the server; `running` of the globals is not used here, the server knows it.
pub record Whole : Type 0 where
  pub globals : Plugin
  pub service : Service

-- What a start of the server meets: the engine's variables, the system, and the settings as the server reads them.
pub record Startup : Type 0 where
  pub engine : Engine
  pub host : Host
  pub settings : Service.ServiceConfig

abbrev pub enabled : Startup → Bool
enabled u = (Plugin.read_config u.engine).enabled

-- The server's settings, with the switch that `readConfig` reads.
abbrev pub settings_of : Startup → Service.ServiceConfig
settings_of u = record u.settings { enabled = enabled u }

abbrev pub started : Startup → Service → Service × Bool
started u s = Service.start u.host (settings_of u) s

-- `startServer`.
unfoldable pub start_whole : Startup → Whole → Whole
start_whole u w =
    let p = Plugin.restore_download_url w.globals in
    let r = started u w.service in
    if not (enabled u)
    then record { globals = p; service = Service.stop w.service }
    else if not r.1
    then record { globals = p; service = r.0 }
    else record {
      globals = Plugin.configure_download_url (Plugin.read_config u.engine) p;
      service = r.0;
    }

pub data Call : Type 0 where
  game_init : Call
  frame : Startup → Call
  restart : Startup → Call
  detach : Call
  sets_url : Bytes → Call

unfoldable pub call : Whole → Call → Whole
call w game_init = record w { globals = Plugin.register_plugin w.globals }
call w (frame u) =
    if w.globals.start_pending
    then start_whole u (record w { globals = record w.globals { start_pending = false } })
    else w
call w (restart u) = start_whole u w
call w detach = record {
  globals = Plugin.restore_download_url w.globals;
  service = Service.stop w.service;
}
call w (sets_url url) = record w { globals = record w.globals { sv_downloadurl = url } }

unfoldable pub calls : Whole → List Call → Whole
calls w [] = w
calls w (c ∷ cs) = calls (call w c) cs

-- The abstract view: the globals, with the server's daemon for `running`.
abbrev pub view : Whole → Plugin
view w = record w.globals { running = w.service.daemon }

-- The abstract event of a call, with the result that the server's start has there.
abbrev pub event_of : Whole → Call → Plugin.Event
event_of w game_init = Plugin.Event.game_init
event_of w (frame u) = Plugin.Event.frame u.engine (started u w.service).1
event_of w (restart u) = Plugin.Event.restart u.engine (started u w.service).1
event_of w detach = Plugin.Event.detach
event_of w (sets_url url) = Plugin.Event.sets_url url

abbrev pub events_of : Whole → List Call → List Plugin.Event
events_of w [] = []
events_of w (c ∷ cs) = event_of w c ∷ events_of (call w c) cs
