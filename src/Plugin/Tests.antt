-- ===== src/Plugin/Tests.antt =====
-- The theorems on the plugin with concrete settings.
use fastdl_mm.Prelude.{
  ◌≡◌, refl, true, false, List, [], ◌∷◌, Bytes, codes, starts_with, drop_while, drop_last_while,
  trim_where, cut_at,
}
use fastdl_mm.Config.{trim}
use fastdl_mm.Plugin.{
  bounded_unsigned, read_config, normalized_public_url, restore_download_url,
  configure_download_url, start_server, register_plugin, start_frame, step, run, Engine, Plugin,
  Event, finite, game_init, frame, restart,
}
use fastdl_mm.Plugin.Settings.{read_config-InRange, InRange}
use fastdl_mm.Plugin.Lifecycle.{run_stopped}

-- An engine in which every number is one and every string is a URL.
abbrev engine : Engine
engine = record {
  cvar_float = λ name. finite 1 0;
  cvar_string = λ name. codes " http://fast.example ";
}

abbrev unloaded : Plugin
unloaded = record {
  registered = false;
  start_pending = false;
  download_url_managed = false;
  previous_download_url = [];
  running = false;
  sv_downloadurl = codes "http://old/";
}

read_config-InRange_example : InRange (read_config engine)
read_config-InRange_example = read_config-InRange engine

abbrev url : Bytes
url = codes "http://fast.example/"

abbrev life : List Event
life = game_init ∷ frame engine true ∷ restart engine false ∷ restart engine true ∷ []

life_url : (run unloaded life).sv_downloadurl ≡ url
unfolding run step register_plugin start_frame start_server read_config bounded_unsigned
    restore_download_url configure_download_url normalized_public_url trim trim_where drop_while
    drop_last_while starts_with cut_at
life_url = refl

abbrev failed_life : List Event
failed_life = game_init ∷ frame engine true ∷ restart engine false ∷ []

failed_life_stops : (run unloaded failed_life).running ≡ false
unfolding run step register_plugin start_frame start_server read_config bounded_unsigned
    restore_download_url configure_download_url normalized_public_url trim trim_where drop_while
    drop_last_while starts_with cut_at
failed_life_stops = refl

run_stopped_example : (run unloaded failed_life).sv_downloadurl ≡ unloaded.sv_downloadurl
run_stopped_example = run_stopped unloaded failed_life refl (tt, (tt, (tt, tt))) failed_life_stops
