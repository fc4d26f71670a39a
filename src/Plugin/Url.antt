-- ===== src/Plugin/Url.antt =====
-- src/meta_plugin.cpp: the URL that the clients are given.
use fastdl_mm.Prelude.{
  ◌≤◌, ◌≡◌, true, false, Option, none, some, [], length, any, Bytes, codes, starts_with,
}
use fastdl_mm.Plugin.{is_bad, last_is}

-- A URL that the engine can hold and send to its clients.
pub record IsUrl (url : Bytes) : Type 0 where
  pub scheme : starts_with (codes "http://") url ≡ true
  pub ends : last_is b'/' url ≡ true
  pub long : 8 ≤ length url
  pub short : length url ≤ 127
  pub clean : any is_bad url ≡ false

abbrev or_empty : Option Bytes → Bytes
or_empty none = []
or_empty (some s) = s
