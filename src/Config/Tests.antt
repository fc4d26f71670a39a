-- ===== src/Config/Tests.antt =====
-- The theorems on the configuration file at a table of two settings.
use fastdl_mm.Prelude.{◌≡◌, refl, List, [], ◌∷◌, arith, length, codes, bytes_eq}
use fastdl_mm.Config.{is_space, write_default_config, is_known, load_config_file, Setting}
use fastdl_mm.Config.RoundTrip.{IsWritable}
use fastdl_mm.Config.File.{valued, unvalued, load-write_default_config}

abbrev port : Setting
port = record { name = codes "port"; value = codes "80"; help = codes "TCP port" }

abbrev url : Setting
url = record { name = codes "url"; value = []; help = codes "URL" }

abbrev table : List Setting
table = port ∷ url ∷ []

port-IsWritable : IsWritable port
unfolding is_space
port-IsWritable = record {
  initial = b'p';
  others = codes "ort";
  named = refl;
  plain = (refl, (refl, (refl, (refl, tt))));
  unquoted = (refl, (refl, tt));
}

url-IsWritable : IsWritable url
unfolding is_space
url-IsWritable = record {
  initial = b'u';
  others = codes "rl";
  named = refl;
  plain = (refl, (refl, (refl, tt)));
  unquoted = tt;
}

load-write_default_config_example :
    load_config_file table (write_default_config table)
    ≡ record { assigned = valued table; loaded = length (valued table); skipped = unvalued table }
unfolding is_known bytes_eq
load-write_default_config_example =
    load-write_default_config table (refl, (refl, tt)) (port-IsWritable, (url-IsWritable, tt))
      (omega arith)
