-- ===== src/Assets/Manager.antt =====
-- The manager of the image hosts (lib/assets/manager.go). The file is read and written in a world that
-- is a parameter, like encoding/json; what the callback is given is kept as a list, the last one first.
pub mod Current
use polarix_plus.Base.{
  if◌then◌else◌, Table, Text, codes, Bool, true, false, Option, none, some, List, [], ◌∷◌, ◌++◌,
}
use polarix_plus.Assets.Input.{Files}
use polarix_plus.Assets.Host.{new_host, img_to_url, Net, ImageHost, ProviderItem, ResolvedImage}

pub record HostConfig (C : Type 0) : Type 0 where
  pub providers : List (ProviderItem C)
  pub whitelist : List Text

-- what os.ReadFile gives
pub data Read : Type 0 where
  missing failed : Read
  found : Text → Read

pub record Disk (C W : Type 0) : Type 0 where
  pub read : Text → W → Read
  pub write : Text → Text → W → Bool × W
  pub marshal : HostConfig C → Option Text
  pub unmarshal : Text → Option (HostConfig C)

pub record Manager (P C : Type 0) : Type 0 where
  pub path : Text
  pub cfg : HostConfig C
  pub host : ImageHost P
  pub has_callback : Bool
  pub reloads : List (ImageHost P)

module _ {P C W : Type 0} (reg : Table (C → Option P)) (disk : Disk C W) where
  abbrev pub host_of : HostConfig C → ImageHost P
  host_of cfg = new_host reg cfg.providers cfg.whitelist

  -- `NewManager`, `WithPath` and `OnReload`
  unfoldable pub new_manager : Manager P C
  unfolding new_host
  new_manager = record {
    path = codes "assets.json";
    cfg = record { providers = []; whitelist = [] };
    host = new_host reg [] [];
    has_callback = false;
    reloads = [];
  }

  abbrev pub with_path : Text → Manager P C → Manager P C
  with_path path m = record m { path = path }

  abbrev pub on_reload : Manager P C → Manager P C
  on_reload m = record m { has_callback = true }

  -- `Reload`
  unfoldable pub reload : Manager P C → Manager P C
  unfolding new_host
  reload m = record m {
    host = host_of m.cfg;
    reloads = if m.has_callback then host_of m.cfg ∷ m.reloads else m.reloads;
  }

  abbrev pub load_config : Manager P C → Option (HostConfig C) → Bool × Manager P C
  load_config m none = (false, m)
  load_config m (some cfg) = (true, reload (record m { cfg = cfg }))

  abbrev pub load_read : Manager P C → Read → Bool × Manager P C
  load_read m missing = (true, m)
  load_read m failed = (false, m)
  load_read m (found text) = load_config m (disk.unmarshal text)

  -- `Load`, where `false` is an error
  unfoldable pub load_manager : Manager P C → W → Bool × Manager P C
  unfolding reload
  load_manager m w = load_read m (disk.read m.path w)

  abbrev pub if_written : HostConfig C → Manager P C → Bool → Manager P C
  if_written cfg m true = reload (record m { cfg = cfg })
  if_written cfg m false = m

  abbrev pub save_text : HostConfig C → Manager P C → W → Option Text → Bool × Manager P C × W
  save_text cfg m w none = (false, m, w)
  save_text cfg m w (some text) =
      let (ok, v) = disk.write m.path (text ++ 10 ∷ []) w in (ok, if_written cfg m ok, v)

  -- `Save`
  unfoldable pub save : HostConfig C → Manager P C → W → Bool × Manager P C × W
  unfolding reload
  save cfg m w = save_text cfg m w (disk.marshal cfg)

-- what happens to a manager; its host, which others hold as well, counts the uploads
pub data Op (C : Type 0) : Type 0 where
  move : Text → Op C
  watch read_back : Op C
  store : HostConfig C → Op C
  use_host : Text → Op C

module _ {P C W : Type 0} (reg : Table (C → Option P)) (disk : Disk C W) (net : Net P W)
    (files : Files) where
  abbrev pub do_op : Op C → Manager P C × W → Manager P C × W
  do_op (move path) (m, w) = (with_path reg disk path m, w)
  do_op watch (m, w) = (on_reload reg disk m, w)
  do_op read_back (m, w) = ((load_manager reg disk m w).1, w)
  do_op (store cfg) (m, w) = let (_, n, v) = save reg disk cfg m w in (n, v)
  do_op (use_host src) (m, w) =
      let (_, h, v) = img_to_url net files src m.host w in (record m { host = h }, v)

  abbrev pub do_ops : List (Op C) → Manager P C × W → Manager P C × W
  do_ops [] s = s
  do_ops (op ∷ ops) s = do_ops ops (do_op op s)
