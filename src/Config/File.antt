-- ===== src/Config/File.antt =====
-- config/AppConfig.cpp: the file of the settings. The file and its text are parameters.
use swr.Base.{ℕ, String, Option, none, some}
use swr.Base.Json.{Json, object, Numerals, Object}
use swr.Config.{AppConfig, initial_config, factory_default_config}
use swr.Config.Parts.{config_json, config_of}

-- A file of text `T`, a value of `F`: opened and read, or opened, emptied and written, where opening
-- may fail; and the text of an object. What is not JSON is read as `undefined`.
pub record ConfigFile (F T D : Type 0) : Type 0 where
  pub read_all : F → Option T
  pub write_all : T → F → Option F
  pub to_json : Object D → T
  pub from_json : T → Json D

module _ {F T D : Type 0} (dev : ConfigFile F T D) (m : Numerals D) (digits : ℕ → String) where
  unfoldable pub config_of_document : Json D → AppConfig D
  config_of_document (object root) = config_of m digits root
  config_of_document _ = initial_config

  unfoldable pub load_config : F → AppConfig D
  load_config file = elim (dev.read_all file) [
    | none ↦ initial_config
    | some content ↦ config_of_document (dev.from_json content)
  ]

module _ {F T D : Type 0} (dev : ConfigFile F T D) (m : Numerals D) where
  -- `none`: "Cannot open config file for writing".
  unfoldable pub save_config : AppConfig D → F → Option F
  save_config c file = dev.write_all (dev.to_json (config_json m c)) file

  unfoldable pub factory_reset : F → Option F
  factory_reset file = save_config factory_default_config file
