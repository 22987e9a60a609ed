-- ===== src/Tests/Settings.antt =====
-- The settings in their file and in a backup, and the rows of a device, with natural numbers as doubles.
use swr.Base.{
  ℕ, ◌+◌, ◌*◌, ◌/◌, ◌%◌, ◌≡◌, refl, arith, true, Option, none, some, ◌==◌, if◌then◌else◌,
}
use swr.Base.Int.{pos, negsuc}
use swr.Base.Json.{object, Numerals, Object, to_object}
use swr.Model.Names.{user, active}
use swr.Config.{initial_config, factory_default_config}
use swr.Config.Parts.{config_json}
use swr.Config.File.{ConfigFile, load_config, save_config}
use swr.Config.Round.{KeepsInts, ConfigFits, WritesStay, load_config-save_config}
use swr.Maintenance.Settings.{
  build_config, restored_config, taken_over, restored_config-build_config,
}
use swr.Maintenance.Data.{device_json, register_json, user_json, restored_rows}
use swr.Database.Rows.{device_row, register_row, user_row}
use swr.Database.Stored.{UserInfo, stored_device, stored_register, stored_user}
use swr.Tests.Data.{station, temperature}

-- An integer as a natural number, the even ones for those that are not negative.
abbrev pub coded : Numerals ℕ
coded = record {
  of_int = λ z. elim z [ pos n ↦ 2 * n | negsuc n ↦ 2 * n + 1 ];
  as_int = λ x. some (if x % 2 == 0 then pos (x / 2) else negsuc (x / 2));
}

pub coded_keeps : KeepsInts coded
coded_keeps (pos n) h = ground arith
coded_keeps (negsuc n) h = ground arith

-- A file that holds an object as it is, or nothing.
abbrev pub object_file : ConfigFile (Option (Object ℕ)) (Object ℕ) ℕ
object_file = record {
  read_all = λ f. f;
  write_all = λ o f. some (some o);
  to_json = λ o. o;
  from_json = object;
}

file_stays : WritesStay object_file
file_stays t f g e = ground (arith, e)

factory_fits : ConfigFits (factory_default_config {D = ℕ})
unfolding factory_default_config
factory_fits = record {
  rs485 = record { baud_rate = omega arith; data_bits = omega arith; stop_bits = omega arith };
  modbus_server = record { port = omega arith; slave_id = omega arith };
  login_security = record {
    max_failed_attempts = omega arith;
    session_timeout_minutes = omega arith;
    min_password_length = omega arith;
  };
  interval = omega arith;
  channels = tt;
  max_screens = omega arith;
}

load_config-save_config_example :
    load_config object_file coded (λ n. "01") (some (config_json coded factory_default_config))
    ≡ factory_default_config
unfolding save_config
load_config-save_config_example =
    load_config-save_config object_file coded (λ n. "01") factory_default_config none
      (some (config_json coded factory_default_config)) coded_keeps file_stays factory_fits refl
      refl

restored_config-build_config_example :
    restored_config coded true (build_config coded factory_default_config) initial_config
    ≡ taken_over coded true factory_default_config initial_config
restored_config-build_config_example =
    restored_config-build_config coded true factory_default_config initial_config coded_keeps
      factory_fits.rs485 factory_fits.modbus_server factory_fits.login_security

abbrev operator : UserInfo
operator = record {
  id = pos 3;
  username = "op";
  display_name = "";
  description = "";
  password_hash = "ab";
  role = user;
  status = active;
}

restored_rows_example :
    (device_row coded (to_object (device_json coded station))
      ≡ record (stored_device station) { poll_mode = "auto" })
    × (register_row coded (to_object (register_json coded station.id temperature))
        ≡ stored_register temperature)
    × (user_row (to_object (user_json {D = ℕ} operator)) ≡ stored_user operator)
restored_rows_example =
    restored_rows coded coded_keeps station temperature operator
      (record {
        tcp_port = omega arith;
        slave_id = omega arith;
        timeout_ms = omega arith;
        interval_ms = omega arith;
        retry_count = omega arith;
      })
      (record { local_address = omega arith; length = omega arith; unified_address = omega arith })
