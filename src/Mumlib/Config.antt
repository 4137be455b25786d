-- ===== src/Mumlib/Config.antt =====
-- mumlib/src/config.rs: the configuration, once it has been read.
use mum.Common.{ℕ, Text, Bool, Option, List}
use mum.Mumlib.Command.{F32}

pub record SoundEffect : Type 0 where
  pub event : Text
  pub file : Text

pub record AudioConfig : Type 0 where
  pub input_volume : Option F32
  pub output_volume : Option F32
  pub sound_effects : Option (List SoundEffect)
  pub disable_noise_gate : Option Bool

pub record ServerConfig : Type 0 where
  pub name : Text
  pub host : Text
  pub port : Option ℕ
  pub username : Option Text
  pub password : Option Text
  pub accept_invalid_cert : Option Bool

pub record Config : Type 0 where
  pub allow_invalid_server_cert : Option Bool
  pub audio : Option AudioConfig
  pub servers : Option (List ServerConfig)
