-- ===== src/Config/Verbosity.antt =====
-- The conversions of `ArgVerbosity` in src/config.rs from and to the log crate's levels.
use socks_hub.Text.{Text, codes}
use socks_hub.Config.{ArgVerbosity}

-- `log::LevelFilter` and `log::Level`.
pub data LevelFilter : Type 0 where
  off error warn info debug trace : LevelFilter

pub data Level : Type 0 where
  error warn info debug trace : Level

-- `From<ArgVerbosity> for log::LevelFilter`
unfoldable pub to_level_filter : ArgVerbosity → LevelFilter
to_level_filter ArgVerbosity.off = LevelFilter.off
to_level_filter ArgVerbosity.error = LevelFilter.error
to_level_filter ArgVerbosity.warn = LevelFilter.warn
to_level_filter ArgVerbosity.info = LevelFilter.info
to_level_filter ArgVerbosity.debug = LevelFilter.debug
to_level_filter ArgVerbosity.trace = LevelFilter.trace

-- `From<log::Level> for ArgVerbosity`
unfoldable pub of_level : Level → ArgVerbosity
of_level Level.error = ArgVerbosity.error
of_level Level.warn = ArgVerbosity.warn
of_level Level.info = ArgVerbosity.info
of_level Level.debug = ArgVerbosity.debug
of_level Level.trace = ArgVerbosity.trace

-- `Display for ArgVerbosity`
unfoldable pub verbosity_text : ArgVerbosity → Text
verbosity_text ArgVerbosity.off = codes "off"
verbosity_text ArgVerbosity.error = codes "error"
verbosity_text ArgVerbosity.warn = codes "warn"
verbosity_text ArgVerbosity.info = codes "info"
verbosity_text ArgVerbosity.debug = codes "debug"
verbosity_text ArgVerbosity.trace = codes "trace"
