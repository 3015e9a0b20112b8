-- ===== src/Command/Settings.antt =====
-- The configuration that run of main.go gives to Build: loadConfig, then the two listen flags.
use tallyd.Base.{
  ◌≡◌, refl, sym, ap, ◌∙◌, String, false, Option, none, some, str_eq, if◌then◌else◌, arith,
}
use tallyd.Pipeline.{Config, ConfigFiles, or_text, apply_defaults, load_file, check_config}
use tallyd.Pipeline.Defaults.{all_defaults-all_defaults, or_text-or_text}
use tallyd.Pipeline.Build.{Outside, Disk, Pipeline, BuildError, Result, build, build_checked}
use tallyd.Wal.Replay.{Replay}
use tallyd.Dlq.{open_dlq}
use tallyd.Command.{override, with_listen_flags, load_config}

override-or_text :
    (flag configured fallback : String)
    → or_text (override flag (or_text configured fallback)) fallback
      ≡ or_text (override flag configured) fallback
unfolding or_text override
override-or_text flag configured fallback = ground arith

apply_defaults-with_listen_flags :
    (listen grpc_listen : String) (c : Config)
    → apply_defaults (with_listen_flags listen grpc_listen (apply_defaults c))
      ≡ apply_defaults (with_listen_flags listen grpc_listen c)
unfolding apply_defaults with_listen_flags
apply_defaults-with_listen_flags listen grpc_listen c =
    rw
      (
        override-or_text listen c.http "127.0.0.1:8999",
        or_text-or_text c.dir "/var/lib/tallyd/wal",
        or_text-or_text c.on_full "reject",
        all_defaults-all_defaults c.providers,
      )
      refl

abbrev config_or : Config → Option Config → Config
config_or c none = c
config_or c (some d) = d

-- Build, behind its call of applyDefaults.
abbrev build_settled : Outside → Disk → Config → Replay (Result BuildError Pipeline)
build_settled out disk cfg =
    let dlq = if disk.readable then some (open_dlq disk.dlq_regular disk.dlq_poison) else none in
    build_checked out cfg disk.wal_files dlq (check_config cfg)

-- The defaults that LoadConfig applies before the flags, and Build behind them, come to the same as
-- applying them once: with a configuration file that is read and parsed, Build does what it does on
-- the parsed configuration with the flags.
load_config-build :
    (files : ConfigFiles) (path text listen grpc_listen : String) (parsed c : Config)
    (out : Outside) (disk : Disk)
    → str_eq path "" ≡ false
    → files.read path ≡ some text
    → files.parse text ≡ some parsed
    → load_config files path ≡ some c
    → build out disk (with_listen_flags listen grpc_listen c)
      ≡ build out disk (with_listen_flags listen grpc_listen parsed)
unfolding load_config load_file build
load_config-build files path text listen grpc_listen parsed c out disk given readable fine loaded =
    let same : some (apply_defaults parsed) ≡ some c = rw (given, readable, fine) at loaded in
    let settled : apply_defaults (with_listen_flags listen grpc_listen c)
        ≡ apply_defaults (with_listen_flags listen grpc_listen parsed) =
      ap (λ o. apply_defaults (with_listen_flags listen grpc_listen (config_or parsed o)))
        (sym same)
      ∙ apply_defaults-with_listen_flags listen grpc_listen parsed in
    ap (build_settled out disk) settled
