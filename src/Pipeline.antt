-- ===== src/Pipeline.antt =====
-- internal/pipeline/config.go and pipeline.go: the configuration with its defaults and checks, and
-- the sink that joins the log and the dispatcher. YAML, the environment and the log are arguments.
pub mod Defaults
pub mod Delivery
pub mod Build
pub mod Handler
pub mod Custody
use tallyd.Base.{
  ℕ, zero, suc, ◌*◌, String, Bool, true, false, Option, none, some, List, [], ◌∷◌, ◌++◌, map,
  str_eq, if◌then◌else◌, ℤ, pos, negsuc, Map, lookup,
}
use tallyd.Adapter.{Event}
use tallyd.Batcher.{RetryPolicy, second, or_positive}
use tallyd.Receiver.{Sink, Rule, StaticRouter, first_unknown}
use tallyd.Dispatcher.{Enqueued, dispatch}

-- Durations are int64 nanoseconds, `max_bytes` and `max_events` are ints.
pub record ProviderConfig : Type 0 where
  pub kind : String
  pub endpoint : String
  pub token_env : String
  pub max_events : ℤ
  pub linger : ℤ
  pub max_elapsed : ℤ
  pub max_interval : ℤ

pub record RoutingRule : Type 0 where
  pub event_name : String
  pub route : List String

-- Config with its ListenConfig, BufferConfig and RoutingConfig.
pub record Config : Type 0 where
  pub http : String
  pub grpc : String
  pub dir : String
  pub max_bytes : ℤ
  pub on_full : String
  pub providers : Map ProviderConfig
  pub default : List String
  pub rules : List RoutingRule

unfoldable pub or_text : String → String → String
or_text s fallback = if str_eq s "" then fallback else s

unfoldable pub provider_defaults : ProviderConfig → ProviderConfig
unfolding or_text
provider_defaults pc = record pc {
  kind = or_text pc.kind "stdout";
  max_events = or_positive pc.max_events 500;
  linger = or_positive pc.linger (10 * second);
  max_elapsed = or_positive pc.max_elapsed (1800 * second);
  max_interval = or_positive pc.max_interval (120 * second);
}

unfoldable pub all_defaults : Map ProviderConfig → Map ProviderConfig
all_defaults [] = []
all_defaults ((name, pc) ∷ providers) = (name, provider_defaults pc) ∷ all_defaults providers

-- applyDefaults
unfoldable pub apply_defaults : Config → Config
unfolding or_text
apply_defaults c = record c {
  http = or_text c.http "127.0.0.1:8999";
  dir = or_text c.dir "/var/lib/tallyd/wal";
  on_full = or_text c.on_full "reject";
  providers = all_defaults c.providers;
}

-- os.ReadFile and yaml.Unmarshal into an empty Config; `none` is an error.
pub record ConfigFiles : Type 0 where
  pub read : String → Option String
  pub parse : String → Option Config

abbrev with_defaults_applied : Option Config → Option Config
with_defaults_applied none = none
with_defaults_applied (some c) = some (apply_defaults c)

abbrev parse_config : ConfigFiles → Option String → Option Config
parse_config files none = none
parse_config files (some text) = with_defaults_applied (files.parse text)

-- LoadConfig
unfoldable pub load_file : ConfigFiles → String → Option Config
unfolding apply_defaults
load_file files path = parse_config files (files.read path)

-- `_, ok := cfg.Providers[name]`
abbrev pub is_some {ℓ} : {A : Type ℓ} → Option A → Bool
is_some none = false
is_some (some a) = true

abbrev pub configured : Map ProviderConfig → String → Bool
configured providers name = is_some (lookup name providers)

pub data ConfigError : Type 0 where
  on_full_unsupported : String → ConfigError
  default_unknown : String → ConfigError
  rule_unknown : ℕ → String → String → ConfigError

unfoldable pub rule_error : ℕ → String → Option String → Option ConfigError → Option ConfigError
rule_error i event_name (some name) rest = some (rule_unknown i event_name name)
rule_error i event_name none rest = rest

unfoldable pub validate_rules : (String → Bool) → ℕ → List RoutingRule → Option ConfigError
validate_rules known i [] = none
validate_rules known i (rule ∷ rules) =
    rule_error i rule.event_name (first_unknown known rule.route)
      (validate_rules known (suc i) rules)

unfoldable pub default_error : Option String → Option ConfigError → Option ConfigError
default_error (some name) rest = some (default_unknown name)
default_error none rest = rest

-- validateRouting
unfoldable pub validate_routing : Config → Option ConfigError
unfolding default_error
validate_routing c =
    default_error (first_unknown (configured c.providers) c.default)
      (validate_rules (configured c.providers) 0 c.rules)

-- The checks at the head of Build, on a configuration that has its defaults.
unfoldable pub check_config : Config → Option ConfigError
check_config c =
    if str_eq c.on_full "reject" then validate_routing c else some (on_full_unsupported c.on_full)

-- The router, and a provider's retry policy, as Build makes them.
unfoldable pub rules_of : List RoutingRule → List Rule
rules_of [] = []
rules_of (rule ∷ rules) =
    record { event_name = rule.event_name; providers = rule.route } ∷ rules_of rules

unfoldable pub router_of : Config → StaticRouter
unfolding rules_of
router_of c = record { default = c.default; rules = rules_of c.rules }

unfoldable pub retry_policy : ProviderConfig → RetryPolicy
retry_policy pc = record {
  initial_backoff = pos 0;
  max_backoff = pc.max_interval;
  max_elapsed = pc.max_elapsed;
}

-- The error of Dispatch, in the words of fmt.Errorf.
abbrev pub dispatch_error : (String → String) → Option String → Option String
dispatch_error describe none = none
dispatch_error describe (some p) = some (describe p)

module _ {S : Type 0} (append : Sink S) (known : String → Bool) (describe : String → String) where
  -- What follows wal.Append: its error, or Dispatch.
  unfoldable pub after_append :
      Event → List String → Enqueued → S → Option String → (S × Enqueued) × Option String
  after_append e ps queue s (some cause) = ((s, queue), some cause)
  after_append e ps queue s none =
      let (queued, unknown) = dispatch known e ps in
      ((s, queue ++ queued), dispatch_error describe unknown)

  -- walDispatchSink.Append, over the state of the log and all that was enqueued.
  unfoldable pub wal_dispatch_sink : Sink (S × Enqueued)
  unfolding after_append
  wal_dispatch_sink e ps (s, queue) =
      let (s', failure) = append e ps s in after_append e ps queue s' failure
