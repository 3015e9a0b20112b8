-- ===== src/Pipeline/Defaults.antt =====
-- applyDefaults and validateRouting of config.go and pipeline.go: what a checked configuration is.
use tallyd.Base.{
  ℕ, zero, suc, ◌*◌, ◌≡◌, refl, inl, inr, String, Bool, Option, none, some, List, [], ◌∷◌, str_eq,
  ℤ, pos, negsuc, Map, arith, Bool-cases,
}
use tallyd.Adapter.{Event}
use tallyd.Batcher.{second, or_positive}
use tallyd.Receiver.{route, route_rules, first_unknown}
use tallyd.Receiver.Ingest.{AllKnown, first_unknown-none}
use tallyd.Pipeline.{
  ProviderConfig, RoutingRule, Config, or_text, provider_defaults, all_defaults, apply_defaults,
  configured, ConfigError, rule_error, validate_rules, default_error, validate_routing,
  check_config, rules_of, router_of,
}

pub or_text-or_text :
    (s fallback : String) → or_text (or_text s fallback) fallback ≡ or_text s fallback
unfolding or_text
or_text-or_text s fallback = ground arith

or_positive_self : (n : ℕ) → or_positive (pos n) n ≡ pos n
or_positive_self zero = refl
or_positive_self (suc n) = refl

or_positive-or_positive : (z : ℤ) (n : ℕ) → or_positive (or_positive z n) n ≡ or_positive z n
or_positive-or_positive (pos zero) n = or_positive_self n
or_positive-or_positive (pos (suc k)) n = refl
or_positive-or_positive (negsuc k) n = or_positive_self n

provider_defaults-provider_defaults :
    (pc : ProviderConfig) → provider_defaults (provider_defaults pc) ≡ provider_defaults pc
unfolding provider_defaults
provider_defaults-provider_defaults pc =
    rw
      (
        or_text-or_text pc.kind "stdout",
        or_positive-or_positive pc.max_events 500,
        or_positive-or_positive pc.linger (10 * second),
        or_positive-or_positive pc.max_elapsed (1800 * second),
        or_positive-or_positive pc.max_interval (120 * second),
      )
      refl

pub all_defaults-all_defaults :
    (providers : Map ProviderConfig)
    → all_defaults (all_defaults providers) ≡ all_defaults providers
unfolding all_defaults
all_defaults-all_defaults [] = refl
all_defaults-all_defaults ((name, pc) ∷ providers) =
    rw (provider_defaults-provider_defaults pc, all_defaults-all_defaults providers) refl

-- LoadConfig has applied the defaults when Build applies them again: the second time changes nothing.
pub apply_defaults-apply_defaults :
    (c : Config) → apply_defaults (apply_defaults c) ≡ apply_defaults c
unfolding apply_defaults
apply_defaults-apply_defaults c =
    rw
      (
        or_text-or_text c.http "127.0.0.1:8999",
        or_text-or_text c.dir "/var/lib/tallyd/wal",
        or_text-or_text c.on_full "reject",
        all_defaults-all_defaults c.providers,
      )
      refl

-- The rules of a checked configuration.
abbrev AllRoutesKnown : (String → Bool) → List RoutingRule → Type 0
AllRoutesKnown known [] = Unit {0}
AllRoutesKnown known (r ∷ rs) = AllKnown known r.route × AllRoutesKnown known rs

rule_error-none :
    (i : ℕ) (event_name : String) (unknown : Option String) (rest : Option ConfigError)
    → rule_error i event_name unknown rest ≡ none
    → (unknown ≡ none) × (rest ≡ none)
unfolding rule_error
rule_error-none i event_name none rest h = (refl, h)
rule_error-none i event_name (some name) rest h = absurd (ground arith)

default_error-none :
    (unknown : Option String) (rest : Option ConfigError)
    → default_error unknown rest ≡ none
    → (unknown ≡ none) × (rest ≡ none)
unfolding default_error
default_error-none none rest h = (refl, h)
default_error-none (some name) rest h = absurd (ground arith)

validate_rules-none :
    (known : String → Bool) (i : ℕ) (rules : List RoutingRule)
    → validate_rules known i rules ≡ none
    → AllRoutesKnown known rules
unfolding validate_rules
validate_rules-none known i [] h = tt
validate_rules-none known i (r ∷ rs) h =
    let (unknown, rest) =
      rule_error-none i r.event_name (first_unknown known r.route) (validate_rules known (suc i) rs)
        h in
    (first_unknown-none known r.route unknown, validate_rules-none known (suc i) rs rest)

route_rules-AllKnown :
    (known : String → Bool) (rules : List RoutingRule) (default : List String) (name : String)
    → AllRoutesKnown known rules
    → AllKnown known default
    → AllKnown known (route_rules (rules_of rules) default name)
unfolding route_rules rules_of
route_rules-AllKnown known [] default name h d = d
route_rules-AllKnown known (r ∷ rs) default name (h, hs) d =
    elim (Bool-cases (str_eq r.event_name name)) [
      | inl hit ↦ rw hit h
      | inr miss ↦ rw miss (route_rules-AllKnown known rs default name hs d)
    ]

-- With a configuration that passes the checks at the head of Build, whatever event comes in, the
-- router only names providers that are configured.
pub check_config-AllKnown :
    (c : Config) (e : Event)
    → check_config c ≡ none
    → AllKnown (configured c.providers) (route (router_of c) e)
unfolding check_config validate_routing route router_of
check_config-AllKnown c e h =
    let checked : validate_routing c ≡ none = ground arith in
    let (default_known, rules) =
      default_error-none (first_unknown (configured c.providers) c.default)
        (validate_rules (configured c.providers) 0 c.rules) checked in
    route_rules-AllKnown (configured c.providers) c.rules c.default e.event_name
      (validate_rules-none (configured c.providers) 0 c.rules rules)
      (first_unknown-none (configured c.providers) c.default default_known)
