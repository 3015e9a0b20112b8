-- ===== src/Pipeline/Build/Ready.antt =====
-- What Build of pipeline.go returns is ready to serve.
use tallyd.Base.{
  zero, suc, ◌<◌, ◌≡◌, refl, sym, ◌∙◌, subst, inl, inr, String, Bool, true, Option, none, some,
  List, [], ◌∷◌, str_eq, ℤ, pos, negsuc, Map, Unique, lookup, arith, Bool-cases,
}
use tallyd.Adapter.{Event}
use tallyd.Wal.Log.{Wal, EntryState, pending_entries, member}
use tallyd.Wal.Replay.{File, Replay, replayed, failed, panicked, open_wal}
use tallyd.Wal.Invariant.{IsValid}
use tallyd.Wal.Recovery.Opening.{AscendingFiles, open_wal-IsValid}
use tallyd.Dlq.{Dlq, open_dlq}
use tallyd.Dlq.Depth.{IsCounted}
use tallyd.Dlq.Restart.{open_dlq-IsCounted}
use tallyd.Batcher.{Adapter, max_batch}
use tallyd.Receiver.{route}
use tallyd.Receiver.Ingest.{AllKnown}
use tallyd.Dispatcher.Startup.{Enqueues, replay_pending-Enqueues}
use tallyd.Pipeline.{
  ProviderConfig, Config, apply_defaults, is_some, configured, ConfigError, check_config,
}
use tallyd.Pipeline.Defaults.{check_config-AllKnown}
use tallyd.Pipeline.Build.{
  Outside, AdapterError, Result, fine, error, build_adapter, Started, start_batcher, BuildError,
  add_batcher, build_batchers, Pipeline, assembled, assemble, default_max_segment_bytes,
  with_max_bytes, build_opened, build_checked, Disk, build,
}

max_batch-positive : (z : ℤ) → 0 < max_batch z
unfolding max_batch
max_batch-positive (pos zero) = omega arith
max_batch-positive (pos (suc n)) = omega arith
max_batch-positive (negsuc n) = omega arith

abbrev pub AllPositive : Map Started → Type 0
AllPositive [] = Unit {0}
AllPositive ((name, b) ∷ bs) = (0 < b.limit) × AllPositive bs

-- The batchers are those of the configuration.
abbrev SameNames : Map Started → Map ProviderConfig → Type 0
SameNames bs ps = (name : String) → is_some (lookup name bs) ≡ is_some (lookup name ps)

add_batcher-fine :
    (name : String) (pc : ProviderConfig) (a : Result AdapterError Adapter)
    (rest : Result BuildError (Map Started)) (bs : Map Started)
    → add_batcher name pc a rest ≡ fine bs
    → (adapter : Adapter) × (more : Map Started) × (rest ≡ fine more)
      × (bs ≡ (name, start_batcher pc adapter) ∷ more)
unfolding add_batcher
add_batcher-fine name pc (error e) rest bs h = absurd (ground arith)
add_batcher-fine name pc (fine a) (error e) bs h = absurd (ground arith)
add_batcher-fine name pc (fine a) (fine more) bs h = (a, more, refl, ground arith)

start_batcher-SameNames :
    (n name : String) (pc : ProviderConfig) (adapter : Adapter) (bs : Map Started)
    (ps : Map ProviderConfig)
    → SameNames bs ps
    → is_some (lookup n ((name, start_batcher pc adapter) ∷ bs))
      ≡ is_some (lookup n ((name, pc) ∷ ps))
unfolding lookup
start_batcher-SameNames n name pc adapter bs ps same = elim (Bool-cases (str_eq name n)) [
  | inl hit ↦ rw hit refl
  | inr miss ↦ rw miss (same n)
]

build_batchers-fine :
    (out : Outside) (ps : Map ProviderConfig) (bs : Map Started)
    → build_batchers out ps ≡ fine bs
    → SameNames bs ps × AllPositive bs
unfolding build_batchers lookup start_batcher
build_batchers-fine out [] bs h = let e : [] ≡ bs = ground arith in rw (← e) (λ name. refl, tt)
build_batchers-fine out ((name, pc) ∷ ps) bs h =
    let (adapter, more, e, e') =
      add_batcher-fine name pc (build_adapter out pc) (build_batchers out ps) bs h in
    let (same, positive) = build_batchers-fine out ps more e in
    rw e' (
      λ n. start_batcher-SameNames n name pc adapter more ps same,
      (max_batch-positive adapter.max_batch_size, positive),
    )

assemble-fine :
    (cfg : Config) (w : Wal) (d : Dlq) (bs : Result BuildError (Map Started)) (p : Pipeline)
    → assemble cfg w d bs ≡ fine p
    → (more : Map Started) × (bs ≡ fine more) × (assembled cfg w d more ≡ p)
unfolding assemble
assemble-fine cfg w d (error e) p h = absurd (ground arith)
assemble-fine cfg w d (fine more) p h = (more, refl, ground arith)

-- What a Build that succeeds has opened and made.
build_opened-fine :
    (out : Outside) (cfg : Config) (dlq : Option Dlq) (opened : Replay Wal) (p : Pipeline)
    → build_opened out cfg dlq opened ≡ replayed (fine p)
    → (w : Wal) × (d : Dlq) × (bs : Map Started) × (opened ≡ replayed w)
      × (dlq ≡ some d)
      × (build_batchers out cfg.providers ≡ fine bs)
      × (assembled cfg w d bs ≡ p)
unfolding build_opened
build_opened-fine out cfg dlq failed p h = absurd (ground arith)
build_opened-fine out cfg dlq panicked p h = absurd (ground arith)
build_opened-fine out cfg none (replayed w) p h = absurd (ground arith)
build_opened-fine out cfg (some d) (replayed w) p h =
    let (bs, e, same) = assemble-fine cfg w d (build_batchers out cfg.providers) p (ground arith) in
    (w, d, bs, refl, refl, e, same)

build_checked-fine :
    (out : Outside) (cfg : Config) (files : List File) (dlq : Option Dlq) (c : Option ConfigError)
    (p : Pipeline)
    → build_checked out cfg files dlq c ≡ replayed (fine p)
    → (c ≡ none)
      × (build_opened out cfg dlq
            (open_wal out.json default_max_segment_bytes (with_max_bytes cfg.max_bytes) files)
          ≡ replayed (fine p))
unfolding build_checked
build_checked-fine out cfg files dlq (some e) p h = absurd (ground arith)
build_checked-fine out cfg files dlq none p h = (refl, h)

abbrev pub has_batcher : Pipeline → String → Bool
has_batcher p name = is_some (lookup name p.batchers)

pub record IsReady (p : Pipeline) : Type 0 where
  pub wal : IsValid p.wal
  pub dlq : IsCounted p.dlq
  pub limits : AllPositive p.batchers
  pub routes : (e : Event) → AllKnown (has_batcher p) (route p.router e)
  pub pending :
      (id : String) (e : EntryState) (name : String)
      → lookup id p.wal.index ≡ some e
      → member name e.pending ≡ true
      → has_batcher p name ≡ true
      → Enqueues p.enqueued name e.event

AllKnown-same :
    (known known' : String → Bool)
    → ((name : String) → known' name ≡ known name)
    → (ps : List String) → AllKnown known ps
    → AllKnown known' ps
AllKnown-same known known' same [] h = tt
AllKnown-same known known' same (p ∷ ps) h = (same p ∙ h.0, AllKnown-same known known' same ps h.1)

assembled-IsReady :
    (out : Outside) (cfg : Config) (w : Wal) (d : Dlq) (bs : Map Started)
    → check_config cfg ≡ none
    → IsValid w
    → IsCounted d
    → build_batchers out cfg.providers ≡ fine bs
    → IsReady (assembled cfg w d bs)
unfolding pending_entries
assembled-IsReady out cfg w d bs checked valid counted e =
    let (same, positive) = build_batchers-fine out cfg.providers bs e in
    record {
      wal = valid;
      dlq = counted;
      limits = positive;
      routes = λ ev. AllKnown-same _ _ same _ (check_config-AllKnown cfg ev checked);
      pending = λ id entry name found owed has.
          replay_pending-Enqueues (configured cfg.providers) w.index id entry name found owed
            (sym (same name) ∙ has);
    }

-- If Build returns a pipeline, on segment files in ascending order and a dead-letter directory that
-- lists no file twice, then it is ready to serve: the state of the log is valid, the depths of the
-- dead-letter queue are right, every batcher has a positive limit, whatever event comes in the
-- router only names providers that have a batcher, and every event that the log holds unresolved is
-- on the queue of each of its pending providers that has a batcher.
pub build-IsReady :
    (out : Outside) (disk : Disk) (config : Config) (p : Pipeline)
    → AscendingFiles 0 disk.wal_files
    → Unique disk.dlq_regular
    → Unique disk.dlq_poison
    → build out disk config ≡ replayed (fine p)
    → IsReady p
unfolding build
build-IsReady out disk config p ascending regular poison h =
    let cfg = apply_defaults config in
    let (checked, opened) = build_checked-fine out cfg disk.wal_files _ (check_config cfg) p h in
    let (w, d, bs, opens, read, made, same) = build_opened-fine out cfg _ _ p opened in
    let readable : open_dlq disk.dlq_regular disk.dlq_poison ≡ d = ground arith in
    subst IsReady same (
      assembled-IsReady out cfg w d bs checked
        (open_wal-IsValid out.json default_max_segment_bytes (with_max_bytes cfg.max_bytes)
          disk.wal_files w ascending opens)
        (subst IsCounted readable
          (open_dlq-IsCounted disk.dlq_regular disk.dlq_poison regular poison))
        made)
