-- ===== src/Command/Trace.antt =====
-- Orders on the effects of run in main.go, and the effects of Close in pipeline.go.
use tallyd.Base.{
  Option, none, some, ℕ, ◌+◌, ◌≡◌, refl, String, Bool, true, false, List, [], ◌∷◌, ◌++◌, map,
  if◌then◌else◌, arith,
}
use tallyd.Dlq.{close_dlq}
use tallyd.Pipeline.Handler.{
  Shutdown, closes_batcher, closes_dlq, closes_wal, close_batchers, close_stores, close_pipeline,
}
use tallyd.Command.{
  Effect, binds_http, binds_grpc, closes_http_listener, serves_http, serves_grpc, shuts_down_http,
  stops_grpc, closes,
}

-- No effect of the second kind comes without an earlier one of the first kind.
abbrev pub before : (Effect → Bool) → (Effect → Bool) → List Effect → Bool
before p q [] = true
before p q (x ∷ xs) = let rest = before p q xs in if p x then true else if q x then false else rest

abbrev pub absent : (Effect → Bool) → List Effect → Bool
absent q [] = true
absent q (x ∷ xs) = let rest = absent q xs in if q x then false else rest

-- No effect of the second kind comes behind one of the first kind.
abbrev pub never_after : (Effect → Bool) → (Effect → Bool) → List Effect → Bool
never_after p q [] = true
never_after p q (x ∷ xs) = let rest = never_after p q xs in if p x then absent q xs else rest

abbrev pub count : (Effect → Bool) → List Effect → ℕ
count p [] = 0
count p (x ∷ xs) = (if p x then 1 else 0) + count p xs

abbrev pub is_binds_http : Effect → Bool
is_binds_http binds_http = true
is_binds_http _ = false

abbrev pub is_binds_grpc : Effect → Bool
is_binds_grpc binds_grpc = true
is_binds_grpc _ = false

abbrev pub is_serves : Effect → Bool
is_serves serves_http = true
is_serves serves_grpc = true
is_serves _ = false

-- What becomes of the HTTP listener.
abbrev pub takes_listener : Effect → Bool
takes_listener serves_http = true
takes_listener closes_http_listener = true
takes_listener _ = false

abbrev pub is_shuts_down_http : Effect → Bool
is_shuts_down_http shuts_down_http = true
is_shuts_down_http _ = false

abbrev pub is_stops_grpc : Effect → Bool
is_stops_grpc stops_grpc = true
is_stops_grpc _ = false

abbrev pub is_closes : Effect → Bool
is_closes (closes part) = true
is_closes _ = false

abbrev pub is_closes_store : Effect → Bool
is_closes_store (closes closes_dlq) = true
is_closes_store (closes closes_wal) = true
is_closes_store _ = false

abbrev pub is_closes_dlq : Effect → Bool
is_closes_dlq (closes closes_dlq) = true
is_closes_dlq _ = false

abbrev pub is_closes_wal : Effect → Bool
is_closes_wal (closes closes_wal) = true
is_closes_wal _ = false

abbrev pub is_closes_batcher : Effect → Bool
is_closes_batcher (closes (closes_batcher name)) = true
is_closes_batcher _ = false

-- The promises about one run of the daemon.
pub record IsOrderly (has_grpc : Bool) (trace : List Effect) : Type 0 where
  pub bound : before is_binds_http is_serves trace ≡ true
  pub grpc_bound : has_grpc ≡ true → before is_binds_grpc is_serves trace ≡ true
  pub listener : count takes_listener trace ≡ count is_binds_http trace
  pub http_down : before is_shuts_down_http is_closes trace ≡ true
  pub grpc_down : has_grpc ≡ true → before is_stops_grpc is_closes trace ≡ true
  pub batchers_first : never_after is_closes_store is_closes_batcher trace ≡ true
  pub dlq_first : before is_closes_dlq is_closes_wal trace ≡ true

-- The effects of Close.
module _ (rest : List Shutdown) where
  closing : List String → List Effect
  closing names = map closes (close_batchers names ++ closes_dlq ∷ rest)

  closing-dlq_first :
      (names : List String) → before is_closes_dlq is_closes_wal (closing names) ≡ true
  unfolding closing close_batchers
  closing-dlq_first [] = refl
  closing-dlq_first (name ∷ names) = closing-dlq_first names

  closing-batchers_first :
      (names : List String)
      → absent is_closes_batcher (map closes rest) ≡ true
      → never_after is_closes_store is_closes_batcher (closing names) ≡ true
  unfolding closing close_batchers
  closing-batchers_first [] h = h
  closing-batchers_first (name ∷ names) h = closing-batchers_first names h

  closing-listener :
      (names : List String)
      → count takes_listener (map closes rest) ≡ 0
      → count is_binds_http (map closes rest) ≡ 0
      → (count takes_listener (closing names) ≡ 0) × (count is_binds_http (closing names) ≡ 0)
  unfolding closing close_batchers
  closing-listener [] h k = (omega arith, omega arith)
  closing-listener (name ∷ names) h k =
      let (a, b) = closing-listener names h k in (omega arith, omega arith)

-- What the orders of run need to know of the effects of Close.
pub record Closing (steps : List Effect) : Type 0 where
  pub dlq_first : before is_closes_dlq is_closes_wal steps ≡ true
  pub batchers_first : never_after is_closes_store is_closes_batcher steps ≡ true
  pub takes : count takes_listener steps ≡ 0
  pub binds : count is_binds_http steps ≡ 0

steps-Closing :
    (names : List String) (rest : List Shutdown)
    → absent is_closes_batcher (map closes rest) ≡ true
    → count takes_listener (map closes rest) ≡ 0
    → count is_binds_http (map closes rest) ≡ 0
    → Closing (closing rest names)
steps-Closing names rest h t b =
    let (takes, binds) = closing-listener rest names t b in
    record {
      dlq_first = closing-dlq_first rest names;
      batchers_first = closing-batchers_first rest names h;
      takes = takes;
      binds = binds;
    }

pub close_pipeline-Closing :
    (handles : List (Option String)) (wal_ok : Bool) (names : List String)
    → Closing (map closes (close_pipeline handles wal_ok names).0)
unfolding close_pipeline close_stores closing
close_pipeline-Closing handles wal_ok names = by_error (close_dlq handles)
  where
    by_error :
        (e : Option String)
        → Closing (map closes (close_batchers names ++ (close_stores e wal_ok).0))
    by_error none = steps-Closing names (closes_wal ∷ []) refl refl refl
    by_error (some e) = steps-Closing names [] refl refl refl
