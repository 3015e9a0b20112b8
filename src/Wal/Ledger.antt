-- ===== src/Wal/Ledger.antt =====
-- What internal/wal/wal.go promises its callers, without segments, files or the order of a Go map: a
-- ledger of the events that are still owed, and to whom.
pub mod Sets
pub mod Refinement
pub mod Interrupted
pub mod Promise
use tallyd.Base.{
  ◌≡◌, String, Bool, true, false, Option, none, some, List, [], ◌∷◌, str_eq, if◌then◌else◌, Map,
  lookup,
}
use mathlib.Core.Bool.{Bool-set}
use mathlib.Core.Quot
use mathlib.Core.Quot.{Quot, Quot-set}
use tallyd.Adapter.{Event}
use tallyd.Wal.Log.{EntryState, member, without, is_empty}
use tallyd.Wal.Commit.{Change, appends, acks, Request, Faults}
use tallyd.Wal.Ledger.Sets.{SameMembers, without-SameMembers, is_empty-SameMembers}

-- A set of providers: lists with the same members are one.
abbrev pub Providers : Type 0
Providers = Quot SameMembers

pub set_of : List String → Providers
set_of ps = Quot.mk ps

unfoldable pub strike : String → Providers → Providers
strike provider =
    Quot.lift Quot-set (λ ps. Quot.mk (without provider ps))
      (λ ps qs h. Quot.sound (without-SameMembers provider ps qs h))

unfoldable pub nobody : Providers → Bool
nobody = Quot.lift Bool-set is_empty is_empty-SameMembers

pub record Obligation : Type 0 where
  pub event : Event
  pub owed : Providers

abbrev pub Ledger : Type 0
Ledger = String → Option Obligation

abbrev pub empty_ledger : Ledger
empty_ledger id = none

-- An event that is accepted is owed to its providers; what was owed under its id before is gone.
unfoldable pub owe : Event → List String → Ledger → Ledger
unfolding set_of
owe event providers ledger id =
    if str_eq event.id id
    then some (record { event = event; owed = set_of providers })
    else ledger id

unfoldable pub struck : String → Option Obligation → Option Obligation
struck provider none = none
struck provider (some o) =
    let owed = strike provider o.owed in
    if nobody owed then none else some (record o { owed = owed })

-- A provider that has resolved an event is owed it no more, and the last one closes the account.
unfoldable pub discharge : String → String → Ledger → Ledger
unfolding struck
discharge event_id provider ledger id =
    if str_eq event_id id then struck provider (ledger event_id) else ledger id

unfoldable pub ledger_change : Change → Ledger → Ledger
ledger_change (appends event providers) = owe event providers
ledger_change (acks id provider) = discharge id provider

-- The changes of the requests that were answered with a nil error, in their order.
unfoldable pub ledger_batch : List (Request × Faults) → List Bool → Ledger → Ledger
ledger_batch ((r, faults) ∷ rs) (answer ∷ answers) ledger =
    ledger_batch rs answers (if answer then ledger_change r.change ledger else ledger)
ledger_batch _ _ ledger = ledger

-- The ledger that an index stands for.
abbrev pub obligation_of : Option EntryState → Option Obligation
obligation_of none = none
obligation_of (some e) = some (record { event = e.event; owed = set_of e.pending })

unfoldable pub ledger_of : Map EntryState → Ledger
unfolding set_of
ledger_of index id = obligation_of (lookup id index)
