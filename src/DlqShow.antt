-- ===== src/DlqShow.antt =====
-- internal/dlqshow/dlqshow.go: the handler that shows dead letters. The request is its method, its
-- provider and its include_poison parameter; the reply is an error status, or the JSON body. It
-- changes nothing.
use tallyd.Base.{String, Bool, ℕ, List, ◌++◌, str_eq, if◌then◌else◌}
use tallyd.Dlq.{DeadLetter, Dlq, list_regular, list_poison}

-- Result, or a status that is not 200. An empty list is written as `[]`.
pub data Shown : Type 0 where
  refuses : ℕ → Shown
  shows : String → List DeadLetter → Shown

-- `list_fails` and `poison_fails`: List or ListPoison returns an error.
unfoldable pub show_listed : Bool → Bool → Bool → String → Dlq → Shown
show_listed list_fails poison_fails include_poison provider d =
    if list_fails
    then refuses 500
    else if include_poison
    then (if poison_fails
        then refuses 500
        else shows provider (list_regular provider d ++ list_poison provider d))
    else shows provider (list_regular provider d)

-- ServeHTTP
unfoldable pub show_dlq : (String → Bool) → Bool → Bool → Bool → Bool → String → Dlq → Shown
unfolding show_listed
show_dlq known list_fails poison_fails is_get include_poison provider d =
    if is_get
    then (if str_eq provider ""
        then refuses 400
        else if known provider
        then show_listed list_fails poison_fails include_poison provider d
        else refuses 400)
    else refuses 405
