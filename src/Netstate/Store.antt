-- ===== src/Netstate/Store.antt =====
-- The journal on disk (internal/netstate/store.go): one file for each transaction, which holds what
-- JSON writes of it and reads back. The outcomes of the writes to come are data: a write puts the
-- whole file in place or leaves the old one, and may fail on either side of that.
use Prim.Native.Char.{code}
use nostmesh.Base.{
  String, string_eq, Bool, false, ◌||◌, List, [], ◌∷◌, filter, map, none, some, nat_eq,
  if◌then◌else◌, ◌==◌,
}
use nostmesh.Base.Map.{lookup, insert, delete}
use nostmesh.Base.Outcome.{Outcome, ok, err, Result, value, error}
use nostmesh.Netstate.Journal.{Transaction, needs_recovery}

pub data Write : Type 0 where
  done lost kept_unsynced : Write

pub record JournalStore : Type 0 where
  pub files : List (String × Transaction)
  pub writes : List Write

pub data Error : Type 0 where
  no_id bad_id write_failed no_journal : Error

-- strings.ContainsAny(id, `/\.`)
unfoldable pub has_separator : String → Bool
has_separator String.[] = false
has_separator (String.◌∷◌ c rest) =
    nat_eq (code c) 47 || nat_eq (code c) 92 || nat_eq (code c) 46 || has_separator rest

abbrev pub put : Transaction → JournalStore → List (String × Transaction)
put t s = insert t.id t s.files

unfoldable pub write_atomic : Transaction → JournalStore → Outcome JournalStore Error (Unit {0})
write_atomic t s = elim s.writes [
  | [] ↦ ok tt (record s { files = put t s })
  | done ∷ later ↦ ok tt (record s { files = put t s; writes = later })
  | lost ∷ later ↦ err write_failed (record s { writes = later })
  | kept_unsynced ∷ later ↦ err write_failed (record s { files = put t s; writes = later })
]

unfoldable pub save : Transaction → JournalStore → Outcome JournalStore Error (Unit {0})
unfolding has_separator write_atomic
save t s =
    if t.id == ""
    then err no_id s
    else if has_separator t.id
    then err bad_id s
    else write_atomic t s

unfoldable pub load : String → JournalStore → Result Error Transaction
load id s = elim (lookup id s.files) [ none ↦ error no_journal | some t ↦ value t ]

-- `List`, in the order of the directory, which the source sorts by the time of the start.
unfoldable pub list : JournalStore → List Transaction
list s = map (λ e. e.1) s.files

unfoldable pub pending_recovery : JournalStore → List Transaction
unfolding list
pending_recovery s = filter needs_recovery (list s)

unfoldable pub delete_transaction : String → JournalStore → JournalStore
delete_transaction id s = record s { files = delete id s.files }
