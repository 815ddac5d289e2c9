-- ===== src/Outbox/Queue.antt =====
-- The outbox (internal/nostr/outbox.go): a directory of one file for each entry, under the entry's
-- id, that holds what was written to it. Whether the writes and removals to come succeed is data; a
-- write that fails leaves the old file. A file that cannot be read, which the source skips, has no
-- model, and the lock and the sorting of the result have none either.
use nostmesh.Base.{
  ℕ, zero, suc, ◌+◌, ℤ, pos, negsuc, String, string_eq, ◌==◌, Bool, true, false, not, ◌&&◌, ◌||◌,
  List, [], ◌∷◌, ◌++◌, any, length, Option, none, some, nat_eq, leb, ltb, if◌then◌else◌,
}
use nostmesh.Base.Map.{lookup, insert, delete, has}
use nostmesh.Base.Outcome.{Outcome, ok, err, Result, value, error}
use nostmesh.Netstate.Store.{has_separator}

pub record Entry : Type 0 where
  pub id : String
  pub event : List ℕ
  pub accepted_by : List String
  pub attempts : ℕ
  pub queued_at : ℕ
  pub last_attempt : Option ℕ
  pub expires_at : ℕ

pub record Outbox : Type 0 where
  pub files : List (String × Entry)
  pub max_entries : ℕ
  pub max_attempts : ℕ
  pub writes : List Bool

pub record OutboxOptions : Type 0 where
  pub dir : String
  pub max_entries : ℤ
  pub max_attempts : ℤ

pub data Error : Type 0 where
  no_dir no_id bad_id no_event full not_found write_failed remove_failed : Error

abbrev pub positive_or : ℕ → ℤ → ℕ
positive_or default (pos zero) = default
positive_or default (pos (suc n)) = suc n
positive_or default (negsuc n) = default

-- The directory is there and empty.
unfoldable pub new_outbox : OutboxOptions → Result Error Outbox
new_outbox opts =
    if opts.dir == ""
    then error no_dir
    else value (record {
      files = [];
      max_entries = positive_or 1000 opts.max_entries;
      max_attempts = positive_or 10 opts.max_attempts;
      writes = [];
    })

unfoldable pub is_accepted : Entry → String → Bool
is_accepted e relay = any (λ r. r == relay) e.accepted_by

unfoldable pub is_expired : ℕ → Entry → Bool
is_expired now e = not (ltb now e.expires_at)

unfoldable pub is_exhausted : ℕ → Entry → Bool
is_exhausted max_attempts e = leb max_attempts e.attempts

unfoldable pub write : Entry → Outbox → Outcome Outbox Error (Unit {0})
write e o = elim o.writes [
  | [] ↦ ok tt (record o { files = insert e.id e o.files })
  | true ∷ later ↦ ok tt (record o { files = insert e.id e o.files; writes = later })
  | false ∷ later ↦ err write_failed (record o { writes = later })
]

unfoldable pub remove : String → Outbox → Outcome Outbox Error (Unit {0})
remove id o = elim o.writes [
  | [] ↦ ok tt (record o { files = delete id o.files })
  | true ∷ later ↦ ok tt (record o { files = delete id o.files; writes = later })
  | false ∷ later ↦ err remove_failed (record o { writes = later })
]

abbrev pub is_nil : List ℕ → Bool
is_nil [] = true
is_nil (_ ∷ _) = false

-- The time is set where it is not.
abbrev pub queued : ℕ → Entry → Entry
queued now e = record e { queued_at = if nat_eq e.queued_at 0 then now else e.queued_at }

unfoldable pub enqueue : Entry → ℕ → Outbox → Outcome Outbox Error (Unit {0})
unfolding write
enqueue e now o =
    if e.id == ""
    then err no_id o
    else if has_separator e.id
    then err bad_id o
    else if is_nil e.event
    then err no_event o
    else if not (has e.id o.files) && leb o.max_entries (length o.files)
    then err full o
    else write (queued now e) o

-- The loop of `Pending` over what was listed.
unfoldable pub drop_spent : ℕ → List (String × Entry) → Outbox → Outcome Outbox Error (List Entry)
unfolding remove is_expired is_exhausted
drop_spent now [] o = ok [] o
drop_spent now ((id, e) ∷ listed) o =
    let kept : Outcome Outbox Error (List Entry) = elim (drop_spent now listed o) [
      | err x o' ↦ err x o'
      | ok pending o' ↦ ok (e ∷ pending) o'
    ] in
    let dropped : Outcome Outbox Error (List Entry) = elim (remove id o) [
      | err x o' ↦ err x o'
      | ok _ o' ↦ drop_spent now listed o'
    ] in
    if is_expired now e || is_exhausted o.max_attempts e then dropped else kept

unfoldable pub pending : ℕ → Outbox → Outcome Outbox Error (List Entry)
unfolding drop_spent
pending now o = drop_spent now o.files o

-- The loop of `RecordAttempt` over the relays.
unfoldable pub accept_all : List String → Entry → Entry
unfolding is_accepted
accept_all [] e = e
accept_all (relay ∷ relays) e =
    accept_all relays
      (if is_accepted e relay then e else record e { accepted_by = e.accepted_by ++ (relay ∷ []) })

unfoldable pub attempted : List String → ℕ → Entry → Entry
unfolding accept_all
attempted relays now e =
    accept_all relays (record e { attempts = e.attempts + 1; last_attempt = some now })

unfoldable pub record_attempt : String → List String → ℕ → Outbox → Outcome Outbox Error (Unit {0})
unfolding write attempted
record_attempt id relays now o = elim (lookup id o.files) [
  | none ↦ err not_found o
  | some e ↦ write (attempted relays now e) o
]

unfoldable pub size : Outbox → ℕ
size o = length o.files
