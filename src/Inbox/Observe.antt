-- ===== src/Inbox/Observe.antt =====
-- The inbox and `Observe` (internal/nostr/inbox.go). The clock is read once in a call: its reading
-- is an argument. The lock serialises the calls, and has no model.
use nostmesh.Base.{
  ℕ, ◌+◌, ◌*◌, String, Bool, not, ◌||◌, List, [], ◌∷◌, none, some, ltb, leb, if◌then◌else◌, filter,
  length, string_eq, ◌==◌, ℤ, is_nonpos, pos_part,
}
use nostmesh.Base.Map.{lookup, insert, delete, has}
use nostmesh.Base.Time.{before, second}

pub record Inbox : Type 0 where
  pub seen_events : List (String × ℕ)
  pub seen_logical : List (String × String)
  pub ttl : ℕ
  pub max_entries : ℕ

pub record InboxOptions : Type 0 where
  pub ttl : ℤ
  pub max_entries : ℤ

unfoldable pub new_inbox : InboxOptions → Inbox
new_inbox o = record {
  seen_events = [];
  seen_logical = [];
  ttl = if is_nonpos o.ttl then 30 * 60 * second else pos_part o.ttl;
  max_entries = if is_nonpos o.max_entries then 10000 else pos_part o.max_entries;
}

pub data Verdict : Type 0 where
  is_new is_duplicate is_conflict : Verdict

pub record LogicalKey : Type 0 where
  pub session_id : String
  pub kind : String
  pub seq : ℕ

-- seen is not before now less the time to live.
abbrev pub is_fresh : ℕ → ℕ → String × ℕ → Bool
is_fresh ttl now e = not (ltb (e.1 + ttl) now)

unfoldable pub evict_expired : ℕ → Inbox → Inbox
evict_expired now i =
    let events = filter (is_fresh i.ttl now) i.seen_events in
    record i { seen_events = events; seen_logical = filter (λ e. has e.1 events) i.seen_logical }

-- The loop of `evictOldest`, with the oldest entry so far.
unfoldable pub oldest_from : String × ℕ → List (String × ℕ) → String × ℕ
oldest_from oldest [] = oldest
oldest_from oldest (e ∷ es) =
    oldest_from (if (oldest.0 == "") || before e.1 oldest.1 then e else oldest) es

unfoldable pub evict_oldest : Inbox → Inbox
unfolding oldest_from
evict_oldest i =
    let id = (oldest_from ("", 0) i.seen_events).0 in
    if id == "" then i else record i {
      seen_events = delete id i.seen_events;
      seen_logical = filter (λ e. not (e.1 == id)) i.seen_logical;
    }

unfoldable pub remember : String → String → ℕ → Inbox → Inbox
unfolding evict_oldest
remember id logical now i =
    let room = if leb i.max_entries (length i.seen_events) then evict_oldest i else i in
    record room {
      seen_events = insert id now room.seen_events;
      seen_logical = insert logical id room.seen_logical;
    }

-- How fmt writes a logical key is a parameter.
module _ (text : LogicalKey → String) where
  unfoldable pub observe : String → LogicalKey → ℕ → Inbox → Verdict × Inbox
  unfolding evict_expired remember
  observe id key now i =
      let j = evict_expired now i in
      if has id j.seen_events then (is_duplicate, j) else elim (lookup (text key) j.seen_logical) [
        | some claimed ↦ if claimed == id then (is_duplicate, j) else (is_conflict, j)
        | none ↦ (is_new, remember id (text key) now j)
      ]
