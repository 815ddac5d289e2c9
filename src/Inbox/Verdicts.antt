-- ===== src/Inbox/Verdicts.antt =====
-- What the inbox answers, and for how long.
use nostmesh.Base.{
  length-filter-le, ◌<◌, refl, sym, All, none, ℕ, ◌+◌, ◌≤◌, String, ◌≡◌, ◌≢◌, Bool, true, false,
  List, [], ◌∷◌, some, arith, filter, string_eq, if◌then◌else◌, leb, length,
}
use nostmesh.Base.Map.{lookup, has, lookup-insert, length-insert}
use nostmesh.Inbox.Observe.{
  Inbox, is_new, is_duplicate, is_conflict, LogicalKey, is_fresh, evict_expired, evict_oldest,
  remember, observe,
}

-- A test that the entry of a key passes keeps it.
lookup-filter :
    {V : Type 0} (keep : String × V → Bool) (k : String) (m : List (String × V)) (v : V)
    → lookup k m ≡ some v
    → keep (k, v) ≡ true
    → lookup k (filter keep m) ≡ some v
lookup-filter keep k [] v h t = absurd (ground arith)
lookup-filter keep k ((j, w) ∷ m) v h t =
    ground (arith, string_eq.beq_iff j k, lookup-filter keep k m v)

-- One observation: the event, the place in a session that it names, and when it is made.
pub record Seen : Type 0 where
  pub id : String
  pub key : LogicalKey
  pub at : ℕ

-- An inbox that remembers an event from an instant on, with the place it claimed.
pub record Knows (id place : String) (now ttl room : ℕ) (i : Inbox) : Type 0 where
  pub event : lookup id i.seen_events ≡ some now
  pub claim : lookup place i.seen_logical ≡ some id
  pub lasting : i.ttl ≡ ttl
  pub roomy : i.max_entries ≡ room

module _ (id place : String) (now ttl room : ℕ) where
  evict_expired-Knows :
      (later : ℕ) (i : Inbox)
      → Knows id place now ttl room i
      → later ≤ now + ttl
      → Knows id place now ttl room (evict_expired later i)
        × (length (evict_expired later i).seen_events ≤ length i.seen_events)
  unfolding evict_expired
  evict_expired-Knows later i k le =
      let fresh = is_fresh i.ttl later in
      let kept = lookup-filter fresh id i.seen_events now k.event (ground (arith, k.lasting)) in
      (
        record {
          event = kept;
          claim =
              lookup-filter (λ e. has e.1 (filter fresh i.seen_events)) place i.seen_logical id
                k.claim (ground (arith, kept));
          lasting = k.lasting;
          roomy = k.roomy;
        },
        length-filter-le fresh i.seen_events,
      )

  -- With room for one more entry, another event that takes another place forgets nothing.
  remember-Knows :
      (other logical : String) (later : ℕ) (i : Inbox)
      → Knows id place now ttl room i
      → length i.seen_events < room
      → has other i.seen_events ≡ false
      → lookup logical i.seen_logical ≡ none
      → Knows id place now ttl room (remember other logical later i)
        × (length (remember other logical later i).seen_events ≤ length i.seen_events + 1)
  unfolding remember
  remember-Knows other logical later i k short unseen free =
      let no_eviction : leb i.max_entries (length i.seen_events) ≡ false =
        ground (arith, k.roomy) in
      rw no_eviction (
        record {
          event = ground (
            arith,
            k.event,
            string_eq.beq_iff other id,
            lookup-insert other id later i.seen_events,
          );
          claim = ground (
            arith,
            k.claim,
            string_eq.beq_iff logical place,
            lookup-insert logical place other i.seen_logical,
          );
          lasting = k.lasting;
          roomy = k.roomy;
        },
        ground (arith, length-insert other later i.seen_events),
      )

  first-Knows :
      (i : Inbox)
      → i.ttl ≡ ttl
      → i.max_entries ≡ room
      → Knows id place now ttl room (remember id place now i)
  unfolding remember evict_oldest
  first-Knows i t m =
      let made = if leb i.max_entries (length i.seen_events) then evict_oldest i else i in
      record {
        event = ground (arith, string_eq.beq_iff id id, lookup-insert id id now made.seen_events);
        claim =
            ground (
              arith,
              string_eq.beq_iff place place,
              lookup-insert place place id made.seen_logical,
            );
        lasting = ground (arith, t);
        roomy = ground (arith, m);
      }

module _ (text : LogicalKey → String) where
  -- An observation whose verdict is a duplicate or a conflict only evicts what has expired.
  pub observe-old :
      (id : String) (key : LogicalKey) (now : ℕ) (i : Inbox)
      → (observe text id key now i).0 ≢ is_new
      → (observe text id key now i).1 ≡ evict_expired now i
  unfolding observe
  observe-old id key now i h = ground arith

  observe-made :
      (id : String) (key : LogicalKey) (now : ℕ) (i j : Inbox)
      → observe text id key now i ≡ (is_new, j)
      → j ≡ remember id (text key) now (evict_expired now i)
  unfolding observe
  observe-made id key now i j h = ground arith

  -- The inbox after some observations, the first one first.
  unfoldable pub observe_all : List Seen → Inbox → Inbox
  observe_all [] i = i
  observe_all (s ∷ seen) i = observe_all seen (observe text s.id s.key s.at i).1

  module _ (id place : String) (now ttl room : ℕ) where
    observe-Knows :
        (s : Seen) (i : Inbox)
        → Knows id place now ttl room i
        → s.at ≤ now + ttl
        → length i.seen_events < room
        → Knows id place now ttl room (observe text s.id s.key s.at i).1
          × (length (observe text s.id s.key s.at i).1.seen_events ≤ length i.seen_events + 1)
    unfolding observe
    observe-Knows s i k le short =
        let kept = evict_expired-Knows id place now ttl room s.at i k le in
        ground (
          arith,
          kept,
          remember-Knows id place now ttl room s.id (text s.key) s.at (evict_expired s.at i)
              (kept.0),
        )

    observe_all-Knows :
        (seen : List Seen) (i : Inbox)
        → Knows id place now ttl room i
        → All (λ s. s.at ≤ now + ttl) seen
        → length i.seen_events + length seen ≤ room
        → Knows id place now ttl room (observe_all seen i)
    unfolding observe_all
    observe_all-Knows [] i k t r = k
    observe_all-Knows (s ∷ seen) i k t r =
        let (kept, grown) = observe-Knows s i k (t.0) (omega arith) in
        observe_all-Knows seen (observe text s.id s.key s.at i).1 kept (t.1) (omega arith)

    Knows-verdicts :
        (other : String) (key : LogicalKey) (later : ℕ) (i : Inbox)
        → Knows id place now ttl room i
        → later ≤ now + ttl
        → ((observe text id key later i).0 ≡ is_duplicate)
          × (text key ≡ place
              → has other (evict_expired later i).seen_events ≡ false
              → (observe text other key later i).0 ≡ is_conflict)
    unfolding observe
    Knows-verdicts other key later i k le =
        let kept = (evict_expired-Knows id place now ttl room later i k le).0 in
        (
          ground (arith, kept.event),
          λ same unseen.
              let claim : lookup (text key) (evict_expired later i).seen_logical ≡ some id =
                rw same (kept.claim) in
              ground (arith, kept.event, claim, string_eq.beq_iff id other),
        )

  -- A message was taken as new, and then any observations were made, none after its time to live
  -- was over, and so few that the inbox held all they could add: what it held after the message and
  -- their number together are at most its greatest size. Then until the time to live is over the
  -- message is a duplicate, whatever place in a session it names, and another event that is not
  -- remembered itself and names the message's place is a conflict.
  pub observe_again :
      (id other : String) (key key' : LogicalKey) (now later : ℕ) (i j : Inbox)
      (between : List Seen)
      → observe text id key now i ≡ (is_new, j)
      → All (λ s. s.at ≤ now + i.ttl) between
      → length j.seen_events + length between ≤ i.max_entries
      → later ≤ now + i.ttl
      → let after = observe_all between j in
        ((observe text id key' later after).0 ≡ is_duplicate)
        × (has other (evict_expired later after).seen_events ≡ false
            → (observe text other key later after).0 ≡ is_conflict)
  unfolding evict_expired
  observe_again id other key key' now later i j between h times room le =
      let old = evict_expired now i in
      let first = first-Knows id (text key) now i.ttl i.max_entries old refl refl in
      let known = rw (sym (observe-made id key now i j h)) at first in
      let last =
        observe_all-Knows id (text key) now i.ttl i.max_entries between j known times room in
      let after = observe_all between j in
      (
        (Knows-verdicts id (text key) now i.ttl i.max_entries other key' later after last le).0,
        (Knows-verdicts id (text key) now i.ttl i.max_entries other key later after last le).1 refl,
      )
