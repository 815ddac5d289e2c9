-- ===== src/Protocol/Only.antt =====
-- A payload carries the one message that its envelope declares.
use nostmesh.Base.{
  refl, Option, some, ℕ, ◌+◌, ◌≡◌, ◌↔◌, ap, sym, subst, ◌∙◌, Bool, true, false, List, [], ◌∷◌,
  length, none, string_eq, arith,
}
use nostmesh.Session.Types.{SessionRequest, SessionOffer, SessionAccept}
use nostmesh.Protocol.Envelope.{MessageType}
use nostmesh.Protocol.Messages.{
  CandidateUpdate, SessionReady, SessionKeepalive, SessionClose, SessionError, RouteAnnounce,
  RouteWithdraw, Payload, present, count_present, one_type, check_type, type_of, matches_envelope,
}

-- The types of the messages that are there.
abbrev kinds_of : List (Bool × MessageType) → List MessageType
kinds_of [] = []
kinds_of ((true, kind) ∷ set) = kind ∷ kinds_of set
kinds_of ((false, kind) ∷ set) = kinds_of set

abbrev last_or : MessageType → List MessageType → MessageType
last_or found [] = found
last_or found (k ∷ ks) = last_or k ks

count_present-kinds_of :
    (found : MessageType) (count : ℕ) (set : List (Bool × MessageType))
    → count_present found count set ≡ (last_or found (kinds_of set), count + length (kinds_of set))
unfolding count_present
count_present-kinds_of found count [] = ap (λ n. (found, n)) (omega arith)
count_present-kinds_of found count ((true, kind) ∷ set) =
    count_present-kinds_of kind (count + 1) set
    ∙ ap (λ n. (last_or kind (kinds_of set), n)) (omega arith)
count_present-kinds_of found count ((false, kind) ∷ set) = count_present-kinds_of found count set

check_one_type :
    (kinds : List MessageType) (t : MessageType)
    → (check_type t (one_type (last_or "" kinds, length kinds)) ≡ none) ↔ (kinds ≡ t ∷ [])
unfolding one_type check_type
check_one_type [] t = (λ h. absurd (ground (arith, h)), λ h. absurd (ground (arith, h)))
check_one_type (k ∷ []) t = (
  (λ h. ap (λ x. x ∷ []) ((string_eq.beq_iff k t).0 (ground (arith, h)))),
  (λ h. ground (arith, (string_eq.beq_iff k t).1 (ap (λ l. last_or "" l) h))),
)
check_one_type (k ∷ (l ∷ ks)) t =
    ((λ h. absurd (ground (arith, h))), (λ h. absurd (omega (arith, ap (λ l. length l) h))))

-- A payload passes for a type exactly if that is the one type of the messages that are there.
matches_envelope-kinds :
    (p : Payload) (declared : MessageType)
    → (matches_envelope p declared ≡ none) ↔ (kinds_of (present p) ≡ declared ∷ [])
unfolding matches_envelope type_of
matches_envelope-kinds p declared =
    subst
      (λ found.
        (check_type declared (one_type found) ≡ none) ↔ (kinds_of (present p) ≡ declared ∷ []))
      (sym (
        count_present-kinds_of "" 0 (present p)
        ∙ ap (λ n. (last_or "" (kinds_of (present p)), n)) (omega arith)))
      (check_one_type (kinds_of (present p)) declared)

-- A payload without a message.
abbrev pub nothing : Payload
nothing = record {
  request = none;
  offer = none;
  accept = none;
  candidate = none;
  ready = none;
  keepalive = none;
  close = none;
  error = none;
  route_announce = none;
  route_withdraw = none;
}

-- A payload that carries one message and no other, with the name of that message's type.
pub data Sole : Payload → MessageType → Type 0 where
  sole_request : (m : SessionRequest) → Sole (record nothing { request = some m }) "session.request"
  sole_offer : (m : SessionOffer) → Sole (record nothing { offer = some m }) "session.offer"
  sole_accept : (m : SessionAccept) → Sole (record nothing { accept = some m }) "session.accept"
  sole_candidate :
      (m : CandidateUpdate) → Sole (record nothing { candidate = some m }) "candidate.update"
  sole_ready : (m : SessionReady) → Sole (record nothing { ready = some m }) "session.ready"
  sole_keepalive :
      (m : SessionKeepalive) → Sole (record nothing { keepalive = some m }) "session.keepalive"
  sole_close : (m : SessionClose) → Sole (record nothing { close = some m }) "session.close"
  sole_error : (m : SessionError) → Sole (record nothing { error = some m }) "session.error"
  sole_route_announce :
      (m : RouteAnnounce) → Sole (record nothing { route_announce = some m }) "route.announce"
  sole_route_withdraw :
      (m : RouteWithdraw) → Sole (record nothing { route_withdraw = some m }) "route.withdraw"

-- The first message that is there is the only one.
kinds_of-Sole :
    (r : Option SessionRequest) (o : Option SessionOffer) (a : Option SessionAccept)
    (c : Option CandidateUpdate) (y : Option SessionReady) (k : Option SessionKeepalive)
    (x : Option SessionClose) (e : Option SessionError) (n : Option RouteAnnounce)
    (w : Option RouteWithdraw) (t : MessageType)
    → let p : Payload = record {
      request = r;
      offer = o;
      accept = a;
      candidate = c;
      ready = y;
      keepalive = k;
      close = x;
      error = e;
      route_announce = n;
      route_withdraw = w;
    } in
      kinds_of (present p) ≡ t ∷ [] → Sole p t
unfolding present
kinds_of-Sole (some m) o a c y k x e n w t h =
    let kind : t ≡ "session.request" = ground arith in
    let (ho, ha, hc, hy, hk, hx, he, hn, hw) : (o ≡ none)
        × (a ≡ none)
        × (c ≡ none)
        × (y ≡ none)
        × (k ≡ none)
        × (x ≡ none)
        × (e ≡ none)
        × (n ≡ none)
        × (w ≡ none) =
      ground arith in
    rw (kind, ho, ha, hc, hy, hk, hx, he, hn, hw) (sole_request m)
kinds_of-Sole none (some m) a c y k x e n w t h =
    let kind : t ≡ "session.offer" = ground arith in
    let (ha, hc, hy, hk, hx, he, hn, hw) : (a ≡ none)
        × (c ≡ none)
        × (y ≡ none)
        × (k ≡ none)
        × (x ≡ none)
        × (e ≡ none)
        × (n ≡ none)
        × (w ≡ none) =
      ground arith in
    rw (kind, ha, hc, hy, hk, hx, he, hn, hw) (sole_offer m)
kinds_of-Sole none none (some m) c y k x e n w t h =
    let kind : t ≡ "session.accept" = ground arith in
    let (hc, hy, hk, hx, he, hn, hw) : (c ≡ none)
        × (y ≡ none)
        × (k ≡ none)
        × (x ≡ none)
        × (e ≡ none)
        × (n ≡ none)
        × (w ≡ none) =
      ground arith in
    rw (kind, hc, hy, hk, hx, he, hn, hw) (sole_accept m)
kinds_of-Sole none none none (some m) y k x e n w t h =
    let kind : t ≡ "candidate.update" = ground arith in
    let (hy, hk, hx, he, hn, hw) : (y ≡ none)
        × (k ≡ none)
        × (x ≡ none)
        × (e ≡ none)
        × (n ≡ none)
        × (w ≡ none) =
      ground arith in
    rw (kind, hy, hk, hx, he, hn, hw) (sole_candidate m)
kinds_of-Sole none none none none (some m) k x e n w t h =
    let kind : t ≡ "session.ready" = ground arith in
    let (hk, hx, he, hn, hw) : (k ≡ none) × (x ≡ none) × (e ≡ none) × (n ≡ none) × (w ≡ none) =
      ground arith in
    rw (kind, hk, hx, he, hn, hw) (sole_ready m)
kinds_of-Sole none none none none none (some m) x e n w t h =
    let kind : t ≡ "session.keepalive" = ground arith in
    let (hx, he, hn, hw) : (x ≡ none) × (e ≡ none) × (n ≡ none) × (w ≡ none) = ground arith in
    rw (kind, hx, he, hn, hw) (sole_keepalive m)
kinds_of-Sole none none none none none none (some m) e n w t h =
    let kind : t ≡ "session.close" = ground arith in
    let (he, hn, hw) : (e ≡ none) × (n ≡ none) × (w ≡ none) = ground arith in
    rw (kind, he, hn, hw) (sole_close m)
kinds_of-Sole none none none none none none none (some m) n w t h =
    let kind : t ≡ "session.error" = ground arith in
    let (hn, hw) : (n ≡ none) × (w ≡ none) = ground arith in rw (kind, hn, hw) (sole_error m)
kinds_of-Sole none none none none none none none none (some m) w t h =
    let kind : t ≡ "route.announce" = ground arith in
    let hw : w ≡ none = ground arith in rw (kind, hw) (sole_route_announce m)
kinds_of-Sole none none none none none none none none none (some m) t h =
    let kind : t ≡ "route.withdraw" = ground arith in rw kind (sole_route_withdraw m)
kinds_of-Sole none none none none none none none none none none t h = absurd (ground arith)

Sole-kinds_of : (p : Payload) (t : MessageType) → Sole p t → kinds_of (present p) ≡ t ∷ []
unfolding present
Sole-kinds_of p t (sole_request m) = refl
Sole-kinds_of p t (sole_offer m) = refl
Sole-kinds_of p t (sole_accept m) = refl
Sole-kinds_of p t (sole_candidate m) = refl
Sole-kinds_of p t (sole_ready m) = refl
Sole-kinds_of p t (sole_keepalive m) = refl
Sole-kinds_of p t (sole_close m) = refl
Sole-kinds_of p t (sole_error m) = refl
Sole-kinds_of p t (sole_route_announce m) = refl
Sole-kinds_of p t (sole_route_withdraw m) = refl

-- A payload passes for a type exactly if it carries the message of which that is the type and none
-- of the nine others.
pub matches_envelope-Sole :
    (p : Payload) (declared : MessageType) → (matches_envelope p declared ≡ none) ↔ Sole p declared
matches_envelope-Sole p declared =
    let (to, from) = matches_envelope-kinds p declared in
    (
      (λ h.
          kinds_of-Sole (p.request) (p.offer) (p.accept) (p.candidate) (p.ready) (p.keepalive)
            (p.close) (p.error) (p.route_announce) (p.route_withdraw) declared (to h)),
      (λ s. from (Sole-kinds_of p declared s)),
    )
