-- ===== src/Protocol/Announced.antt =====
-- What an announcement of routes is that passes the checks.
use nostmesh.Base.{
  ◌≤◌, ◌<◌, String, ◌≡◌, ◌≢◌, ◌↔◌, refl, sym, ap, List, [], ◌∷◌, any, any-In, map, length, All, In,
  here, there, pos_part, Option, none, some, string_eq, ◌==◌, ==-false, arith, Bool-cases,
  Option-cases, inl, inr,
}
use nostmesh.Net.{Prefix, masked, prefix_eq}
use nostmesh.Protocol.Checks.{malformed, refuse_if, first_error-AllPass}
use nostmesh.Protocol.Messages.{RouteAnnounce, AnnouncedRoute}
use nostmesh.Protocol.Payloads.{
  is_empty, check_canonical, validate_announced_prefix, check_prefixes, announce_checks,
  validate_route_announce,
}

-- No member stands twice.
pub Distinct : List String → Type 0
Distinct [] = Unit
Distinct (x ∷ xs) = (¬ In x xs) × Distinct xs

module _ (parse_prefix : String → Option Prefix) where
  -- A text of a prefix without host bits.
  pub record Canonical (value : String) : Type 0 where
    pub prefix : Prefix
    pub read : parse_prefix value ≡ some prefix
    pub canonical : prefix ≡ masked prefix

  pub record Announcement (a : RouteAnnounce) : Type 0 where
    pub some_routes : a.routes ≢ []
    pub bounded : length a.routes ≤ 64
    pub network : a.network_id ≢ ""
    pub lasting : 0 < pos_part a.valid_until
    pub canonical : All Canonical (map (λ r. r.prefix) a.routes)
    pub distinct : Distinct (map (λ r. r.prefix) a.routes)

  validate_announced_prefix-Canonical :
      (value : String) → (validate_announced_prefix parse_prefix value ≡ none) ↔ Canonical value
  unfolding validate_announced_prefix check_canonical
  validate_announced_prefix-Canonical value = (
    (λ h. elim (Option-cases (parse_prefix value)) [
      | inl r ↦ absurd (ground (arith, r))
      | inr (p, r) ↦ record {
        prefix = p;
        read = r;
        canonical = (prefix_eq.beq_iff p (masked p)).0 (ground (arith, r));
      }
    ]),
    (λ c. ground (arith, c.read, (prefix_eq.beq_iff c.prefix (masked c.prefix)).1 c.canonical)),
  )

  -- What the loop finds, given what it has seen.
  abbrev Passed : List String → List String → Type 0
  Passed seen ps = All Canonical ps × (All (λ p. ¬ In p seen) ps × Distinct ps)

  away_from :
      (p : String) (seen ps : List String)
      → All (λ q. ¬ In q (p ∷ seen)) ps
      → All (λ q. ¬ In q seen) ps × (¬ In p ps)
  away_from p seen [] a = (tt, λ m. elim m [ ])
  away_from p seen (q ∷ ps) (d, a) =
      let (rest, away) = away_from p seen ps a in ((λ m. d (there m), rest), λ m. apart m away)
    where
      apart : In p (q ∷ ps) → (¬ In p ps) → ⊥
      apart (here e) away = d (here (sym e))
      apart (there m) away = away m

  away_too :
      (p : String) (seen ps : List String)
      → All (λ q. ¬ In q seen) ps
      → (¬ In p ps)
      → All (λ q. ¬ In q (p ∷ seen)) ps
  away_too p seen [] a away = tt
  away_too p seen (q ∷ ps) (d, a) away = (λ m. apart m, away_too p seen ps a (λ m. away (there m)))
    where
      apart : In q (p ∷ seen) → ⊥
      apart (here e) = away (here (sym e))
      apart (there m) = d m

  check_prefixes-Passed :
      (seen ps : List String) → (check_prefixes parse_prefix seen ps ≡ none) ↔ Passed seen ps
  unfolding check_prefixes Distinct
  check_prefixes-Passed seen [] = (λ h. (tt, (tt, tt)), λ h. refl)
  check_prefixes-Passed seen (p ∷ ps) =
      let checks =
        validate_announced_prefix parse_prefix p
        ∷ refuse_if (any (λ s. s == p) seen) malformed
        ∷ check_prefixes parse_prefix (p ∷ seen) ps
        ∷ [] in
      (
        (λ h.
            let (c, (n, (r, _))) = (first_error-AllPass checks).0 h in
            let (cs, (a, d)) = (check_prefixes-Passed (p ∷ seen) ps).0 r in
            let (rest, away) = away_from p seen ps a in
            (
              ((validate_announced_prefix-Canonical p).0 c, cs),
              ((λ m. absurd (ground (arith, n, (any-In seen p).1 m)), rest), (away, d)),
            )),
        (λ ((c, cs), ((m, a), (away, d))). (first_error-AllPass checks).1 (
          (validate_announced_prefix-Canonical p).1 c,
          (
            not_seen m,
            ((check_prefixes-Passed (p ∷ seen) ps).1 (cs, (away_too p seen ps a away, d)), tt),
          ),
        )),
      )
    where
      not_seen : (¬ In p seen) → refuse_if (any (λ s. s == p) seen) malformed ≡ none
      not_seen m = elim (Bool-cases (any (λ s. s == p) seen)) [
        | inl e ↦ absurd (m ((any-In seen p).0 e))
        | inr e ↦ rw e refl
      ]

  -- The checks accept exactly the announcements, for any reading of prefixes, that name a network, an
  -- end and one to 64 prefixes, each without host bits, none written twice in the same way.
  pub validate_route_announce-Announcement :
      (a : RouteAnnounce) → (validate_route_announce parse_prefix a ≡ none) ↔ Announcement a
  unfolding validate_route_announce announce_checks
  validate_route_announce-Announcement a = (
    (λ h.
        let (s, (b, (n, (v, (r, _))))) =
          (first_error-AllPass (announce_checks parse_prefix a)).0 h in
        let (cs, (_, d)) = (check_prefixes-Passed [] (map (λ r. r.prefix) a.routes)).0 r in
        record {
          some_routes = λ e. absurd (ground (arith, s, ap (λ l. is_empty l) e));
          bounded = ground (arith, b);
          network = λ e. absurd (ground (arith, n, (string_eq.beq_iff a.network_id "").1 e));
          lasting = ground (arith, v);
          canonical = cs;
          distinct = d;
        }),
    (λ w. (first_error-AllPass (announce_checks parse_prefix a)).1 (
      filled a.routes w.some_routes,
      (
        ground (arith, w.bounded),
        (
          ground (arith, ==-false a.network_id "" w.network),
          (
            ground (arith, w.lasting),
            (
              (check_prefixes-Passed [] (map (λ r. r.prefix) a.routes)).1
                  (w.canonical, (unseen (map (λ r. r.prefix) a.routes), w.distinct)),
              tt,
            ),
          ),
        ),
      ),
    )),
  )
    where
      unseen : (ps : List String) → All (λ p. ¬ In p []) ps
      unseen [] = tt
      unseen (p ∷ ps) = (λ m. elim m [ ], unseen ps)

      filled : (rs : List AnnouncedRoute) → rs ≢ [] → refuse_if (is_empty rs) malformed ≡ none
      filled [] h = absurd (h refl)
      filled (r ∷ rs) h = refl
