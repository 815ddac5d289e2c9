-- ===== src/Recovery/Hosts.antt =====
-- What `Down` leaves on a host in memory on which no call fails (internal/orchestrator/reconcile.go,
-- internal/wireguard/fake.go).
use nostmesh.Base.{
  String, string_eq, ◌≡◌, refl, ap, ◌∙◌, Bool, true, false, ◌&&◌, ◌||◌, List, [], ◌∷◌, ◌++◌, map,
  any, All, none, some, if◌then◌else◌, arith, Option-cases, Bool-cases, inl, inr, ◌==◌, filter,
}
use nostmesh.Base.Map.{has, lookup, delete, lookup-delete}
use nostmesh.Base.Outcome.{Outcome, ok, err, ◌>>=◌}
use nostmesh.Wireguard.Port.{owns_interface, Error, interface_not_found, InterfaceState}
use nostmesh.Wireguard.Fake.{
  Fake, routes_of, record_call, observe_interface, remove_interface, list_owned_interfaces,
  fake_controller,
}
use nostmesh.Recovery.Reconcile.{Reconciliation, remove_one, remove_all, clear_host}

-- The call succeeds, and the state is as told.
abbrev pub Sure : {S E A : Type 0} → (S → Type 0) → Outcome S E A → Type 0
Sure Q (ok _ s) = Q s
Sure Q (err _ _) = ⊥

-- No call is asked to fail, and every interface stands under its name.
pub record Calm (f : Fake) : Type 0 where
  pub none_fails : f.fail_on ≡ []
  pub none_fails_next : f.fail_next ≡ []
  pub named : (n : String) (i : InterfaceState) → lookup n f.interfaces ≡ some i → i.name ≡ n

-- The host is the given one without the interfaces that the test names.
pub record Cleared (f : Fake) (gone : String → Bool) (g : Fake) : Type 0 where
  pub calm : Calm g
  pub left : (m : String) → lookup m g.interfaces ≡ (if gone m then none else lookup m f.interfaces)

noted : String → Fake → Fake
noted method f = record f { calls = f.calls ++ (method ∷ []) }

record_call-Calm :
    (method : String) (f : Fake) → Calm f → record_call method f ≡ ok tt (noted method f)
unfolding record_call noted
record_call-Calm method f c = rw (c.none_fails, c.none_fails_next)

noted-Calm : (method : String) (f : Fake) → Calm f → Calm (noted method f)
unfolding noted
noted-Calm method f c = record {
  none_fails = c.none_fails;
  none_fails_next = c.none_fails_next;
  named = c.named;
}

shown : String → Fake → InterfaceState → InterfaceState
shown name f i = record i { routes = map (λ e. e.0) (routes_of name f) }

without : String → Fake → Fake
without name f = record f { interfaces = delete name f.interfaces; routes = delete name f.routes }

module _ (name : String) (f : Fake) (c : Calm f) where
  observe_interface-missing :
      lookup name f.interfaces ≡ none
      → observe_interface name f ≡ err interface_not_found (noted "ObserveInterface" f)
  unfolding observe_interface noted
  observe_interface-missing h =
      rw (record_call-Calm "ObserveInterface" f c, h, observe_interface, ◌>>=◌)

  observe_interface-found :
      (i : InterfaceState)
      → lookup name f.interfaces ≡ some i
      → observe_interface name f ≡ ok (shown name f i) (noted "ObserveInterface" f)
  unfolding observe_interface noted shown
  observe_interface-found i h =
      rw (record_call-Calm "ObserveInterface" f c, h, observe_interface, ◌>>=◌)

  remove_interface-owned :
      owns_interface name ≡ true
      → remove_interface name f ≡ ok tt (without name (noted "RemoveInterface" f))
  unfolding remove_interface noted without
  remove_interface-owned o = rw (record_call-Calm "RemoveInterface" f c, o, remove_interface, ◌>>=◌)

  without-Calm : Calm (without name f)
  unfolding without
  without-Calm = record {
    none_fails = c.none_fails;
    none_fails_next = c.none_fails_next;
    named = λ n i h. ground (arith, lookup-delete name n f.interfaces, c.named n i);
  }

remove_one-Cleared :
    (f : Fake) (gone : String → Bool) (g : Fake) (name : String)
    → owns_interface name ≡ true
    → Cleared f gone g
    → Sure (Cleared f (λ m. gone m || (name == m))) (remove_one fake_controller name g)
unfolding remove_one fake_controller noted shown without
remove_one-Cleared f gone g name o c = elim (Option-cases (lookup name g.interfaces)) [
  | inl missing ↦
      rw (observe_interface-missing name g c.calm missing, Sure, remove_one)
        (record {
          calm = noted-Calm "ObserveInterface" g c.calm;
          left = λ m. ground (arith, c.left m, string_eq.beq_iff name m, missing);
        })
  | inr (i, found) ↦
      let g1 : Fake = noted "ObserveInterface" g in
      let calm1 : Calm g1 = noted-Calm "ObserveInterface" g c.calm in
      let own : owns_interface i.name ≡ true = ap owns_interface (c.calm.named name i found) ∙ o in
      rw
        (
          observe_interface-found name g c.calm i found,
          own,
          remove_interface-owned name g1 calm1 o,
          Sure,
          remove_one,
        )
        (record {
          calm =
              without-Calm name (noted "RemoveInterface" g1)
                (noted-Calm "RemoveInterface" g1 calm1);
          left = λ m. ground (arith, c.left m, lookup-delete name m g.interfaces);
        })
]

Cleared-map :
    (f : Fake) (gone gone' : String → Bool) (o : Outcome Fake Error Reconciliation)
    → ((m : String)
        → (if gone m then none else lookup m f.interfaces)
          ≡ (if gone' m then none else lookup m f.interfaces))
    → Sure (Cleared f gone) o
    → Sure (Cleared f gone') o
Cleared-map f gone gone' (ok _ s) e k = record { calm = k.calm; left = λ m. k.left m ∙ e m }
Cleared-map f gone gone' (err _ _) e k = k

remove_all-Cleared :
    (f : Fake) (notes : Bool) (names : List String) (gone : String → Bool) (r : Reconciliation)
    (g : Fake)
    → All (λ n. owns_interface n ≡ true) names
    → Cleared f gone g
    → Sure
        (Cleared f (λ m. gone m || any (λ n. n == m) names))
        (remove_all fake_controller notes names r g)
unfolding remove_all
remove_all-Cleared f notes [] gone r g o c = record {
  calm = c.calm;
  left = λ m. ground (arith, c.left m);
}
remove_all-Cleared f notes (name ∷ names) gone r g o c =
    go
      (λ r' h k.
        Cleared-map f _ _ (remove_all fake_controller notes names r' h) (λ m. ground arith)
          (remove_all-Cleared f notes names (λ m. gone m || (name == m)) r' h o.1 k))
      (remove_one fake_controller name g) (remove_one-Cleared f gone g name o.0 c)
  where
    go :
        ((r' : Reconciliation) (h : Fake)
          → Cleared f (λ m. gone m || (name == m)) h
          → Sure
              (Cleared f (λ m. gone m || any (λ n. n == m) (name ∷ names)))
              (remove_all fake_controller notes names r' h))
        → (out : Outcome Fake Error Bool) → Sure (Cleared f (λ m. gone m || (name == m))) out
        → Sure
            (Cleared f (λ m. gone m || any (λ n. n == m) (name ∷ names)))
            (elim out as (λ _. Outcome Fake Error Reconciliation) [
              | err e t ↦ err e t
              | ok true t ↦
                  remove_all fake_controller notes names
                    (record r { removed = r.removed ++ (name ∷ []) })
                    t
              | ok false t ↦
                  remove_all fake_controller notes names
                    (if notes then record r { kept = r.kept ++ (name ∷ []) } else r)
                    t
            ])
    go rest (err _ _) k = absurd k
    go rest (ok true t) k = rest (record r { removed = r.removed ++ (name ∷ []) }) t k
    go rest (ok false t) k =
        rest (if notes then record r { kept = r.kept ++ (name ∷ []) } else r) t k

All-owns_interface :
    (m : List (String × InterfaceState))
    → All (λ n. owns_interface n ≡ true) (filter owns_interface (map (λ e. e.0) m))
All-owns_interface [] = tt
All-owns_interface (e ∷ m) = elim (Bool-cases (owns_interface e.0)) [
  | inl o ↦ rw o (o, All-owns_interface m)
  | inr o ↦ rw o (All-owns_interface m)
]

any-listed :
    (n : String) (m : List (String × InterfaceState))
    → any (λ k. k == n) (filter owns_interface (map (λ e. e.0) m)) ≡ (owns_interface n && has n m)
any-listed n [] = ground arith
any-listed n ((k, i) ∷ m) =
    let ih = any-listed n m in
    elim (Bool-cases (k == n)) [
      | inl e ↦
          let own : owns_interface k ≡ owns_interface n =
            ap owns_interface ((string_eq.beq_iff k n).0 e) in
          elim (Bool-cases (owns_interface n)) [
            | inl o ↦ rw (own, o, e)
            | inr o ↦ rw (own, o) (ih ∙ rw o)
          ]
      | inr e ↦ elim (Bool-cases (owns_interface k)) [ inl o ↦ rw (o, e) ih | inr o ↦ rw (o, e) ih ]
    ]

-- On a host on which no call fails, clearing succeeds, and removes what is owned and nothing else.
pub clear_host-Cleared :
    (f : Fake) (notes : Bool) (r : Reconciliation)
    → Calm f
    → Sure (Cleared f owns_interface) (clear_host fake_controller notes r f)
unfolding clear_host fake_controller list_owned_interfaces noted
clear_host-Cleared f notes r c =
    let names : List String = filter owns_interface (map (λ e. e.0) f.interfaces) in
    let start : Cleared f (λ _. false) (noted "ListOwnedInterfaces" f) = record {
      calm = noted-Calm "ListOwnedInterfaces" f c;
      left = λ m. refl;
    } in
    rw (record_call-Calm "ListOwnedInterfaces" f c, Sure, clear_host, list_owned_interfaces, ◌>>=◌)
      (Cleared-map f (λ m. any (λ n. n == m) names) owns_interface
        (remove_all fake_controller notes names r (noted "ListOwnedInterfaces" f))
        (λ m. ground (arith, any-listed m f.interfaces))
        (remove_all-Cleared f notes names (λ _. false) r (noted "ListOwnedInterfaces" f)
          (All-owns_interface f.interfaces) start))
