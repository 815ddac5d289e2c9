-- ===== src/Wireguard/Memory.antt =====
-- The host in memory keeps to the laws of the port (internal/wireguard/fake.go).
use nostmesh.Base.{
  String, string_eq, ◌⊎◌, ◌≡◌, ◌≢◌, refl, ap, Bool, true, List, [], ◌∷◌, some, arith, Option-cases,
  inl, inr, Bool-cases, Eq,
}
use nostmesh.Base.Map.{lookup, insert, delete, has, lookup-insert, lookup-delete}
use nostmesh.Base.Outcome.{Outcome, ok, err, final}
use nostmesh.Net.{Prefix}
use nostmesh.Session.Types.{WireGuardKey}
use nostmesh.Wireguard.Port.{Error, InterfaceSpec, PeerSpec, InterfaceState, owns_interface}
use nostmesh.Wireguard.Fake.{
  Fake, record_call, ensure_interface, apply_peer, remove_peer, observe_interface, remove_interface,
  add_route, remove_route, has_route, fake_controller,
}
use nostmesh.Wireguard.Laws.{Confined, KeepsInterface}

module _ {K V : Type 0} ⦃e : Eq K⦄ where
  pub delete-insert : (k : K) (v : V) (m : List (K × V)) → delete k (insert k v m) ≡ delete k m
  delete-insert k v [] = ground (arith, e.beq_iff k k)
  delete-insert k v ((j, w) ∷ m) = ground (arith, e.beq_iff k k, e.beq_iff j k, delete-insert k v m)

  -- Two maps agree but for one key.
  pub delete_present : (k : K) (v : V) (m : List (K × V)) → lookup k m ≡ some v → delete k m ≢ m
  delete_present k v m h p = ground (arith, e.beq_iff k k, lookup-delete k k m, ap (lookup k) p)

-- The interfaces and the routes of the host in memory.
abbrev pub carried : Fake → List (String × InterfaceState) × List (String × List (Prefix × Bool))
carried f = (f.interfaces, f.routes)

record_call-carried : (m : String) (f : Fake) → carried (final (record_call m f)) ≡ carried f
unfolding record_call
record_call-carried m f = ground arith

abbrev pub without_interface :
    String
    → List (String × InterfaceState) × List (String × List (Prefix × Bool))
    → List (String × InterfaceState) × List (String × List (Prefix × Bool))
without_interface n (is, rs) = (delete n is, delete n rs)

-- A call notes itself and then either fails or goes on with the same host.
record_call-cases :
    (m : String) (f : Fake)
    → ((e : Error) × (g : Fake) × (record_call m f ≡ err e g) × (carried g ≡ carried f))
      ⊎ ((g : Fake) × (record_call m f ≡ ok tt g) × (carried g ≡ carried f))
record_call-cases m f = go (record_call m f) refl
  where
    go :
        (o : Outcome Fake Error (Unit {0}))
        → record_call m f ≡ o
        → ((e : Error) × (g : Fake) × (record_call m f ≡ err e g) × (carried g ≡ carried f))
          ⊎ ((g : Fake) × (record_call m f ≡ ok tt g) × (carried g ≡ carried f))
    go (err e g) h = inl (e, g, h, ground (arith, record_call-carried m f))
    go (ok _ g) h = inr (g, h, ground (arith, record_call-carried m f))

pub ensure-confined :
    (spec : InterfaceSpec) (f : Fake)
    → without_interface spec.name (carried (final (ensure_interface spec f)))
      ≡ without_interface spec.name (carried f)
unfolding ensure_interface
ensure-confined spec f = elim (record_call-cases "EnsureInterface" f) [
  | inl (e, g, h, c) ↦ ground arith
  | inr (g, h, c) ↦ elim (Bool-cases (owns_interface spec.name)) [
    | inr o ↦ ground arith
    | inl o ↦ grind (arith, delete-insert)
  ]
]

pub apply_peer-confined :
    (n : String) (spec : PeerSpec) (f : Fake)
    → without_interface n (carried (final (apply_peer n spec f))) ≡ without_interface n (carried f)
unfolding apply_peer
apply_peer-confined n spec f = elim (record_call-cases "ApplyPeer" f) [
  | inl (e, g, h, c) ↦ ground arith
  | inr (g, h, c) ↦ elim (Option-cases (lookup n g.interfaces)) [
    | inl x ↦ ground arith
    | inr (i, x) ↦ grind (arith, delete-insert)
  ]
]

pub remove_peer-confined :
    (n : String) (key : WireGuardKey) (f : Fake)
    → without_interface n (carried (final (remove_peer n key f))) ≡ without_interface n (carried f)
unfolding remove_peer
remove_peer-confined n key f = elim (record_call-cases "RemovePeer" f) [
  | inl (e, g, h, c) ↦ ground arith
  | inr (g, h, c) ↦ elim (Option-cases (lookup n g.interfaces)) [
    | inl x ↦ ground arith
    | inr (i, x) ↦ grind (arith, delete-insert)
  ]
]

pub add_route-confined :
    (n : String) (p : Prefix) (f : Fake)
    → without_interface n (carried (final (add_route n p f))) ≡ without_interface n (carried f)
unfolding add_route
add_route-confined n p f = elim (record_call-cases "AddRoute" f) [
  | inl (e, g, h, c) ↦ ground arith
  | inr (g, h, c) ↦ grind (arith, delete-insert)
]

pub remove_route-confined :
    (n : String) (p : Prefix) (f : Fake)
    → without_interface n (carried (final (remove_route n p f))) ≡ without_interface n (carried f)
unfolding remove_route
remove_route-confined n p f = elim (record_call-cases "RemoveRoute" f) [
  | inl (e, g, h, c) ↦ ground arith
  | inr (g, h, c) ↦ elim (Option-cases (lookup n g.routes)) [
    | inl x ↦ ground arith
    | inr (rs, x) ↦ grind (arith, delete-insert)
  ]
]

delete_again {ℓ} :
    {K : Type 0} {V : Type ℓ} ⦃e : Eq K⦄ (k : K) (m : List (K × V))
    → delete k (delete k m) ≡ delete k m
delete_again k [] = refl
delete_again ⦃e⦄ k ((j, w) ∷ m) = ground (arith, delete_again k m)

pub remove_interface-confined :
    (n : String) (f : Fake)
    → without_interface n (carried (final (remove_interface n f))) ≡ without_interface n (carried f)
unfolding remove_interface
remove_interface-confined n f = elim (record_call-cases "RemoveInterface" f) [
  | inl (e, g, h, c) ↦ ground arith
  | inr (g, h, c) ↦ ground (arith, delete_again n g.interfaces, delete_again n g.routes)
]

pub remove_interface-gone :
    (n : String) (f g : Fake)
    → remove_interface n f ≡ ok tt g
    → carried g ≡ without_interface n (carried f)
unfolding remove_interface
remove_interface-gone n f g t = elim (record_call-cases "RemoveInterface" f) [
  | inl (e, h, r, c) ↦ absurd (ground arith)
  | inr (h, r, c) ↦ ground arith
]

pub observe-looks : (n : String) (f : Fake) → carried (final (observe_interface n f)) ≡ carried f
unfolding observe_interface
observe-looks n f = elim (record_call-cases "ObserveInterface" f) [
  | inl (e, h, r, c) ↦ ground arith
  | inr (h, r, c) ↦ ground arith
]

pub observe-absent :
    (n : String) (f g : Fake) (i : InterfaceState)
    → without_interface n (carried f) ≡ carried f
    → observe_interface n f ≢ ok i g
unfolding observe_interface
observe-absent n f g i a t = elim (record_call-cases "ObserveInterface" f) [
  | inl (e, h, r, c) ↦ absurd (ground arith)
  | inr (h, r, c) ↦ elim (Option-cases (lookup n h.interfaces)) [
    | inl x ↦ absurd (ground arith)
    | inr (j, x) ↦ delete_present n j h.interfaces x (ground arith)
  ]
]

pub has_route-looks :
    (n : String) (p : Prefix) (f : Fake) → carried (final (has_route n p f)) ≡ carried f
unfolding has_route
has_route-looks n p f = elim (record_call-cases "HasRoute" f) [
  | inl (e, h, r, c) ↦ ground arith
  | inr (h, r, c) ↦ ground arith
]

unfoldable pub fake_confined : Confined fake_controller
unfolding fake_controller
fake_confined = record {
  View = List (String × InterfaceState) × List (String × List (Prefix × Bool));
  view = carried;
  without = without_interface;
  ensure_confined = ensure-confined;
  apply_peer_confined = apply_peer-confined;
  remove_peer_confined = remove_peer-confined;
  add_route_confined = add_route-confined;
  remove_route_confined = remove_route-confined;
  remove_interface_confined = remove_interface-confined;
  remove_interface_gone = remove_interface-gone;
  observe_looks = observe-looks;
  observe_absent = observe-absent;
  has_route_looks = has_route-looks;
}

has-insert {ℓ} :
    {V : Type ℓ} (k n : String) (x : V) (m : List (String × V))
    → has n m ≡ true
    → has n (insert k x m) ≡ true
has-insert k n x m h = ground (arith, lookup-insert k n x m)

abbrev pub Carries : String → Fake → Type 0
Carries n f = has n f.interfaces ≡ true

pub fake_keeps : (n : String) → KeepsInterface fake_controller n (Carries n)
unfolding fake_controller ensure_interface apply_peer remove_peer add_route remove_route
fake_keeps n = record {
  ensure_keeps = λ spec f e h. elim (record_call-cases "EnsureInterface" f) [
    | inl (x, g, r, c) ↦ ground arith
    | inr (g, r, c) ↦ grind (arith, has-insert)
  ];
  apply_peer_keeps = λ spec f h. elim (record_call-cases "ApplyPeer" f) [
    | inl (x, g, r, c) ↦ ground arith
    | inr (g, r, c) ↦ grind (arith, string_eq.beq_iff n n, lookup-insert)
  ];
  remove_peer_keeps = λ key f h. elim (record_call-cases "RemovePeer" f) [
    | inl (x, g, r, c) ↦ ground arith
    | inr (g, r, c) ↦ grind (arith, string_eq.beq_iff n n, lookup-insert)
  ];
  add_route_keeps = λ p f h. elim (record_call-cases "AddRoute" f) [
    | inl (x, g, r, c) ↦ ground arith
    | inr (g, r, c) ↦ ground arith
  ];
  remove_route_keeps = λ p f h. elim (record_call-cases "RemoveRoute" f) [
    | inl (x, g, r, c) ↦ ground arith
    | inr (g, r, c) ↦ ground arith
  ];
}
