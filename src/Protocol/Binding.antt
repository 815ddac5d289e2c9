-- ===== src/Protocol/Binding.antt =====
-- What the authenticated bytes of an envelope fix.
use nostmesh.Base.{
  ℕ, ◌/◌, ◌%◌, ◌≤◌, String, ◌≡◌, refl, sym, ap, ◌∙◌, false, List, [], ◌∷◌, ◌++◌, map, length, All,
  ℤ, pos, negsuc, ltb, arith,
}
use nostmesh.Protocol.Envelope.{Envelope}
use nostmesh.Protocol.Bound.{truncated, framed, frames, bound_fields, associated_data}

-- The fields that two envelopes have in common.
pub record SameBound (e f : Envelope) : Type 0 where
  pub version : e.version ≡ f.version
  pub namespace : e.namespace ≡ f.namespace
  pub type : e.type ≡ f.type
  pub message_id : e.message_id ≡ f.message_id
  pub session_id : e.session_id ≡ f.session_id
  pub seq : e.seq ≡ f.seq
  pub created_at : e.created_at ≡ f.created_at
  pub expires_at : e.expires_at ≡ f.expires_at
  pub sender : e.sender ≡ f.sender
  pub recipient : e.recipient ≡ f.recipient
  pub critical : e.critical ≡ f.critical

module _ {A : Type 0} where
  head_or : A → List A → A
  head_or a [] = a
  head_or a (x ∷ xs) = x

  tail : List A → List A
  tail [] = []
  tail (x ∷ xs) = xs

  cons_eq : {x y : A} {xs ys : List A} → (x ∷ xs) ≡ (y ∷ ys) → (x ≡ y) × (xs ≡ ys)
  unfolding head_or tail
  cons_eq {x = x} e = (ap (λ l. head_or x l) e, ap (λ l. tail l) e)

  append_cancel : (p : List A) {xs ys : List A} → p ++ xs ≡ p ++ ys → xs ≡ ys
  append_cancel [] e = e
  append_cancel (a ∷ p) e = append_cancel p ((cons_eq e).1)

  append_split :
      (a b : List A) {xs ys : List A}
      → length a ≡ length b
      → a ++ xs ≡ b ++ ys
      → (a ≡ b) × (xs ≡ ys)
  append_split [] [] l e = (refl, e)
  append_split [] (y ∷ b) l e = absurd (omega arith)
  append_split (x ∷ a) [] l e = absurd (omega arith)
  append_split (x ∷ a) (y ∷ b) l e =
      let (h, t) = cons_eq e in let (p, q) = append_split a b (omega arith) t in (rw (h, p) refl, q)

-- A field that the two bytes of its length can tell.
abbrev pub Short : List ℕ → Type 0
Short field = length field ≤ 65_535

some_bytes : (x : List ℕ) (rest : List ℕ) → ¬ ([] ≡ framed x ++ rest)
unfolding framed
some_bytes x rest e = absurd (omega (arith, ap (λ l. length l) e))

framed-Short : (x : List ℕ) → Short x → framed x ≡ length x / 256 % 256 ∷ (length x % 256 ∷ x)
unfolding framed truncated
framed-Short x s =
    let f : ltb 65_535 (length x) ≡ false = ground (arith, s) in rw (framed, truncated, f) refl

same_length :
    (m n : ℕ) → m ≤ 65_535 → n ≤ 65_535 → m / 256 % 256 ≡ n / 256 % 256 → m % 256 ≡ n % 256 → m ≡ n
same_length m n l k h e = omega arith

framed_apart :
    (x y xs ys : List ℕ) → Short x → Short y → framed x ++ xs ≡ framed y ++ ys → (x ≡ y) × (xs ≡ ys)
framed_apart x y xs ys s t e =
    let opened : length x / 256 % 256 ∷ (length x % 256 ∷ (x ++ xs))
        ≡ length y / 256 % 256 ∷ (length y % 256 ∷ (y ++ ys)) =
      sym (ap (λ l. l ++ xs) (framed-Short x s)) ∙ e ∙ ap (λ l. l ++ ys) (framed-Short y t) in
    let (high, rest) = cons_eq opened in
    let (low, fields) = cons_eq rest in
    append_split x y (same_length (length x) (length y) s t high low) fields

frames_apart :
    (xs ys : List (List ℕ)) → All Short xs → All Short ys → frames xs ≡ frames ys → xs ≡ ys
unfolding frames
frames_apart [] [] s t e = refl
frames_apart [] (y ∷ ys) s t e = absurd (some_bytes y (frames ys) e)
frames_apart (x ∷ xs) [] s t e = absurd (some_bytes x (frames xs) (sym e))
frames_apart (x ∷ xs) (y ∷ ys) (s, ss) (t, ts) e =
    let (p, q) = framed_apart x y (frames xs) (frames ys) s t e in
    rw (p, frames_apart xs ys ss ts q) refl

map_apart :
    (f : String → List ℕ)
    → ((a b : String) → f a ≡ f b → a ≡ b)
    → (xs ys : List String) → map f xs ≡ map f ys
    → xs ≡ ys
map_apart f inj [] [] e = refl
map_apart f inj [] (y ∷ ys) e = absurd (omega (arith, ap (λ l. length l) e))
map_apart f inj (x ∷ xs) [] e = absurd (omega (arith, ap (λ l. length l) e))
map_apart f inj (x ∷ xs) (y ∷ ys) e =
    let (h, t) = cons_eq e in rw (inj x y h, map_apart f inj xs ys t) refl

module _ (bytes : String → List ℕ) (decimal : ℤ → List ℕ) where
  bound_fields_apart :
      (e f : Envelope)
      → ((a b : String) → bytes a ≡ bytes b → a ≡ b)
      → ((a b : ℤ) → decimal a ≡ decimal b → a ≡ b)
      → bound_fields bytes decimal e ≡ bound_fields bytes decimal f
      → SameBound e f
  unfolding bound_fields
  bound_fields_apart e f text number q =
      let (v, q1) = cons_eq q in
      let (n, q2) = cons_eq q1 in
      let (t, q3) = cons_eq q2 in
      let (m, q4) = cons_eq q3 in
      let (s, q5) = cons_eq q4 in
      let (i, q6) = cons_eq q5 in
      let (c, q7) = cons_eq q6 in
      let (x, q8) = cons_eq q7 in
      let (from, q9) = cons_eq q8 in
      let (to, q10) = cons_eq q9 in
      record {
        version = number e.version f.version (append_cancel (bytes "v=") v);
        namespace = text e.namespace f.namespace (append_cancel (bytes "ns=") n);
        type = text e.type f.type (append_cancel (bytes "type=") t);
        message_id = text e.message_id f.message_id (append_cancel (bytes "msg=") m);
        session_id = text e.session_id f.session_id (append_cancel (bytes "session=") s);
        seq =
            ap (λ z. elim z [ pos k ↦ k | negsuc k ↦ 0 ])
              (number (pos e.seq) (pos f.seq) (append_cancel (bytes "seq=") i));
        created_at = number e.created_at f.created_at (append_cancel (bytes "created=") c);
        expires_at = number e.expires_at f.expires_at (append_cancel (bytes "expires=") x);
        sender = text e.sender f.sender (append_cancel (bytes "from=") from);
        recipient = text e.recipient f.recipient (append_cancel (bytes "to=") to);
        critical =
            map_apart (λ a. bytes "critical=" ++ bytes a)
              (λ a b h. text a b (append_cancel (bytes "critical=") h)) e.critical f.critical q10;
      }

  -- Two envelopes of which the same bytes are authenticated agree in version, namespace, type, ids,
  -- number, times, sender, recipient and critical extensions, if no two texts and no two numbers are
  -- written alike and no field is longer than two bytes can tell.
  pub associated_data-SameBound :
      (e f : Envelope)
      → ((a b : String) → bytes a ≡ bytes b → a ≡ b)
      → ((a b : ℤ) → decimal a ≡ decimal b → a ≡ b)
      → All Short (bound_fields bytes decimal e)
      → All Short (bound_fields bytes decimal f)
      → associated_data bytes decimal e ≡ associated_data bytes decimal f
      → SameBound e f
  unfolding associated_data
  associated_data-SameBound e f text number s t q =
      bound_fields_apart e f text number
        (frames_apart (bound_fields bytes decimal e) (bound_fields bytes decimal f) s t q)
