-- ===== src/Nostr/Roundtrip.antt =====
-- Bytes that are regrouped to five bits come back whole.
use nostmesh.Base.{
  ℕ, ◌+◌, ◌*◌, ◌/◌, ◌%◌, ◌<◌, ◌^◌, ◌≡◌, refl, ap, ◌∙◌, Bool, true, false, List, [], ◌∷◌, ◌++◌, All,
  some, nat_eq, arith, nat_eq_iff,
}
use nostmesh.Nostr.Bits.{shifted, narrow, groups, last_group, regroup, convert_bits}

abbrev AllBytes : List ℕ → Type 0
AllBytes = All (λ v. v < 256)

-- The rest is regrouped, and what comes back follows.
record Trip (acc bits acc' bits' : ℕ) (bytes out : List ℕ) : Type 0 where
  quintets : List ℕ
  sent : regroup 8 5 true acc bits bytes ≡ some quintets
  back : regroup 5 8 false acc' bits' quintets ≡ some out

byte_fits : (v : ℕ) → v < 256 → nat_eq (v / 2 ^ 8) 0 ≡ true
byte_fits v h = (nat_eq_iff (v / 256) 0).1 (omega arith)

quintet_fits : (x : ℕ) → nat_eq (x % 2 ^ 5 / 2 ^ 5) 0 ≡ true
quintet_fits x = (nat_eq_iff (x % 32 / 32) 0).1 (omega arith)

regroup-cons :
    (from to : ℕ) (pad : Bool) (acc bits v : ℕ) (vs rest : List ℕ)
    → nat_eq (v / 2 ^ from) 0 ≡ true
    → regroup from to pad
        (shifted acc from + v)
        (groups (bits + from) to (shifted acc from + v) (bits + from)).1
        vs
      ≡ some rest
    → regroup from to pad acc bits (v ∷ vs)
      ≡ some ((groups (bits + from) to (shifted acc from + v) (bits + from)).0 ++ rest)
unfolding regroup
regroup-cons from to pad acc bits v vs rest fits later = rw (fits, later)

-- A byte that comes, and a group of five bits that comes back.
abbrev taken : ℕ → ℕ → ℕ
taken acc y = shifted acc 8 + y

abbrev given : ℕ → ℕ → ℕ
given acc q = shifted acc 5 + q

-- How many bits of the last byte have not been sent.
data Phase : Type 0 where
  none_left three_left one_left four_left two_left : Phase

abbrev held_bits : Phase → ℕ
held_bits none_left = 0
held_bits three_left = 3
held_bits one_left = 1
held_bits four_left = 4
held_bits two_left = 2

abbrev got_bits : Phase → ℕ
got_bits none_left = 0
got_bits three_left = 5
got_bits one_left = 7
got_bits four_left = 4
got_bits two_left = 6

-- The bits that were sent and those that are held are the byte.
abbrev Halves : Phase → ℕ → ℕ → ℕ → Type 0
Halves none_left acc acc' x = Unit
Halves three_left acc acc' x = acc' % 32 * 8 + acc % 8 ≡ x
Halves one_left acc acc' x = acc' % 128 * 2 + acc % 2 ≡ x
Halves four_left acc acc' x = acc' % 16 * 16 + acc % 16 ≡ x
Halves two_left acc acc' x = acc' % 64 * 4 + acc % 4 ≡ x

abbrev after : Phase → ℕ → List ℕ → List ℕ
after none_left x bytes = bytes
after three_left x bytes = x ∷ bytes
after one_left x bytes = x ∷ bytes
after four_left x bytes = x ∷ bytes
after two_left x bytes = x ∷ bytes

ends_whole :
    (acc' n : ℕ) → narrow 8 (shifted acc' n) ≡ 0 → nat_eq (narrow 8 (shifted acc' n)) 0 ≡ true
ends_whole acc' n h = (nat_eq_iff (narrow 8 (shifted acc' n)) 0).1 h

-- The last group gives back the last byte.
last_back :
    (acc' b X x : ℕ)
    → regroup 5 8 false
        (given acc' (X % 2 ^ 5))
        (groups (b + 5) 8 (given acc' (X % 2 ^ 5)) (b + 5)).1
        []
      ≡ some []
    → (groups (b + 5) 8 (given acc' (X % 2 ^ 5)) (b + 5)).0 ≡ x ∷ []
    → regroup 5 8 false acc' b (X % 2 ^ 5 ∷ []) ≡ some (x ∷ [])
last_back acc' b X x ends byte =
    regroup-cons 5 8 false acc' b (X % 2 ^ 5) [] [] (quintet_fits X) ends
    ∙ ap (λ out. some (out ++ [])) byte

-- From every phase, what is left of the last byte and all bytes that come are given back.
trip :
    (phase : Phase) (acc acc' x : ℕ) (bytes : List ℕ)
    → Halves phase acc acc' x
    → AllBytes bytes
    → Trip acc (held_bits phase) acc' (got_bits phase) bytes (after phase x bytes)
unfolding regroup groups last_group
trip none_left acc acc' x [] e b = record {
  quintets = [];
  sent = refl;
  back = rw (ends_whole acc' 8 (omega arith));
}
trip none_left acc acc' x (y ∷ bytes) e b =
    let h = taken acc y in
    let q = h / 2 ^ 3 % 2 ^ 5 in
    let r = given acc' q in
    let t = trip three_left h r y bytes (omega (arith, b.0)) b.1 in
    record {
      quintets = q ∷ t.quintets;
      sent = regroup-cons 8 5 true acc 0 y bytes t.quintets (byte_fits y b.0) t.sent;
      back =
          regroup-cons 5 8 false acc' 0 q t.quintets (y ∷ bytes) (quintet_fits (h / 2 ^ 3)) t.back;
    }
trip three_left acc acc' x [] e b =
    let q = shifted acc 2 % 2 ^ 5 in
    let r = given acc' q in
    record {
      quintets = q ∷ [];
      sent = refl;
      back =
          last_back acc' 5 (shifted acc 2) x (rw (ends_whole r 6 (omega arith)))
            (ap (λ v. v ∷ []) (omega arith));
    }
trip three_left acc acc' x (y ∷ bytes) e b =
    let h = taken acc y in
    let q = h / 2 ^ 6 % 2 ^ 5 in
    let p = h / 2 ^ 1 % 2 ^ 5 in
    let r = given acc' q in
    let t = trip one_left h (given r p) y bytes (omega (arith, b.0)) b.1 in
    record {
      quintets = q ∷ p ∷ t.quintets;
      sent = regroup-cons 8 5 true acc 3 y bytes t.quintets (byte_fits y b.0) t.sent;
      back =
          regroup-cons 5 8 false acc' 5 q (p ∷ t.quintets) (y ∷ bytes) (quintet_fits (h / 2 ^ 6))
            (regroup-cons 5 8 false r 2 p t.quintets (y ∷ bytes) (quintet_fits (h / 2 ^ 1)) t.back)
          ∙ ap (λ v. some (v ∷ y ∷ bytes)) (omega (arith, b.0));
    }
trip one_left acc acc' x [] e b =
    let q = shifted acc 4 % 2 ^ 5 in
    let r = given acc' q in
    record {
      quintets = q ∷ [];
      sent = refl;
      back =
          last_back acc' 7 (shifted acc 4) x (rw (ends_whole r 4 (omega arith)))
            (ap (λ v. v ∷ []) (omega arith));
    }
trip one_left acc acc' x (y ∷ bytes) e b =
    let h = taken acc y in
    let q = h / 2 ^ 4 % 2 ^ 5 in
    let t = trip four_left h (given acc' q) y bytes (omega (arith, b.0)) b.1 in
    record {
      quintets = q ∷ t.quintets;
      sent = regroup-cons 8 5 true acc 1 y bytes t.quintets (byte_fits y b.0) t.sent;
      back =
          regroup-cons 5 8 false acc' 7 q t.quintets (y ∷ bytes) (quintet_fits (h / 2 ^ 4)) t.back
          ∙ ap (λ v. some (v ∷ y ∷ bytes)) (omega (arith, b.0));
    }
trip four_left acc acc' x [] e b =
    let q = shifted acc 1 % 2 ^ 5 in
    let r = given acc' q in
    record {
      quintets = q ∷ [];
      sent = refl;
      back =
          last_back acc' 4 (shifted acc 1) x (rw (ends_whole r 7 (omega arith)))
            (ap (λ v. v ∷ []) (omega arith));
    }
trip four_left acc acc' x (y ∷ bytes) e b =
    let h = taken acc y in
    let q = h / 2 ^ 7 % 2 ^ 5 in
    let p = h / 2 ^ 2 % 2 ^ 5 in
    let r = given acc' q in
    let t = trip two_left h (given r p) y bytes (omega (arith, b.0)) b.1 in
    record {
      quintets = q ∷ p ∷ t.quintets;
      sent = regroup-cons 8 5 true acc 4 y bytes t.quintets (byte_fits y b.0) t.sent;
      back =
          regroup-cons 5 8 false acc' 4 q (p ∷ t.quintets) (y ∷ bytes) (quintet_fits (h / 2 ^ 7))
            (regroup-cons 5 8 false r 1 p t.quintets (y ∷ bytes) (quintet_fits (h / 2 ^ 2)) t.back)
          ∙ ap (λ v. some (v ∷ y ∷ bytes)) (omega (arith, b.0));
    }
trip two_left acc acc' x [] e b =
    let q = shifted acc 3 % 2 ^ 5 in
    let r = given acc' q in
    record {
      quintets = q ∷ [];
      sent = refl;
      back =
          last_back acc' 6 (shifted acc 3) x (rw (ends_whole r 5 (omega arith)))
            (ap (λ v. v ∷ []) (omega arith));
    }
trip two_left acc acc' x (y ∷ bytes) e b =
    let h = taken acc y in
    let q = h / 2 ^ 5 % 2 ^ 5 in
    let p = h / 2 ^ 0 % 2 ^ 5 in
    let r = given acc' q in
    let t = trip none_left h (given r p) y bytes tt b.1 in
    record {
      quintets = q ∷ p ∷ t.quintets;
      sent = regroup-cons 8 5 true acc 2 y bytes t.quintets (byte_fits y b.0) t.sent;
      back =
          regroup-cons 5 8 false acc' 6 q (p ∷ t.quintets) (y ∷ bytes) (quintet_fits (h / 2 ^ 5)) (
            regroup-cons 5 8 false r 3 p t.quintets bytes (quintet_fits (h / 2 ^ 0)) t.back
            ∙ ap (λ v. some (v ∷ bytes)) (omega (arith, b.0)))
          ∙ ap (λ v. some (v ∷ y ∷ bytes)) (omega (arith, b.0));
    }

-- Bytes that are regrouped to five bits, with padding, are regrouped back to the same bytes, without
-- padding: neither step fails.
pub convert_bits-back :
    (bytes : List ℕ)
    → AllBytes bytes
    → (quintets : List ℕ) × ((convert_bits bytes 8 5 true ≡ some quintets)
        × (convert_bits quintets 5 8 false ≡ some bytes))
unfolding convert_bits
convert_bits-back bytes b =
    let t = trip none_left 0 0 0 bytes tt b in (t.quintets, (t.sent, t.back))
