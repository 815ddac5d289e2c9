-- ===== src/Tests/Nostr.antt =====
-- Two bytes there and back: runs of the theorems on the keys as text.
use nostmesh.Base.{ℕ, ◌≡◌, List, [], ◌∷◌, true, false, some, arith}
use nostmesh.Nostr.Bits.{convert_bits}
use nostmesh.Nostr.Roundtrip.{convert_bits-back}

convert_bits-back_example :
    (quintets : List ℕ) × ((convert_bits (255 ∷ 1 ∷ []) 8 5 true ≡ some quintets)
      × (convert_bits quintets 5 8 false ≡ some (255 ∷ 1 ∷ [])))
convert_bits-back_example = convert_bits-back (255 ∷ 1 ∷ []) (omega arith, (omega arith, tt))
