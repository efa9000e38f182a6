-- ===== src/Index/VByte/Delta.antt =====
-- `encodeDeltaList` and `decodeDeltaList`: a round trip for every list of 32-bit locations.
use search_engines.Base.{
  >>=-eq-some, ◌≡◌, suc, ℕ, refl, List, [], ◌∷◌, ◌++◌, append_assoc, some, length, All, arith, ◌<◌,
  ◌^◌, ◌-◌, ◌+◌, ◌≤◌,
}
use search_engines.Index.VByte.{
  IsU32, add32, sub32, encode, encode_deltas, encode_delta_list, decode_deltas, decode_delta_list,
  decode,
}
use search_engines.Index.VByte.Decode.{decode-encode}

pub sub32-IsU32 : (a b : ℕ) → IsU32 (sub32 a b)
unfolding sub32
sub32-IsU32 a b = omega arith

pub add32-sub32 : (a b : ℕ) → IsU32 a → IsU32 b → add32 b (sub32 a b) ≡ a
unfolding add32 sub32
add32-sub32 a b h k = omega arith

decode_deltas-encode_deltas :
    (locations : List ℕ) (prev : ℕ) (rest : List ℕ)
    → IsU32 prev
    → All IsU32 locations
    → decode_deltas (length locations) (encode_deltas prev locations ++ rest) prev ≡ some locations
unfolding decode_deltas encode_deltas
decode_deltas-encode_deltas [] prev rest hp h = refl
decode_deltas-encode_deltas (loc ∷ locations) prev rest hp h = rw (
  append_assoc (encode (sub32 loc prev)) (encode_deltas loc locations) rest,
  decode-encode (sub32 loc prev) (encode_deltas loc locations ++ rest) (sub32-IsU32 loc prev),
  add32-sub32 loc prev h.0 hp,
  decode_deltas-encode_deltas locations loc rest h.0 h.1,
)

-- `decodeDeltaList` returns exactly the 32-bit locations that `encodeDeltaList` was given, sorted
-- or not, whatever bytes follow the encoding.
pub decode_delta_list-encode_delta_list :
    (locations rest : List ℕ)
    → All IsU32 locations
    → decode_delta_list (encode_delta_list locations ++ rest) (length locations) ≡ some locations
unfolding decode_delta_list encode_delta_list
decode_delta_list-encode_delta_list locations rest h =
    decode_deltas-encode_deltas locations 0 rest (omega arith) h

-- Inversion: a list that decodes to `l ∷ later` begins with the difference to `l`.
pub decode_deltas_head :
    (n : ℕ) (ptr : List ℕ) (prev l : ℕ) (later : List ℕ)
    → decode_deltas (suc n) ptr prev ≡ some (l ∷ later)
    → (delta : ℕ) × (rest : List ℕ) × (decode ptr ≡ some (delta, rest))
      × (add32 prev delta ≡ l)
      × (decode_deltas n rest l ≡ some later)
unfolding decode_deltas
decode_deltas_head n ptr prev l later h =
    let ((delta, rest), e, h') = >>=-eq-some (decode ptr) _ h in
    let (locations, e', h'') = >>=-eq-some (decode_deltas n rest (add32 prev delta)) _ h' in
    let here : add32 prev delta ≡ l = cc in (delta, rest, e, here, rw (← here) (cc))

pub add32-one : (n : ℕ) → n < 2 ^ 32 - 1 → add32 n 1 ≡ n + 1
unfolding add32
add32-one n h = omega arith

pub add32-exact : (a b : ℕ) → a + b ≤ 2 ^ 32 - 1 → add32 a b ≡ a + b
unfolding add32
add32-exact a b h = omega arith
