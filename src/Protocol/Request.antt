-- ===== src/Protocol/Request.antt =====
-- Requests and responses, as the two sides read them (bkk_uds/bkk_uds_protocol.h).
use bkk_api.Common.{
  ℕ, zero, suc, ◌-◌, ◌≤◌, Bytes, some, List, [], ◌∷◌, ◌++◌, length, replicate, min, drop, take,
  strncpy, until_zero, c_str-strncpy, length-strncpy, length-append, get_elem?-append, set-append,
  ◌≡◌, refl, ap, ◌∙◌, arith,
}
use mathlib.Core.List.{append_assoc}
use native.Mathlib.Nat.{sub-zero, min-zero, zero-min, suc-min-suc}
use bkk_api.Types.{BkkApiStatus, Arrival, zero_arrival}
use bkk_api.Protocol.{
  client_request, stop_id_of, api_key_of, request_size, bkk_uds_max_arrivals, copy_arrivals,
  make_response,
}

drop-past : (xs ys : Bytes) (c n : ℕ) → length xs ≡ n → drop (suc n) (xs ++ c ∷ ys) ≡ ys
drop-past [] ys c zero e = refl
drop-past [] ys c (suc n) e = absurd (omega arith)
drop-past (x ∷ xs) ys c zero e = absurd (omega arith)
drop-past (x ∷ xs) ys c (suc n) e = drop-past xs ys c n (omega arith)

-- The bytes of a client's request: each text, its padding, and a terminator.
client_request_lem :
    (stop_id key : Bytes)
    → client_request stop_id key ≡ strncpy 63 stop_id ++ 0 ∷ (strncpy 255 key ++ 0 ∷ [])
unfolding client_request
client_request_lem stop_id key =
    append_assoc (strncpy 63 stop_id) (0 ∷ []) (strncpy 255 key ++ 0 ∷ [])

-- A request that the client builds has the size that the server expects, and the server reads from it
-- the stop id and the key, each cut to what leaves room for its terminator.
pub client_request_read :
    (stop_id key : Bytes)
    → let request = client_request stop_id key in
      (length request ≡ request_size)
      × (stop_id_of request ≡ some (take 63 (until_zero stop_id)))
      × (api_key_of request ≡ some (take 255 (until_zero key)))
client_request_read stop_id key =
    let tail = strncpy 255 key ++ 0 ∷ [] in
    rw (client_request_lem stop_id key) (
      omega (
        arith,
        length-append (strncpy 63 stop_id) (0 ∷ tail),
        length-append (strncpy 255 key) (0 ∷ []),
        length-strncpy 63 stop_id,
        length-strncpy 255 key,
      ),
      c_str-strncpy 63 stop_id tail,
      rw (drop-past (strncpy 63 stop_id) tail 0 63 (length-strncpy 63 stop_id))
          (c_str-strncpy 255 key []),
    )

copy_arrivals-take :
    (left room : ℕ) (done rest : List Arrival)
    → left ≤ length rest
    → left ≤ room
    → copy_arrivals left (length done) (done ++ rest) (done ++ replicate room zero_arrival)
      ≡ done ++ (take left rest ++ replicate (room - left) zero_arrival)
unfolding copy_arrivals
copy_arrivals-take zero room done rest h k = rw (sub-zero room)
copy_arrivals-take (suc left) room done [] h k = absurd (omega arith)
copy_arrivals-take (suc left) zero done (a ∷ rest) h k = absurd (omega arith)
copy_arrivals-take (suc left) (suc room) done (a ∷ rest) h k =
    let done' = done ++ a ∷ [] in
    let grown : suc (length done) ≡ length done' = omega (arith, length-append done (a ∷ [])) in
    let tail = replicate room zero_arrival in
    let ih = copy_arrivals-take left room done' rest (omega arith) (omega arith) in
    let less : suc room - suc left ≡ room - left = omega arith in
    rw
      (
        get_elem?-append done a rest,
        copy_arrivals,
        set-append done zero_arrival tail a,
        grown,
        less,
        ← append_assoc done (a ∷ []) rest,
        ← append_assoc done (a ∷ []) tail,
      )
      (ih ∙ append_assoc done (a ∷ []) (take left rest ++ replicate (room - left) zero_arrival))

take-min : (n : ℕ) (l : List Arrival) → take (min (length l) n) l ≡ take n l
take-min zero [] = refl
take-min zero (a ∷ l) = rw (min-zero (suc (length l)))
take-min (suc n) [] = rw (zero-min (suc n))
take-min (suc n) (a ∷ l) = rw (suc-min-suc (length l) n) (ap (◌∷◌ a) (take-min n l))

-- A response has the status it is made for, announces as many arrivals as it is given, up to sixteen,
-- and holds just these, in order, with zeros in the rest of its sixteen places.
pub make_response_lem :
    (status : BkkApiStatus) (l : List Arrival)
    → let r = make_response status l in
      (r.status ≡ status)
      × (r.number_of_arrivals ≡ min (length l) bkk_uds_max_arrivals)
      × (r.arrivals ≡ take 16 l ++ replicate (16 - min (length l) 16) zero_arrival)
unfolding make_response
make_response_lem status l = (
  refl,
  refl,
  copy_arrivals-take (min (length l) 16) 16 [] l (omega arith) (omega arith) ∙ rw (take-min 16 l),
)
