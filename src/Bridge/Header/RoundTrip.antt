-- ===== src/Bridge/Header/RoundTrip.antt =====
-- src/network_bridge.cpp: `parse_header` on what `create_header` makes, and on any bytes.
use mathlib.Core.List.{append_assoc}
use av_hil_validation_platfo.Base.Lists.{
  length, length-append, get_or, take, drop, get_or-append_right, take-append, drop-append,
}
use av_hil_validation_platfo.Base.Tests.{ltb_of_le, leb_of_lt, ==_of_ne}
use av_hil_validation_platfo.Base.Text.{Text}
use av_hil_validation_platfo.Bridge.Header.{create_header, find_null, parse_header}
use av_hil_validation_platfo.Base.{
  ℕ, zero, suc, ◌+◌, ◌-◌, ◌≤◌, ◌<◌, ◌≡◌, ◌≢◌, refl, ap, sym, ◌∙◌, List, [], ◌∷◌, ◌++◌, arith,
}

abbrev pub NoNull : Text → Type 0
NoNull [] = Unit
NoNull (c ∷ s) = (c ≢ 0) × NoNull s

find_null_lem :
    (s before after : List ℕ) (n i : ℕ)
    → NoNull s
    → i ≡ length before
    → length s < n
    → find_null n (before ++ (s ++ (0 ∷ after))) i ≡ i + length s
unfolding find_null
find_null_lem [] before after zero i h e k = absurd (omega (arith, k))
find_null_lem [] before after (suc n) i h e k =
    rw (get_or-append_right before (0 ∷ after) 0 i 0 (omega (arith, e))) (omega arith)
find_null_lem (c ∷ s) before after zero i h e k = absurd (omega (arith, k))
find_null_lem (c ∷ s) before after (suc n) i h e k =
    let here : get_or (before ++ (c ∷ (s ++ (0 ∷ after)))) i 0 ≡ c =
      get_or-append_right before (c ∷ (s ++ (0 ∷ after))) 0 i 0 (omega (arith, e)) in
    rw (here, ==_of_ne c 0 h.0)
      (ap (λ (l : List ℕ). find_null n l (i + 1))
          (sym (append_assoc before (c ∷ []) (s ++ (0 ∷ after))))
        ∙ find_null_lem s (before ++ (c ∷ [])) after n (i + 1) h.1
            (omega (arith, e, length-append before (c ∷ []))) (omega (arith, k))
        ∙ omega arith)

find_null_bounds :
    (n : ℕ) (header : List ℕ) (i : ℕ) → (i ≤ find_null n header i) × (find_null n header i ≤ i + n)
unfolding find_null
find_null_bounds zero header i = (omega arith, omega arith)
find_null_bounds (suc n) header i = ground (arith, find_null_bounds n header (i + 1))

length-take : (n : ℕ) (l : List ℕ) → n ≤ length l → length (take n l) ≡ n
length-take zero l h = refl
length-take (suc n) [] h = absurd (omega (arith, h))
length-take (suc n) (x ∷ l) h = ap suc (length-take n l (omega (arith, h)))

length-drop : (n : ℕ) (l : List ℕ) → length (drop n l) ≡ length l - n
length-drop zero l = omega arith
length-drop (suc n) [] = omega arith
length-drop (suc n) (x ∷ l) = omega (arith, length-drop n l)

-- The message that follows the header is not touched: a topic and a type without null bytes, neither
-- of them empty, come back out of the header that `create_header` makes of them, whatever the message
-- behind it and whatever the two output strings held.
pub parse_header-create_header :
    (topic msg_type topic0 type0 : Text) (message : List ℕ)
    → NoNull topic
    → NoNull msg_type
    → 0 < length topic
    → 0 < length msg_type
    → (parse_header (create_header topic msg_type ++ message) topic0 type0 ≡ (topic, msg_type))
      × (length (create_header topic msg_type) ≡ length topic + 1 + length msg_type + 1)
unfolding parse_header create_header
parse_header-create_header topic msg_type topic0 type0 message nt nm lt lm = (
  ap (λ (h : List ℕ). parse_header h topic0 type0) layout ∙ parsed,
  omega (
    arith,
    length-append topic (0 ∷ []),
    length-append (topic ++ (0 ∷ [])) msg_type,
    length-append ((topic ++ (0 ∷ [])) ++ msg_type) (0 ∷ []),
  ),
)
  where
    rest : List ℕ
    rest = msg_type ++ (0 ∷ message)

    whole : List ℕ
    whole = topic ++ (0 ∷ rest)

    layout : (((topic ++ (0 ∷ [])) ++ msg_type) ++ (0 ∷ [])) ++ message ≡ whole
    layout = simp append_assoc

    size : length whole ≡ length topic + (length msg_type + length message + 2)
    size = omega (arith, length-append topic (0 ∷ rest), length-append msg_type (0 ∷ message))

    first : find_null (length whole) whole 0 ≡ length topic
    first = find_null_lem topic [] rest (length whole) 0 nt refl (omega (arith, size)) ∙ omega arith

    split : whole ≡ (topic ++ (0 ∷ [])) ++ rest
    split = sym (append_assoc topic (0 ∷ []) rest)

    second :
        find_null (length whole - (length topic + 1)) whole (length topic + 1)
        ≡ length topic + 1 + length msg_type
    second =
        ap (λ (l : List ℕ). find_null (length whole - (length topic + 1)) l (length topic + 1))
          split
        ∙ find_null_lem msg_type (topic ++ (0 ∷ [])) message (length whole - (length topic + 1))
            (length topic + 1) nm (omega (arith, length-append topic (0 ∷ [])))
            (omega (arith, size))

    type_back :
        take
          (length topic + 1 + length msg_type - (length topic + 1))
          (drop (length topic + 1) whole)
        ≡ msg_type
    type_back =
        ap (λ (l : List ℕ). take (length topic + 1 + length msg_type - (length topic + 1)) l)
          (ap (drop (length topic + 1)) split
            ∙ drop-append (topic ++ (0 ∷ [])) rest (length topic + 1)
                (omega (arith, length-append topic (0 ∷ []))))
        ∙ ap (λ (n : ℕ). take n rest)
            (let e : length topic + 1 + length msg_type - (length topic + 1) ≡ length msg_type =
                omega arith in
              e)
        ∙ take-append msg_type (0 ∷ message)

    parsed : parse_header whole topic0 type0 ≡ (topic, msg_type)
    parsed =
        rw
          (
            ltb_of_le (length whole) 4 (omega (arith, size)),
            first,
            leb_of_lt (length whole - 1) (length topic) (omega (arith, size)),
            second,
            leb_of_lt (length whole) (length topic + 1 + length msg_type) (omega (arith, size)),
            type_back,
          )
          (ap (λ (t : Text). (t, msg_type)) (take-append topic (0 ∷ rest)))

-- Of any bytes, with both output strings empty before: if both are not empty afterwards, then the
-- topic, the type and their two null bytes lie inside the bytes.
pub parse_header_inside :
    (header : List ℕ)
    → 0 < length (parse_header header [] []).0
    → 0 < length (parse_header header [] []).1
    → length (parse_header header [] []).0 + 1 + length (parse_header header [] []).1 + 1
      ≤ length header
unfolding parse_header
parse_header_inside header a b =
    let te = find_null (length header) header 0 in
    let ty = find_null (length header - (te + 1)) header (te + 1) in
    ground (
      arith,
      find_null_bounds (length header) header 0,
      find_null_bounds (length header - (te + 1)) header (te + 1),
      length-take te header,
      length-take (ty - (te + 1)) (drop (te + 1) header),
      length-drop (te + 1) header,
    )
