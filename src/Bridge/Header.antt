-- ===== src/Bridge/Header.antt =====
-- src/network_bridge.cpp: the inner header of a message, `create_header` and `parse_header`.
pub mod RoundTrip
use av_hil_validation_platfo.Base.Lists.{length, get_or, take, drop}
use av_hil_validation_platfo.Base.Tests.{ltb, leb, ◌==◌, if◌then◌else◌}
use av_hil_validation_platfo.Base.Text.{Text}
use av_hil_validation_platfo.Base.{ℕ, zero, suc, ◌+◌, ◌-◌, List, [], ◌∷◌, ◌++◌}

pub create_header : Text → Text → List ℕ
create_header topic msg_type = ((topic ++ (0 ∷ [])) ++ msg_type) ++ (0 ∷ [])

-- The loop that looks for a null byte from `i` on, in the `n` bytes that are left.
unfoldable pub find_null : ℕ → List ℕ → ℕ → ℕ
find_null zero header i = i
find_null (suc n) header i =
    let later = find_null n header (i + 1) in if get_or header i 0 == 0 then i else later

-- The two output parameters, `topic` and `msg_type`, are strings that the caller made.
unfoldable pub parse_header : List ℕ → Text → Text → Text × Text
unfolding find_null
parse_header header topic msg_type =
    let size = length header in
    if ltb size 4
    then (topic, msg_type)
    else let topic_end = find_null size header 0 in
      if leb (size - 1) topic_end
      then (topic, msg_type)
      else let topic = take topic_end header in
        let type_start = topic_end + 1 in
        let type_end = find_null (size - type_start) header type_start in
        if leb size type_end
        then (topic, msg_type)
        else (topic, take (type_end - type_start) (drop type_start header))
