-- ===== src/Transport/IoUring/Pool.antt =====
-- src/network_interfaces/iouring_interface.cpp: the datagrams that are sent against those that were written.
use mathlib.Core.Path.{subst}
use mathlib.Core.List.{Perm}
use mathlib.Core.List.Perm
use av_hil_validation_platfo.Base.Lists.{
  All, length, get_or, set, take, drop, length-set, take-append, get_or-set, get_or-set_ne,
}
use av_hil_validation_platfo.Base.Tests.{Option-cases, if◌then◌else◌, ltb, ltb_of_le}
use av_hil_validation_platfo.Transport.IoUring.{
  IoUringInterface, opened, copy_into, acquire_send_slot, write, contents, take_out, request_ends,
  arm_recv, complete_receive,
}
use av_hil_validation_platfo.Base.{
  Bool, List, [], ap, append-nil, append_assoc, ap₂, arith, false, inl, inr, map, none, refl, some,
  suc, sym, true, zero, ℕ, ◌%◌, ◌++◌, ◌∙◌, ◌∷◌, ◌≡◌, ◌≢◌, ◌≤◌,
}

contents_kept :
    (slots : List (List ℕ)) (next : ℕ) (buf : List ℕ) (l : List (ℕ × ℕ))
    → All (λ r. r.0 ≢ next) l
    → map (contents (set slots next buf)) l ≡ map (contents slots) l
contents_kept slots next buf [] h = refl
contents_kept slots next buf ((slot, len) ∷ rest) (ne, h) =
    ap₂ (λ (b : List ℕ) (bs : List (List ℕ)). take len b ∷ bs)
      (get_or-set_ne slots next slot buf [] ne) (contents_kept slots next buf rest h)

map-append :
    (slots : List (List ℕ)) (l : List (ℕ × ℕ)) (r : ℕ × ℕ)
    → map (contents slots) (l ++ r ∷ []) ≡ map (contents slots) l ++ contents slots r ∷ []
map-append slots [] r = refl
map-append slots (x ∷ l) r =
    ap (λ (bs : List (List ℕ)). contents slots x ∷ bs) (map-append slots l r)

pub data Event : Type 0 where
  written : List ℕ → Event
  ended : Bool → ℕ → Event
  received : Bool → ℕ → List ℕ → Event

abbrev pub handle : Event → IoUringInterface → IoUringInterface
handle (written bytes) i = write true bytes i
handle (ended is_sent n) i = request_ends is_sent n i
handle (received has_room slot bytes) i = complete_receive has_room slot bytes i

abbrev pub handle_all : List Event → IoUringInterface → IoUringInterface
handle_all [] i = i
handle_all (x ∷ events) i = handle_all events (handle x i)

abbrev pub all_written : List Event → List (List ℕ)
all_written [] = []
all_written (written bytes ∷ events) = bytes ∷ all_written events
all_written (_ ∷ events) = all_written events

-- Each datagram fits its buffer, and no request in flight is for the buffer that it is written to.
abbrev pub HasRoom : List Event → IoUringInterface → Type 0
HasRoom [] i = Unit
HasRoom (written bytes ∷ events) i =
    (length bytes ≤ 65536)
    × (All (λ r. r.0 ≢ i.next_send_slot % 64) i.in_flight × HasRoom events (write true bytes i))
HasRoom (ended is_sent n ∷ events) i = HasRoom events (request_ends is_sent n i)
HasRoom (received has_room slot bytes ∷ events) i =
    HasRoom events (complete_receive has_room slot bytes i)

record Inv (i : IoUringInterface) : Type 0 where
  ready_yes : i.ready ≡ true
  not_failed : i.interface_failed ≡ false
  slots : length i.send_slots ≡ 64

-- What was sent or failed, and what the requests in flight are for.
abbrev under_way : IoUringInterface → List (List ℕ)
under_way i = (i.sent ++ i.unsent) ++ map (contents i.send_slots) i.in_flight

write_lem :
    (bytes : List ℕ) (i : IoUringInterface)
    → length bytes ≤ 65536
    → All (λ r. r.0 ≢ i.next_send_slot % 64) i.in_flight
    → Inv i
    → Inv (write true bytes i) × (under_way (write true bytes i) ≡ under_way i ++ bytes ∷ [])
unfolding write acquire_send_slot
write_lem bytes i fits free inv =
    let next = i.next_send_slot % 64 in
    let buf = copy_into bytes (get_or i.send_slots next []) in
    let small : ltb 65536 (length bytes) ≡ false = ltb_of_le 65536 (length bytes) fits in
    let here : contents (set i.send_slots next buf) (next, length bytes) ≡ bytes =
      ap (take (length bytes)) (get_or-set i.send_slots next buf [] (omega (arith, inv.slots)))
      ∙ take-append bytes (drop (length bytes) (get_or i.send_slots next [])) in
    rw (inv.ready_yes, inv.not_failed, small)
      (
        record {
          ready_yes = refl;
          not_failed = refl;
          slots = length-set i.send_slots next buf ∙ inv.slots;
        },
        ap (λ (l : List (List ℕ)). (i.sent ++ i.unsent) ++ l)
              (map-append (set i.send_slots next buf) i.in_flight (next, length bytes)
                ∙ ap₂ (λ (l : List (List ℕ)) (b : List ℕ). l ++ b ∷ [])
                    (contents_kept i.send_slots next buf i.in_flight free) here)
            ∙ sym (
                append_assoc (i.sent ++ i.unsent) (map (contents i.send_slots) i.in_flight)
                  (bytes ∷ [])),
      )

take_out-perm :
    (slots : List (List ℕ)) (n : ℕ) (l : List (ℕ × ℕ)) (r : ℕ × ℕ) (others : List (ℕ × ℕ))
    → take_out n l ≡ some (r, others)
    → Perm (contents slots r ∷ map (contents slots) others) (map (contents slots) l)
take_out-perm slots n [] r others e = absurd cc
take_out-perm slots zero (x ∷ l) r others e =
    let same_request : x ≡ r = cc in
    let same_others : l ≡ others = cc in
    subst
      (λ (k : List (ℕ × ℕ)).
        Perm (contents slots r ∷ map (contents slots) k) (map (contents slots) (x ∷ l)))
      same_others
      (subst
        (λ (y : ℕ × ℕ).
          Perm (contents slots y ∷ map (contents slots) l) (map (contents slots) (x ∷ l)))
        same_request (Perm.refl _))
take_out-perm slots (suc n) (x ∷ l) r others e = elim (Option-cases (take_out n l)) [
  | inl none_there ↦ absurd (let z : none ≡ some (r, others) = rw none_there at e in cc)
  | inr ((found, rest), there) ↦
      let z : some (found, x ∷ rest) ≡ some (r, others) = rw there at e in
      let same_request : found ≡ r = cc in
      let same_others : x ∷ rest ≡ others = cc in
      let ih : Perm (contents slots r ∷ map (contents slots) rest) (map (contents slots) l) =
        take_out-perm slots n l r rest (there ∙ ap (λ (y : ℕ × ℕ). some (y, rest)) same_request) in
      subst
        (λ (k : List (ℕ × ℕ)).
          Perm (contents slots r ∷ map (contents slots) k) (map (contents slots) (x ∷ l)))
        same_others (Perm.trans (Perm.swap _ _ _) (Perm.cons (contents slots x) ih))
]

-- An element of the middle goes to the end of what is before.
moved : (a b l : List (List ℕ)) (x : List ℕ) → Perm (((a ++ x ∷ []) ++ b) ++ l) ((a ++ b) ++ x ∷ l)
moved [] [] l x = Perm.refl _
moved [] (y ∷ b) l x = Perm.trans (Perm.swap _ _ _) (Perm.cons y (moved [] b l x))
moved (y ∷ a) b l x = Perm.cons y (moved a b l x)

moved_last :
    (a b l : List (List ℕ)) (x : List ℕ) → Perm ((a ++ (b ++ x ∷ [])) ++ l) ((a ++ b) ++ x ∷ l)
moved_last [] [] l x = Perm.refl _
moved_last [] (y ∷ b) l x = Perm.cons y (moved_last [] b l x)
moved_last (y ∷ a) b l x = Perm.cons y (moved_last a b l x)

request_ends_lem :
    (is_sent : Bool) (n : ℕ) (i : IoUringInterface)
    → Inv i
    → Inv (request_ends is_sent n i) × Perm (under_way (request_ends is_sent n i)) (under_way i)
unfolding request_ends
request_ends_lem is_sent n i inv = elim (Option-cases (take_out n i.in_flight)) [
  | inl none_there ↦ rw (none_there, request_ends) (inv, Perm.refl _)
  | inr ((r, others), there) ↦
      let same_all =
        Perm.append_left (i.sent ++ i.unsent)
          (take_out-perm i.send_slots n i.in_flight r others there) in
      rw (there, request_ends) (ends is_sent i r others inv same_all)
]
  where
    ends :
        (is_sent : Bool) (i : IoUringInterface) (r : ℕ × ℕ) (others : List (ℕ × ℕ))
        → Inv i
        → Perm
            ((i.sent ++ i.unsent) ++ contents i.send_slots r ∷ map (contents i.send_slots) others)
            (under_way i)
        → let bytes = contents i.send_slots r in
          let j : IoUringInterface =
            if is_sent
            then record i { in_flight = others; sent = i.sent ++ (bytes ∷ []) }
            else record i { in_flight = others; unsent = i.unsent ++ (bytes ∷ []) } in
          Inv j × Perm (under_way j) (under_way i)
    ends true i r others inv h = (
      record { ready_yes = inv.ready_yes; not_failed = inv.not_failed; slots = inv.slots },
      Perm.trans
          (moved i.sent i.unsent (map (contents i.send_slots) others) (contents i.send_slots r)) h,
    )
    ends false i r others inv h = (
      record { ready_yes = inv.ready_yes; not_failed = inv.not_failed; slots = inv.slots },
      Perm.trans
          (moved_last i.sent i.unsent (map (contents i.send_slots) others)
            (contents i.send_slots r))
          h,
    )

complete_receive_lem :
    (has_room : Bool) (slot : ℕ) (bytes : List ℕ) (i : IoUringInterface)
    → Inv i
    → Inv (complete_receive has_room slot bytes i)
      × (under_way (complete_receive has_room slot bytes i) ≡ under_way i)
unfolding complete_receive arm_recv
complete_receive_lem true slot [] i inv =
    (record { ready_yes = inv.ready_yes; not_failed = inv.not_failed; slots = inv.slots }, refl)
complete_receive_lem false slot [] i inv = (inv, refl)
complete_receive_lem true slot (b ∷ bytes) i inv =
    (record { ready_yes = inv.ready_yes; not_failed = inv.not_failed; slots = inv.slots }, refl)
complete_receive_lem false slot (b ∷ bytes) i inv =
    (record { ready_yes = inv.ready_yes; not_failed = inv.not_failed; slots = inv.slots }, refl)

under_way-handle_all :
    (events : List Event) (i : IoUringInterface)
    → Inv i
    → HasRoom events i
    → Perm (under_way (handle_all events i)) (under_way i ++ all_written events)
under_way-handle_all [] i inv room =
    subst (Perm (under_way i)) (sym (append-nil (under_way i))) (Perm.refl _)
under_way-handle_all (written bytes ∷ events) i inv (fits, (free, room)) =
    let (kept, e) = write_lem bytes i fits free inv in
    subst (Perm (under_way (handle_all events (write true bytes i))))
      (ap (λ (l : List (List ℕ)). l ++ all_written events) e
        ∙ append_assoc (under_way i) (bytes ∷ []) (all_written events))
      (under_way-handle_all events (write true bytes i) kept room)
under_way-handle_all (ended is_sent n ∷ events) i inv room =
    let (kept, e) = request_ends_lem is_sent n i inv in
    Perm.trans (under_way-handle_all events (request_ends is_sent n i) kept room)
      (Perm.append_right (all_written events) e)
under_way-handle_all (received has_room slot bytes ∷ events) i inv room =
    let (kept, e) = complete_receive_lem has_room slot bytes i inv in
    subst (Perm (under_way (handle_all events (complete_receive has_room slot bytes i))))
      (ap (λ (l : List (List ℕ)). l ++ all_written events) e)
      (under_way-handle_all events (complete_receive has_room slot bytes i) kept room)

opened_lem : Inv opened
opened_lem = record { ready_yes = refl; not_failed = refl; slots = refl }

-- From `open` on, if each datagram has at most 65536 bytes, no request in flight is for the buffer that a
-- `write` takes, and the submission queue has room, and in whatever order the kernel ends the
-- requests, with their bytes sent or not: the datagrams that have been sent, those that failed and
-- those of the requests in flight are the ones that were written, each once and unchanged.
pub handle_all_sent :
    (events : List Event)
    → HasRoom events opened
    → let i = handle_all events opened in
      Perm ((i.sent ++ i.unsent) ++ map (contents i.send_slots) i.in_flight) (all_written events)
handle_all_sent events room = under_way-handle_all events opened opened_lem room
