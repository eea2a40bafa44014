-- ===== src/Metrics/Exporter/Answer.antt =====
-- src/metrics/prometheus_exporter.cpp: what a client gets for its request.
use mathlib.Core.Path.{subst}
use av_hil_validation_platfo.Base.Lists.{All, All-append, length, take}
use av_hil_validation_platfo.Base.Tests.{ltb, ◌==◌, Bool-cases, if◌then◌else◌, ==_of_ne}
use av_hil_validation_platfo.Base.Text.{Text, codes, same, same_self, eq_of_same}
use av_hil_validation_platfo.Replay.Segment.{decimal, decimal_loop}
use av_hil_validation_platfo.Metrics.Registry.{Registry, render}
use av_hil_validation_platfo.Metrics.Exporter.{
  until_space, put_in_front, second_word, word_after, request_path, line_end, response,
  not_found_text, not_found, is_known, metrics_text, serve,
}
use av_hil_validation_platfo.Base.{
  ℕ, zero, suc, ◌+◌, ◌/◌, ◌%◌, ◌∙◌, inl, inr, ◌≤◌, ◌≡◌, ◌≢◌, refl, ap, Bool, true, false, Option,
  none, some, [], ◌∷◌, ◌++◌, arith,
}

-- What is answered on a path: the text of the registry on two of them, and an error on all others.
pub data Answers {D : Type 0} (format : D → Text) (reg : Registry D) (path : Text)
    : Text → Type 0 where
  on_metrics : path ≡ codes "/metrics" → Answers format reg path (render format reg)
  on_root : path ≡ codes "/" → Answers format reg path (render format reg)
  elsewhere :
      path ≢ codes "/metrics"
      → path ≢ codes "/"
      → Answers format reg path (codes "not found" ++ 10 ∷ [])

-- Without a space and a null byte.
abbrev pub IsWord : Text → Type 0
IsWord [] = Unit
IsWord (c ∷ s) = (c ≢ 0) × ((c ≢ 32) × IsWord s)

abbrev pub is_word : Text → Bool
is_word [] = true
is_word (c ∷ s) = if c == 0 then false else if c == 32 then false else is_word s

pub is_word-IsWord : (s : Text) → is_word s ≡ true → IsWord s
is_word-IsWord [] h = tt
is_word-IsWord (c ∷ s) h = (
  (λ e. absurd (ground (arith, h, e))),
  ((λ e. absurd (ground (arith, h, e))), is_word-IsWord s (ground (arith, h))),
)

until_space-word : (s rest : Text) → IsWord s → until_space (s ++ 32 ∷ rest) ≡ some (s, rest)
unfolding until_space
until_space-word [] rest w = refl
until_space-word (c ∷ s) rest (not_null, (not_space, w)) =
    rw (==_of_ne c 0 not_null, ==_of_ne c 32 not_space)
      (ap (put_in_front c) (until_space-word s rest w))

-- The path of a request is the word between its first two spaces, if the method and the path have neither
-- spaces nor null bytes.
request_path_lem :
    (method path rest : Text)
    → IsWord method
    → IsWord path
    → request_path (method ++ 32 ∷ (path ++ 32 ∷ rest)) ≡ path
unfolding request_path
request_path_lem method path rest m p =
    ap word_after (until_space-word method (path ++ 32 ∷ rest) m)
    ∙ ap second_word (until_space-word path rest p)

-- A client that reads the header line by line up to the first empty line.
pub data Reading : Type 0 where
  in_line : Reading
  line_start : Reading
  got_return : Reading
  got_empty : Reading
  finished : Reading

abbrev pub after_char : Reading → ℕ → Reading
after_char in_line c = if c == 13 then got_return else in_line
after_char line_start c = if c == 13 then got_empty else in_line
after_char got_return c = if c == 10 then line_start else in_line
after_char got_empty c = if c == 10 then finished else in_line
after_char finished c = finished

abbrev pub read_body : Reading → Text → Option Text
read_body finished s = some s
read_body in_line [] = none
read_body line_start [] = none
read_body got_return [] = none
read_body got_empty [] = none
read_body in_line (c ∷ s) = read_body (after_char in_line c) s
read_body line_start (c ∷ s) = read_body (after_char line_start c) s
read_body got_return (c ∷ s) = read_body (after_char got_return c) s
read_body got_empty (c ∷ s) = read_body (after_char got_empty c) s

abbrev NoReturn : Text → Type 0
NoReturn = All (λ c. c ≢ 13)

read_body-append : (w s : Text) → NoReturn w → read_body in_line (w ++ s) ≡ read_body in_line s
read_body-append [] s h = refl
read_body-append (c ∷ w) s (ne, h) =
    ap (λ (t : Bool). read_body (if t then got_return else in_line) (w ++ s)) (==_of_ne c 13 ne)
    ∙ read_body-append w s h

abbrev has_no_return : Text → Bool
has_no_return [] = true
has_no_return (c ∷ s) = if c == 13 then false else has_no_return s

has_no_return-NoReturn : (s : Text) → has_no_return s ≡ true → NoReturn s
has_no_return-NoReturn [] h = tt
has_no_return-NoReturn (c ∷ s) h =
    ((λ e. absurd (ground (arith, h, e))), has_no_return-NoReturn s (ground (arith, h)))

decimal_loop-NoReturn : (fuel n : ℕ) → NoReturn (decimal_loop fuel n)
unfolding decimal_loop
decimal_loop-NoReturn zero n = tt
decimal_loop-NoReturn (suc fuel) n = elim (Bool-cases (ltb n 10)) [
  | inl small ↦ rw small ((λ e. absurd (omega (arith, e))), tt)
  | inr big ↦ rw big (
      All-append (λ c. c ≢ 13) (decimal_loop fuel (n / 10)) ((48 + n % 10) ∷ [])
        (decimal_loop-NoReturn fuel (n / 10)) ((λ e. absurd (omega (arith, e))), tt))
]

-- A client that reads the lines of a response up to the first empty one gets the body after it, if neither
-- the status nor the type has a carriage return.
read_body-response :
    (status ctype body : Text)
    → NoReturn status
    → NoReturn ctype
    → read_body in_line (response status ctype body) ≡ some body
unfolding response
read_body-response status ctype body s t =
    read_body-append status (line_end ++ after_status ctype body) s
    ∙ read_body-append ctype (line_end ++ after_type body) t
    ∙ read_body-append (decimal (length body))
        (line_end ++ (codes "Connection: close" ++ (line_end ++ (line_end ++ body))))
        (decimal_loop-NoReturn (suc (length body)) (length body))
  where
    after_type : Text → Text
    after_type body =
        codes "Content-Length: "
        ++ (decimal (length body)
            ++ (line_end ++ (codes "Connection: close" ++ (line_end ++ (line_end ++ body)))))

    after_status : Text → Text → Text
    after_status ctype body = codes "Content-Type: " ++ (ctype ++ (line_end ++ after_type body))

take_long : (n : ℕ) (s : Text) → length s ≤ n → take n s ≡ s
take_long zero [] h = refl
take_long (suc n) [] h = refl
take_long zero (c ∷ s) h = absurd (omega (arith, h))
take_long (suc n) (c ∷ s) h = ap (λ (t : Text). c ∷ t) (take_long n s (omega (arith, h)))

answer-body :
    {D : Type 0} (format : D → Text) (reg : Registry D) (known : Bool)
    → read_body in_line (if known then metrics_text format reg else not_found)
      ≡ some (if known then render format reg else codes "not found" ++ 10 ∷ [])
answer-body format reg true =
    read_body-response (codes "200 OK") (codes "text/plain; version=0.0.4; charset=utf-8")
      (render format reg) (has_no_return-NoReturn (codes "200 OK") refl)
      (has_no_return-NoReturn (codes "text/plain; version=0.0.4; charset=utf-8") refl)
answer-body format reg false =
    read_body-response (codes "404 Not Found") (codes "text/plain") not_found_text
      (has_no_return-NoReturn (codes "404 Not Found") refl)
      (has_no_return-NoReturn (codes "text/plain") refl)

other_of_not_same : (s t : Text) → same s t ≡ false → s ≢ t
other_of_not_same s t h e =
    absurd (ground (arith, h, subst (λ (w : Text). same s w ≡ true) e (same_self s)))

is_known-Answers :
    {D : Type 0} (format : D → Text) (reg : Registry D) (path : Text)
    → Answers format reg path
        (if is_known path then render format reg else codes "not found" ++ 10 ∷ [])
is_known-Answers format reg path = elim (Bool-cases (same path (codes "/metrics"))) [
  | inl e ↦ rw e (on_metrics (eq_of_same path (codes "/metrics") e))
  | inr e ↦ elim (Bool-cases (same path (codes "/"))) [
    | inl g ↦ rw (e, g) (on_root (eq_of_same path (codes "/") g))
    | inr g ↦
        rw (e, g)
          (elsewhere (other_of_not_same path (codes "/metrics") e)
            (other_of_not_same path (codes "/") g))
  ]
]

-- A client whose request has at most 2047 bytes, and begins with a method and a path without spaces and null
-- bytes, each with a space after it, and that reads the lines of the answer up to the first empty one, gets
-- the text of the registry after it if the path is /metrics or /, and else the text "not found".
pub serve-read_body :
    {D : Type 0} (format : D → Text) (reg : Registry D) (method path rest : Text)
    → length (method ++ 32 ∷ (path ++ 32 ∷ rest)) ≤ 2047
    → IsWord method
    → IsWord path
    → (body : Text) × Answers format reg path body
      × (read_body in_line (serve format reg (method ++ 32 ∷ (path ++ 32 ∷ rest))) ≡ some body)
unfolding serve
serve-read_body format reg method path rest fits m p =
    let request = method ++ 32 ∷ (path ++ 32 ∷ rest) in
    let found : request_path (take 2047 request) ≡ path =
      ap request_path (take_long 2047 request fits) ∙ request_path_lem method path rest m p in
    let answered =
      ap
        (λ (w : Text).
          read_body in_line (if is_known w then metrics_text format reg else not_found))
        found
      ∙ answer-body format reg (is_known path) in
    (_, is_known-Answers format reg path, answered)
