-- ===== src/Metrics/Exporter.antt =====
-- src/metrics/prometheus_exporter.cpp: how a request is read and what is answered. The sockets are left out.
pub mod Answer
use av_hil_validation_platfo.Base.Lists.{All, All-append, length, take}
use av_hil_validation_platfo.Base.Tests.{ltb, ◌==◌, Bool-cases, if◌then◌else◌, ==_self, ==_of_ne}
use av_hil_validation_platfo.Base.Text.{Text, same, codes}
use av_hil_validation_platfo.Replay.Segment.{decimal, decimal_loop}
use av_hil_validation_platfo.Metrics.Registry.{Registry, render}
use av_hil_validation_platfo.Base.{
  ℕ, zero, suc, ◌+◌, ◌/◌, ◌%◌, ◌∙◌, inl, inr, ◌≤◌, ◌≡◌, ◌≢◌, refl, ap, Bool, true, false, ◌||◌,
  Option, none, some, List, [], ◌∷◌, ◌++◌, arith,
}

abbrev pub put_in_front : ℕ → Option (Text × Text) → Option (Text × Text)
put_in_front c none = none
put_in_front c (some (s, rest)) = some (c ∷ s, rest)

-- What stands before the space that `strchr` finds in a C string, and what stands after it.
unfoldable pub until_space : Text → Option (Text × Text)
until_space [] = none
until_space (c ∷ s) =
    let rest = put_in_front c (until_space s) in
    if c == 0 then none else if c == 32 then some ([], s) else rest

abbrev pub second_word : Option (Text × Text) → Text
second_word none = codes "/"
second_word (some (path, rest)) = path

abbrev pub word_after : Option (Text × Text) → Text
word_after none = codes "/"
word_after (some (first, rest)) = second_word (until_space rest)

-- `path`, of the bytes that `recv` put into the buffer, none of them after an error.
unfoldable pub request_path : Text → Text
request_path buf = word_after (until_space buf)

abbrev pub line_end : Text
line_end = 13 ∷ 10 ∷ []

unfoldable pub response : (status ctype body : Text) → Text
response status ctype body =
    codes "HTTP/1.1 "
    ++ (status
        ++ (line_end
            ++ (codes "Content-Type: "
                ++ (ctype
                    ++ (line_end
                        ++ (codes "Content-Length: "
                            ++ (decimal (length body)
                                ++ (line_end
                                    ++ (codes "Connection: close"
                                        ++ (line_end ++ (line_end ++ body)))))))))))

abbrev pub not_found_text : Text
not_found_text = codes "not found" ++ 10 ∷ []

abbrev pub not_found : Text
not_found = response (codes "404 Not Found") (codes "text/plain") not_found_text

abbrev pub is_known : Text → Bool
is_known path = same path (codes "/metrics") || same path (codes "/")

module _ {D : Type 0} (format : D → Text) where
  abbrev pub metrics_text : Registry D → Text
  metrics_text reg =
      response (codes "200 OK") (codes "text/plain; version=0.0.4; charset=utf-8")
        (render format reg)

  -- A turn of `serve_loop` with a client: what is sent, of what the client has sent.
  unfoldable pub serve : Registry D → Text → Text
  serve reg received =
      let path = request_path (take 2047 received) in
      if is_known path then metrics_text reg else not_found
