-- ===== src/Http/Tests.antt =====
-- The functions of src/http/http_parser_lua.c under a small parser, and the theorem there.
use grt.Base.{ℕ, ◌≡◌, refl, none, some, List, [], ◌∷◌, ◌==◌, if◌then◌else◌, length}
use grt.Base.Run.{Run, ok, raised, ◌>>=◌}
use grt.Http.{HttpEvent, Result, HttpParser, on_header_value, on_url, l_parse_http}

-- A parser that is told beforehand what it will see.
run_events :
    (HttpEvent → Result → Run (ℕ × Result))
    → List HttpEvent
    → ℕ
    → Result
    → Run (ℕ × List HttpEvent × Result)
run_events cb [] n t = ok (n, [], t)
run_events cb (e ∷ es) n t =
    cb e t >>= λ (code, u). if code == 0 then run_events cb es n u else ok (0, es, u)

abbrev told : HttpParser (List HttpEvent)
told = record { http_parser_execute = λ cb p text t. run_events cb p (length text) t }

abbrev fresh : Result
fresh = record { url = none; status = none; last_field = none; head = none; body = none }

-- A value without a field, and a url in two pieces, of which the first is lost.
no_field : l_parse_http told (on_header_value (1 ∷ []) ∷ []) (0 ∷ []) fresh ≡ raised
unfolding l_parse_http run_events
no_field = refl

two_pieces :
    l_parse_http told (on_url (1 ∷ []) ∷ on_url (2 ∷ []) ∷ []) (0 ∷ []) fresh
    ≡ ok ([], record fresh { url = some (2 ∷ []) })
unfolding l_parse_http run_events
two_pieces = refl
