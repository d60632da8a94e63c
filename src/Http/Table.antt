-- ===== src/Http/Table.antt =====
-- What a request leaves in the Lua table of src/http/http_parser_lua.c.
use grt.Base.{ℕ, ◌≡◌, Option, none, some, List, [], ◌∷◌, ◌++◌, if◌then◌else◌, length}
use grt.Base.Run.{Run, ok}
use grt.Socket.{Byte}
use grt.Http.{
  same_bytes, Entries, put_head, entries, Result, HttpEvent, on_message_begin, on_headers_complete,
  on_message_complete, on_url, on_header_field, on_header_value, on_body, HttpParser,
}

-- The callbacks of a list of events, each of which returns 0.
abbrev pub Runs :
    (HttpEvent → Result → Run (ℕ × Result)) → List HttpEvent → Result → Result → Type 0
Runs cb [] t t' = t ≡ t'
Runs cb (e ∷ es) t t' = (u : Result) × (cb e t ≡ ok (0, u)) × Runs cb es u t'

-- What is documented of http_parser_execute: the callbacks are called in the order of
-- what the bytes hold; when all return 0, all bytes are taken.
pub record ExecuteLaw {P : Type 0} (lib : HttpParser P) (seen : P → List Byte → List HttpEvent)
    : Type 0 where
  pub executes :
      (cb : HttpEvent → Result → Run (ℕ × Result)) (p : P) (text : List Byte) (t t' : Result)
      → Runs cb (seen p text) t t'
      → (p' : P) × (lib.http_parser_execute cb p text t ≡ ok (length text, p', t'))

-- The events of a request whose strings come in one piece each.
abbrev pub header_events : Entries → List HttpEvent
header_events [] = []
header_events ((f, v) ∷ kvs) = on_header_field f ∷ on_header_value v ∷ header_events kvs

abbrev pub body_events : Option (List Byte) → List HttpEvent
body_events none = []
body_events (some b) = on_body b ∷ []

abbrev pub request : List Byte → Entries → Option (List Byte) → List HttpEvent
request url kvs body =
    on_message_begin
    ∷ on_url url
    ∷ (header_events kvs ++ on_headers_complete ∷ (body_events body ++ on_message_complete ∷ []))

-- the last value of a field, else `old`
abbrev pub last_value : Entries → List Byte → Option (List Byte) → Option (List Byte)
last_value [] k old = old
last_value ((f, v) ∷ kvs) k old = last_value kvs k (if same_bytes f k then some v else old)

-- The table behind some headers.
abbrev with_headers : Result → Entries → Result
with_headers t [] = t
with_headers t ((f, v) ∷ kvs) =
    with_headers (record t { head = some (put_head (entries t.head) f v); last_field = none }) kvs

-- `new` is `old` but for the headers.
record Kept (old new : Result) : Type 0 where
  url : new.url ≡ old.url
  last_field : old.last_field ≡ none → new.last_field ≡ none

-- the field of the body
abbrev pub body_field : Option (List Byte) → Option (List Byte) → Option (List Byte)
body_field none old = old
body_field (some b) old = some b
