-- ===== src/Http.antt =====
-- src/http/http_parser_lua.c: the callbacks that write what the parser sees to a Lua table. The parser, a
-- copy of another project's library, is a parameter. What is printed is left out.
pub mod Table
mod Tests
use grt.Base.{ℕ, Bool, true, false, ◌&&◌, Option, none, some, List, [], ◌∷◌, ◌==◌, if◌then◌else◌}
use grt.Base.Run.{Run, ok, raised, ◌>>=◌}
use grt.Socket.{Byte}

-- Two Lua strings are the same key.
abbrev pub same_bytes : List Byte → List Byte → Bool
same_bytes [] [] = true
same_bytes [] (y ∷ ys) = false
same_bytes (x ∷ xs) [] = false
same_bytes (x ∷ xs) (y ∷ ys) = (x == y) && same_bytes xs ys

abbrev pub Entries : Type 0
Entries = List (List Byte × List Byte)

-- `lua_rawset` and `lua_rawget` on a table of strings
abbrev pub put_head : Entries → List Byte → List Byte → Entries
put_head [] k v = (k, v) ∷ []
put_head ((l, u) ∷ es) k v = if same_bytes l k then (l, v) ∷ es else (l, u) ∷ put_head es k v

abbrev pub get_head : Entries → List Byte → Option (List Byte)
get_head [] k = none
get_head ((l, u) ∷ es) k = if same_bytes l k then some u else get_head es k

-- The fields of the table that the callbacks use; `none` is nil.
pub record Result : Type 0 where
  pub url : Option (List Byte)
  pub status : Option (List Byte)
  pub last_field : Option (List Byte)
  pub head : Option Entries
  pub body : Option (List Byte)

-- The calls of the parser.
pub data HttpEvent : Type 0 where
  on_message_begin on_headers_complete on_message_complete : HttpEvent
  on_chunk_header on_chunk_complete : HttpEvent
  on_url on_status on_header_field on_header_value on_body : List Byte → HttpEvent

-- Each callback gives the number that the parser gets, and the table.
abbrev pub message_begin_cb : Result → Run (ℕ × Result)
message_begin_cb t = ok (0, t)

abbrev pub url_cb : List Byte → Result → Run (ℕ × Result)
url_cb bytes t = ok (0, record t { url = some bytes })

abbrev pub status_cb : List Byte → Result → Run (ℕ × Result)
status_cb bytes t = ok (0, record t { status = some bytes })

abbrev pub header_field_cb : List Byte → Result → Run (ℕ × Result)
header_field_cb bytes t = ok (0, record t { last_field = some bytes })

abbrev pub entries : Option Entries → Entries
entries none = []
entries (some es) = es

-- A nil key raises an error.
unfoldable pub header_value_cb : List Byte → Result → Run (ℕ × Result)
header_value_cb bytes t = elim t.last_field [
  | none ↦ raised
  | some field ↦
      ok (0, record t { head = some (put_head (entries t.head) field bytes); last_field = none })
]

abbrev pub headers_complete_cb : Result → Run (ℕ × Result)
headers_complete_cb t = ok (0, t)

abbrev pub body_cb : List Byte → Result → Run (ℕ × Result)
body_cb bytes t = ok (0, record t { body = some bytes })

abbrev pub message_complete_cb : Result → Run (ℕ × Result)
message_complete_cb t = ok (0, t)

abbrev pub chunk_header_cb : Result → Run (ℕ × Result)
chunk_header_cb t = ok (1, t)

abbrev pub chunk_complete_cb : Result → Run (ℕ × Result)
chunk_complete_cb t = ok (1, t)

unfoldable pub settings : HttpEvent → Result → Run (ℕ × Result)
unfolding header_value_cb
settings on_message_begin t = message_begin_cb t
settings (on_url bytes) t = url_cb bytes t
settings (on_status bytes) t = status_cb bytes t
settings (on_header_field bytes) t = header_field_cb bytes t
settings (on_header_value bytes) t = header_value_cb bytes t
settings on_headers_complete t = headers_complete_cb t
settings (on_body bytes) t = body_cb bytes t
settings on_message_complete t = message_complete_cb t
settings on_chunk_header t = chunk_header_cb t
settings on_chunk_complete t = chunk_complete_cb t

-- http_parser_execute on a state of the parser, the bytes and the table: how many bytes it took, and what
-- it left of the two.
pub record HttpParser (P : Type 0) : Type 0 where
  pub http_parser_execute :
      (HttpEvent → Result → Run (ℕ × Result)) → P → List Byte → Result → Run (ℕ × P × Result)

-- Lua gets no value, whether all bytes were parsed or not.
unfoldable pub l_parse_http :
    {P : Type 0} → HttpParser P → P → List Byte → Result → Run (P × Result)
unfolding settings
l_parse_http lib parser text t =
    lib.http_parser_execute settings parser text t >>= λ (parsed, p, u). ok (p, u)
