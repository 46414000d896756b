-- ===== src/Pcap/Http.antt =====
-- `_parse_http_request` of src/pcap_flow.py, over bytes. ISO-8859-1 takes each byte for a character, so
-- the text operations on the decoded headers are here operations on the same numbers.
use text.Mathlib.Text.{starts_with}
use team_c_edr.Base.{
  ℕ, ◌+◌, Bool, true, false, not, ◌&&◌, ◌||◌, String, ◌<>◌, Option, none, some, List, [], ◌∷◌, ◌++◌,
  map, leb, ◌==◌, if◌then◌else◌,
}
use team_c_edr.Pcap.{bytes_eq}

-- `bs.decode("utf-8", errors="replace")` and `bs.decode("iso-8859-1")`
pub record Decoders : Type 0 where
  pub utf8 : List ℕ → String
  pub latin1 : List ℕ → String

-- The byte is put in front of the first part.
abbrev onto_first : ℕ → List (List ℕ) → List (List ℕ)
onto_first b [] = (b ∷ []) ∷ []
onto_first b (part ∷ parts) = (b ∷ part) ∷ parts

-- `bs.split(b"\r\n")`
unfoldable pub split_crlf : List ℕ → List (List ℕ)
split_crlf [] = [] ∷ []
split_crlf (b ∷ []) = (b ∷ []) ∷ []
split_crlf (b ∷ c ∷ bs) =
    if b == 13 && c == 10 then [] ∷ split_crlf bs else onto_first b (split_crlf (c ∷ bs))

abbrev is_ascii_space : ℕ → Bool
is_ascii_space b = (leb 9 b && leb b 13) || b == 32

abbrev add_word : List ℕ → List (List ℕ) → List (List ℕ)
add_word [] words = words
add_word (b ∷ bs) words = (b ∷ bs) ∷ words

-- `bs.split()`; `word` is what was read of the word.
unfoldable pub words : List ℕ → List ℕ → List (List ℕ)
words word [] = add_word word []
words word (b ∷ bs) =
    if is_ascii_space b then add_word word (words [] bs) else words (word ++ (b ∷ [])) bs

-- `HTTP_METHODS`, each with the text that it decodes to.
abbrev http_methods : List (List ℕ × String)
http_methods =
    ((71 ∷ 69 ∷ 84 ∷ []), "GET")
    ∷ ((80 ∷ 79 ∷ 83 ∷ 84 ∷ []), "POST")
    ∷ ((80 ∷ 85 ∷ 84 ∷ []), "PUT")
    ∷ ((68 ∷ 69 ∷ 76 ∷ 69 ∷ 84 ∷ 69 ∷ []), "DELETE")
    ∷ ((80 ∷ 65 ∷ 84 ∷ 67 ∷ 72 ∷ []), "PATCH")
    ∷ ((72 ∷ 69 ∷ 65 ∷ 68 ∷ []), "HEAD")
    ∷ ((79 ∷ 80 ∷ 84 ∷ 73 ∷ 79 ∷ 78 ∷ 83 ∷ []), "OPTIONS")
    ∷ []

unfoldable method_in : List (List ℕ × String) → List ℕ → Option String
unfolding bytes_eq
method_in [] bs = none
method_in (m ∷ ms) bs = if bytes_eq m.0 bs then some m.1 else method_in ms bs

-- `s.lower()` of a character below 256.
abbrev lower_char : ℕ → ℕ
lower_char c =
    if (leb 65 c && leb c 90) || (leb 192 c && leb c 222 && not (c == 215)) then c + 32 else c

unfoldable pub lower : List ℕ → List ℕ
lower s = map lower_char s

-- White space of a text, below 256.
abbrev is_space : ℕ → Bool
is_space c = (leb 9 c && leb c 13) || (leb 28 c && leb c 32) || c == 133 || c == 160

-- `s.strip()`
unfoldable strip_left : List ℕ → List ℕ
strip_left [] = []
strip_left (c ∷ s) = if is_space c then strip_left s else c ∷ s

abbrev keep_last : ℕ → List ℕ → List ℕ
keep_last c [] = if is_space c then [] else c ∷ []
keep_last c (d ∷ s) = c ∷ d ∷ s

unfoldable strip_right : List ℕ → List ℕ
strip_right [] = []
strip_right (c ∷ s) = keep_last c (strip_right s)

unfoldable pub strip : List ℕ → List ℕ
unfolding strip_left strip_right
strip s = strip_right (strip_left s)

-- `s.split(":", 1)[1]` of a text with a colon.
unfoldable pub after_colon : List ℕ → List ℕ
after_colon [] = []
after_colon (c ∷ s) = if c == 58 then s else after_colon s

unfoldable pub has_prefix : List ℕ → List ℕ → Bool
has_prefix [] s = true
has_prefix (c ∷ prefix) [] = false
has_prefix (c ∷ prefix) (d ∷ s) = c == d && has_prefix prefix s

-- The host of the first `Host` header.
unfoldable pub host_of : List (List ℕ) → List ℕ
unfolding has_prefix lower strip after_colon
host_of [] = []
host_of (line ∷ lines) =
    if has_prefix (104 ∷ 111 ∷ 115 ∷ 116 ∷ 58 ∷ []) (lower line)
    then lower (strip (after_colon line))
    else host_of lines

abbrev first_line : List (List ℕ) → List ℕ
first_line [] = []
first_line (line ∷ lines) = line

abbrev later_lines : List (List ℕ) → List (List ℕ)
later_lines [] = []
later_lines (line ∷ lines) = lines

abbrev is_empty : List ℕ → Bool
is_empty [] = true
is_empty (c ∷ s) = false

pub record Request : Type 0 where
  pub method : String
  pub path : String
  pub host : String
  pub url : String

unfoldable pub request : Decoders → String → List ℕ → List ℕ → Request
request d method path_bytes host_chars =
    let path : String = d.utf8 path_bytes in
    let host : String = d.latin1 host_chars in
    record {
      method = method;
      path = path;
      host = host;
      url =
          if not (is_empty host_chars) && starts_with path "/"
          then "http://" <> (host <> path)
          else path;
    }

-- The method and the path of a request line.
unfoldable pub request_line : List (List ℕ) → Option (String × List ℕ)
unfolding method_in
request_line [] = none
request_line (method ∷ []) = none
request_line (method ∷ path ∷ parts) = elim (method_in http_methods method) [
  | none ↦ none
  | some text ↦ some (text, path)
]

unfoldable pub parse_http_request : Decoders → List ℕ → Option Request
unfolding split_crlf words request_line request host_of
parse_http_request d [] = none
parse_http_request d (b ∷ payload) =
    let lines : List (List ℕ) = split_crlf (b ∷ payload) in
    elim (request_line (words [] (first_line lines))) [
      | none ↦ none
      | some line ↦ some (request d line.0 line.1 (host_of (later_lines lines)))
    ]
