-- ===== src/Http/PieceTests.antt =====
-- The parser on requests that come in pieces.
use simple_http_server.Common.{
  ◌+◌, ◌≡◌, ◌≢◌, refl, ap, arith, Bool, true, false, none, ◌∷◌, ◌++◌, length,
}
use simple_http_server.Common.Bytes.{Bytes, codes}
use simple_http_server.Common.Outcome.{Outcome, returned}
use simple_http_server.Net.Buffer.{Buffer, find_crlf, search_two, retrieve_until}
use simple_http_server.Http.Request.{Method, Version, empty_request, set_method, add_header}
use simple_http_server.Http.Context.{
  HttpContext, expect_headers, fresh, parse_request, parse_loop, process_request_line, split_at,
}
use simple_http_server.Http.Context.Message.{crlf}
use simple_http_server.Http.Context.Text.{
  Parsed, parse_text, text_loop, move, request_line_move, headers_move,
}
use simple_http_server.Http.Context.Agreement.{Agrees, parse_request-Agrees}
use simple_http_server.Http.Context.Resumed.{seen, parse_request-append}

-- The storage of a buffer that has been read up to the byte 8, with these bytes to read.
abbrev piece : Bytes → Buffer
piece bytes = record {
  buffer = 0 ∷ 0 ∷ 0 ∷ 0 ∷ 0 ∷ 0 ∷ 0 ∷ 0 ∷ bytes;
  reader_index = 8;
  writer_index = 8 + length bytes;
}

-- The first piece ends within a header.
abbrev first_piece : Bytes
first_piece = codes "PUT / HTTP/1.1" ++ crlf (codes "Ho")

abbrev second_piece : Bytes
second_piece = codes "st:h" ++ crlf (crlf (codes "GET"))

abbrev within_headers : HttpContext
within_headers = record {
  state = expect_headers;
  request = record empty_request {
    method = Method.put;
    path = codes "/";
    version = Version.http11;
    receive_time = 9;
  };
}

abbrev first_left : Buffer
first_left = record (piece first_piece) { reader_index = 24 }

first_piece_waits :
    parse_request 9 fresh (piece first_piece) ≡ returned (true, within_headers, first_left)
unfolding parse_request parse_loop process_request_line find_crlf search_two retrieve_until
first_piece_waits = refl

abbrev is_short : Outcome Parsed → Bool
is_short (returned none) = true
is_short _ = false

both_pieces_enough : parse_text 9 fresh (first_piece ++ second_piece) ≢ returned none
unfolding parse_text text_loop move request_line_move headers_move search_two split_at
    process_request_line set_method add_header
both_pieces_enough e = let h : false ≡ true = ap is_short e in cc

parse_request-append_example :
    seen (parse_request 11 within_headers (piece (codes "Ho" ++ second_piece)))
    ≡ seen (parse_request 9 fresh (piece (first_piece ++ second_piece)))
parse_request-append_example =
    parse_request-append 9 11 fresh within_headers second_piece (piece first_piece) first_left
      (piece (codes "Ho" ++ second_piece)) (piece (first_piece ++ second_piece)) (λ e. cc)
      (omega arith) first_piece_waits (λ e. cc) (record { valid = omega arith; holds = refl })
      (record { valid = omega arith; holds = refl }) both_pieces_enough

parse_request-Agrees_example :
    Agrees
      (parse_text 9 within_headers second_piece)
      (parse_request 9 within_headers (piece second_piece))
parse_request-Agrees_example =
    parse_request-Agrees 9 within_headers second_piece (piece second_piece)
      (record { valid = omega arith; holds = refl })
