-- ===== src/Response/Tests.antt =====
-- Runs of responses, and the theorems at concrete inputs.
use xnetty.Prelude.{◌≡◌, refl, false, [], ◌∷◌, ◌++◌, arith}
use xnetty.Prelude.Text.{codes, text_eq}
use xnetty.Prelude.Decimal.{digits}
use xnetty.Memory.Plain.{plain}
use xnetty.Buffer.{empty}
use xnetty.Buffer.Write.{Appends}
use xnetty.Response.{
  HttpResponse, create, set_status, put_header, set_header, set_content_type, set_content_length,
  set_content, set_keep_alive, serialize, crlf,
}
use xnetty.Response.Wire.{
  line, lines, length_header, type_header, connection_header, sent_headers, wire, wire_head,
}
use xnetty.Response.Headers.{count, find}
use xnetty.Response.Serialize.{serialize-Appends}

all_open : Unit {0}
unfolding create set_status put_header set_header set_content_type set_content_length set_content
    set_keep_alive digits text_eq line lines length_header type_header connection_header
    sent_headers wire wire_head count find
all_open = tt

abbrev hello : HttpResponse
hello = record {
  status = record { code = 404; reason = codes "Not Found" };
  headers = (codes "X", codes "y") ∷ [];
  body = codes "hello, all";
  status_line = codes "HTTP/1.1 404 Not Found" ++ crlf;
  keep_alive = false;
  content_length_set = false;
  content_type_set = false;
  connection_set = false;
}

hello_built :
    set_keep_alive false (
      set_content (codes "hello, all") (
        set_header
          (codes "X")
          (codes "y")
          (set_status (record { code = 404; reason = codes "Not Found" }) create)))
    ≡ hello
unfolding all_open
hello_built = refl

wire-hello :
    wire hello
    ≡ codes "HTTP/1.1 404 Not Found"
      ++ (crlf
          ++ (codes "X: y"
              ++ (crlf
                  ++ (codes "Content-Length: 10"
                      ++ (crlf
                          ++ (codes "Content-Type: text/plain"
                              ++ (crlf
                                  ++ (codes "Connection: close"
                                      ++ (crlf ++ (crlf ++ codes "hello, all"))))))))))
unfolding all_open
wire-hello = refl

-- A response with no body says nothing of its length, and keeps the connection open.
wire-create :
    wire create
    ≡ codes "HTTP/1.1 200 OK" ++ (crlf ++ (codes "Connection: keep-alive" ++ (crlf ++ crlf)))
unfolding all_open
wire-create = refl

serialize-Appends_example : Appends plain empty (wire hello) (serialize plain hello empty)
unfolding all_open
serialize-Appends_example = serialize-Appends plain hello (omega arith) (omega arith)
