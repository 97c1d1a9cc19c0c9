-- ===== src/Http/Request/Text.antt =====
-- Methods as text, and header values.
use simple_http_server.Common.{◌≡◌, ◌≢◌, refl}
use simple_http_server.Http.Request.{
  Method, invalid, get, post, head, put, delete, method_of, method_string,
}

-- `setMethod` reads back what `methodString` writes, for each of the five methods.
pub method_of-method_string : (m : Method) → m ≢ invalid → method_of (method_string m) ≡ m
unfolding method_of method_string
method_of-method_string invalid h = absurd (h refl)
method_of-method_string get h = refl
method_of-method_string post h = refl
method_of-method_string head h = refl
method_of-method_string put h = refl
method_of-method_string delete h = refl
