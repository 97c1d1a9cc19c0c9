-- ===== src/App/Names.antt =====
-- What validation keeps out of the texts of statements.
use simple_http_server.Common.{
  ℕ, ◌≤◌, ◌≡◌, ◌≢◌, refl, ap, ap₂, ◌∙◌, arith, true, false, ◌&&◌, List, [], ◌∷◌, inl, inr,
  Bool-cases, length,
}
use simple_http_server.Common.Bytes.{Bytes}
use simple_http_server.Common.Outcome.{Outcome, returned, faulted, running, ◌>>=◌}
use simple_http_server.Http.Context.Lines.{Lacks}
use simple_http_server.Sql.Pool.{SqlConnectionPool}
use simple_http_server.Sql.Operation.{
  Database, query_error, select_text, insert_text, get_query_res, insert_row, insert_unless_found,
  insert_new_user,
}
use simple_http_server.App.{validate_string, all_words, is_word, check_register}

all_words-Lacks : (c : ℕ) (s : Bytes) → is_word c ≡ false → all_words s ≡ true → Lacks c s
unfolding all_words
all_words-Lacks c [] h k = tt
all_words-Lacks c (x ∷ xs) h k = elim (Bool-cases (is_word x)) [
  | inl e ↦ ((λ same. absurd (differs x c e h same)), all_words-Lacks c xs h (ground (arith, e)))
  | inr e ↦ absurd (ground (arith, e))
]
  where
    differs : (x c : ℕ) → is_word x ≡ true → is_word c ≡ false → x ≢ c
    differs x c h k e = cc

-- A text that is neither too short nor too long, and cannot end a quoted SQL text.
pub record IsPlain (s : Bytes) : Type 0 where
  pub unquoted : Lacks b'\'' s
  pub unescaped : Lacks b'\\' s
  pub long_enough : 5 ≤ length s
  pub short_enough : length s ≤ 16

pub validate_string-IsPlain : (s : Bytes) → validate_string s ≡ true → IsPlain s
unfolding validate_string is_word
validate_string-IsPlain s h = record {
  unquoted = all_words-Lacks b'\'' s refl (ground (arith, h));
  unescaped = all_words-Lacks b'\\' s refl (ground (arith, h));
  long_enough = ground (arith, h);
  short_enough = ground (arith, h);
}

-- Two databases with the same threads around them, which answer alike every statement made of
-- plain names.
pub record AgreeOnPlain (db1 db2 : Database) : Type 0 where
  pub others : db1.others ≡ db2.others
  pub select : (u : Bytes) → IsPlain u → db1.select (select_text u) ≡ db2.select (select_text u)
  pub execute :
      (u p : Bytes)
      → IsPlain u
      → IsPlain p
      → db1.execute (insert_text u p) ≡ db2.execute (insert_text u p)

module _ (db1 db2 : Database) (agree : AgreeOnPlain db1 db2) where
  get_query_res-agree :
      (u : Bytes) (p : SqlConnectionPool)
      → IsPlain u
      → get_query_res db1 u p ≡ get_query_res db2 u p
  unfolding get_query_res
  get_query_res-agree u p plain =
      ap₂
        (λ others answer.
          get_query_res (record { select = λ _. answer; execute = λ _. true; others = others }) u p)
        agree.others (agree.select u plain)

  insert_row-agree :
      (u w : Bytes) (p : SqlConnectionPool)
      → IsPlain u
      → IsPlain w
      → insert_row db1 u w p ≡ insert_row db2 u w p
  unfolding insert_row
  insert_row-agree u w p plain plain_too =
      ap₂
        (λ others done.
          insert_row (record { select = λ _. query_error; execute = λ _. done; others = others }) u
            w p)
        agree.others (agree.execute u w plain plain_too)

  insert_unless_found-agree :
      (u w : Bytes)
      → IsPlain u
      → IsPlain w
      → (o : Outcome (List Bytes × SqlConnectionPool))
      → (o >>= insert_unless_found db1 u w) ≡ (o >>= insert_unless_found db2 u w)
  insert_unless_found-agree u w plain plain_too (returned ([], q)) =
      insert_row-agree u w q plain plain_too
  insert_unless_found-agree u w plain plain_too (returned (x ∷ xs, q)) = refl
  insert_unless_found-agree u w plain plain_too (faulted e) = refl
  insert_unless_found-agree u w plain plain_too running = refl

  insert_new_user-agree :
      (u w : Bytes) (p : SqlConnectionPool)
      → IsPlain u
      → IsPlain w
      → insert_new_user db1 u w p ≡ insert_new_user db2 u w p
  unfolding insert_new_user
  insert_new_user-agree u w p plain plain_too =
      ap (λ o. o >>= insert_unless_found db1 u w) (get_query_res-agree u p plain)
      ∙ insert_unless_found-agree u w plain plain_too (get_query_res db2 u p)

  -- Two databases with the same threads around them, which answer alike every statement made of
  -- plain names, whatever they do with other statements: a registration with any two fields ends
  -- alike on both, and leaves the same pool. So no statement with a quote or a backslash from a
  -- form, or with a field of a length that is not allowed, decides it.
  pub check_register-agree :
      (fields : Bytes × Bytes) (p : SqlConnectionPool)
      → check_register db1 fields p ≡ check_register db2 fields p
  unfolding check_register
  check_register-agree (u, w) p = elim (Bool-cases (validate_string u && validate_string w)) [
    | inl e ↦
        rw (e, check_register)
          (insert_new_user-agree u w p (validate_string-IsPlain u (ground (arith, e)))
            (validate_string-IsPlain w (ground (arith, e))))
    | inr e ↦ rw (e, check_register) refl
  ]
