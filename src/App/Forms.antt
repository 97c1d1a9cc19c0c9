-- ===== src/App/Forms.antt =====
-- Form bodies: what a browser sends is taken apart again.
use simple_http_server.Common.{
  ℕ, ◌+◌, ◌-◌, ◌≡◌, refl, ap, sym, ◌∙◌, arith, true, [], ◌∷◌, ◌++◌, some, length, length-append,
  append_assoc, drop, leb, take-append_le, take_of_length-le,
}
use simple_http_server.Common.Bytes.{Bytes}
use simple_http_server.Http.Context.Lines.{Lacks, Lacks-append, drop-length}
use simple_http_server.App.{find_from, cut, form_fields}

find_from-found :
    (c : ℕ) (xs ys : Bytes) → Lacks c xs → find_from c 0 (xs ++ c ∷ ys) ≡ some (length xs)
unfolding find_from
find_from-found c [] ys h = ground arith
find_from-found c (x ∷ xs) ys h = ground (arith, find_from-found c xs ys h.1)

find_from-skip :
    (c i : ℕ) (xs ys : Bytes)
    → find_from c 0 ys ≡ some i
    → find_from c (length xs) (xs ++ ys) ≡ some (length xs + i)
unfolding find_from
find_from-skip c i [] ys h = h ∙ ap some (omega arith)
find_from-skip c i (x ∷ xs) ys h =
    rw (find_from-skip c i xs ys h, find_from) (ap some (omega arith))

cut_between : (xs ys zs : Bytes) → cut (length xs) (length xs + length ys) (xs ++ (ys ++ zs)) ≡ ys
unfolding cut
cut_between xs ys zs =
    let here : leb (length xs) (length xs + length ys) ≡ true = ground arith in
    let n : length xs + length ys - length xs ≡ length ys = omega arith in
    rw (here, n, drop-length xs (ys ++ zs))
      (take-append_le (length ys) ys zs (omega arith)
        ∙ take_of_length-le (length ys) ys (omega arith))

-- The body of a form with two fields, as a browser sends it.
abbrev pub form : Bytes → Bytes → Bytes → Bytes → Bytes
form name user secret password = name ++ b'=' ∷ (user ++ b'&' ∷ (secret ++ b'=' ∷ password))

-- Two fields, where the first name has no `=` and no `&`, its value no `&`, and the second name no
-- `=`: the program takes exactly the two values out of the body, whatever else stands in them.
pub form_fields-form :
    (name user secret password : Bytes)
    → Lacks b'=' name
    → Lacks b'&' name
    → Lacks b'&' user
    → Lacks b'=' secret
    → form_fields (form name user secret password) ≡ some (user, password)
unfolding form_fields
form_fields-form name user secret password h1 h2 h3 h4 =
    let tail = secret ++ b'=' ∷ password in
    let front = name ++ b'=' ∷ user in
    let whole : form name user secret password ≡ front ++ b'&' ∷ tail =
      sym (append_assoc name (b'=' ∷ user) (b'&' ∷ tail)) in
    let name_end : find_from b'&' 0 (form name user secret password) ≡ some (length front) =
      ap (find_from b'&' 0) whole
      ∙ find_from-found b'&' front tail (Lacks-append b'&' name (b'=' ∷ user) h2 ((λ e. cc), h3)) in
    let second : find_from b'=' (length front) (form name user secret password)
        ≡ some (length front + length (b'&' ∷ secret)) =
      ap (find_from b'=' (length front)) whole
      ∙ find_from-skip b'=' (length (b'&' ∷ secret)) front (b'&' ∷ tail)
          (find_from-found b'=' (b'&' ∷ secret) password ((λ e. cc), h4)) in
    rw
      (
        find_from-found b'=' name (user ++ b'&' ∷ tail) h1,
        name_end,
        second,
        user_cut name user (b'&' ∷ tail),
        ap (drop (length front + length (b'&' ∷ secret) + 1)) whole
            ∙ password_left front secret password,
      )
      refl
  where
    user_cut :
        (name user rest : Bytes)
        → cut (length name + 1) (length (name ++ b'=' ∷ user)) (name ++ b'=' ∷ (user ++ rest))
          ≡ user
    user_cut name user rest =
        let start : length (name ++ b'=' ∷ []) ≡ length name + 1 = length-append name (b'=' ∷ []) in
        let end : length (name ++ b'=' ∷ user) ≡ length (name ++ b'=' ∷ []) + length user =
          omega (arith, length-append name (b'=' ∷ user), start) in
        rw (← start, end, ← append_assoc name (b'=' ∷ []) (user ++ rest))
          (cut_between (name ++ b'=' ∷ []) user rest)

    password_left :
        (front secret password : Bytes)
        → drop
            (length front + length (b'&' ∷ secret) + 1)
            (front ++ b'&' ∷ (secret ++ b'=' ∷ password))
          ≡ password
    password_left front secret password =
        let taken = front ++ (b'&' ∷ (secret ++ b'=' ∷ [])) in
        let n : length front + length (b'&' ∷ secret) + 1 ≡ length taken = omega (
          arith,
          length-append front (b'&' ∷ (secret ++ b'=' ∷ [])),
          length-append secret (b'=' ∷ []),
        ) in
        let all : front ++ b'&' ∷ (secret ++ b'=' ∷ password) ≡ taken ++ password =
          ap (λ t. front ++ b'&' ∷ t) (sym (append_assoc secret (b'=' ∷ []) password))
          ∙ sym (append_assoc front (b'&' ∷ (secret ++ b'=' ∷ [])) password) in
        rw (n, all) (drop-length taken password)
