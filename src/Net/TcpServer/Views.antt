-- ===== src/Net/TcpServer/Views.antt =====
-- What one connection sees of the lists and the map: the entries under its number.
use simple_http_server.Common.{
  ℕ, ◌≤◌, ◌≡◌, ◌≢◌, refl, sym, ap, ◌∙◌, arith, List, [], ◌∷◌, ◌++◌, ◌==◌, if◌then◌else◌, length,
  length-append,
}
use simple_http_server.Net.TcpServer.{
  Connection, Job, connect_established, remove_connection_in_loop, connect_destroyed,
}
use simple_http_server.Net.TcpServer.Lives.{
  Stage, accepted, open_, closing, removed, destroyed, Life, unborn, at, Post, post, waiting,
  opened,
}

module _ {ℓ} {A : Type ℓ} (key : A → ℕ) where
  abbrev pub only : ℕ → List A → List A
  only id [] = []
  only id (x ∷ xs) = if key x == id then x ∷ only id xs else only id xs

  pub only-append : (id : ℕ) (xs ys : List A) → only id (xs ++ ys) ≡ only id xs ++ only id ys
  only-append id [] ys = refl
  only-append id (x ∷ xs) ys = ground (arith, only-append id xs ys)

  -- An entry under another number is not seen.
  pub only_other :
      (id : ℕ) (xs : List A) (x : A) (ys : List A)
      → key x ≢ id
      → only id (xs ++ x ∷ ys) ≡ only id (xs ++ ys)
  only_other id [] x ys h = ground arith
  only_other id (z ∷ xs) x ys h = ground (arith, only_other id xs x ys h)

  lone :
      (xs ys zs : List A) (x : A)
      → xs ++ x ∷ ys ≡ zs
      → length zs ≤ 1
      → (zs ≡ x ∷ []) × (xs ++ ys ≡ [])
  lone [] [] zs x e h = (sym e, refl)
  lone [] (y ∷ ys) zs x e h = absurd (omega (arith, ap length e))
  lone (w ∷ xs) ys zs x e h = absurd (omega (arith, ap length e, length-append xs (x ∷ ys)))

  -- If there is at most one entry under a number, it is this one, and none is left without it.
  pub only_lone :
      (xs : List A) (x : A) (ys zs : List A)
      → only (key x) (xs ++ x ∷ ys) ≡ zs
      → length zs ≤ 1
      → (zs ≡ x ∷ []) × (only (key x) (xs ++ ys) ≡ [])
  only_lone xs x ys zs e h =
      let here : only (key x) (x ∷ ys) ≡ x ∷ only (key x) ys = ground arith in
      let (one, none_left) =
        lone (only (key x) xs) (only (key x) ys) zs x
          (ap (λ t. only (key x) xs ++ t) (sym here) ∙ sym (only-append (key x) xs (x ∷ ys)) ∙ e)
          h in
      (one, only-append (key x) xs ys ∙ none_left)

  -- An entry is put behind the others.
  pub only_behind : (xs : List A) (x : A) → only (key x) (xs ++ x ∷ []) ≡ only (key x) xs ++ x ∷ []
  only_behind xs x = only-append (key x) xs (x ∷ []) ∙ ground arith

  pub only_behind_other :
      (id : ℕ) (xs : List A) (x : A) → key x ≢ id → only id (xs ++ x ∷ []) ≡ only id xs
  only_behind_other id [] x h = ground arith
  only_behind_other id (z ∷ xs) x h = ground (arith, only_behind_other id xs x h)

pub length-waiting : (l : Life) → length (waiting l) ≤ 1
length-waiting unborn = omega arith
length-waiting (at accepted c) = omega arith
length-waiting (at open_ c) = omega arith
length-waiting (at closing c) = omega arith
length-waiting (at removed c) = omega arith
length-waiting (at destroyed c) = omega arith

pub length-opened : (l : Life) → length (opened l) ≤ 1
length-opened unborn = omega arith
length-opened (at accepted c) = omega arith
length-opened (at open_ c) = omega arith
length-opened (at closing c) = omega arith
length-opened (at removed c) = omega arith
length-opened (at destroyed c) = omega arith

-- Which stage a waiting job shows.
abbrev pub stage_of : Job → Stage
stage_of connect_established = accepted
stage_of remove_connection_in_loop = closing
stage_of connect_destroyed = removed

abbrev life_of : List Post → Life
life_of [] = unborn
life_of (p ∷ ps) = at (stage_of p.job) p.conn

pub waiting-inv :
    (job : Job) (c : Connection) (l : Life) → waiting l ≡ post job c ∷ [] → l ≡ at (stage_of job) c
waiting-inv job c unborn e = cc
waiting-inv job c (at accepted d) e = ap life_of e
waiting-inv job c (at open_ d) e = cc
waiting-inv job c (at closing d) e = ap life_of e
waiting-inv job c (at removed d) e = ap life_of e
waiting-inv job c (at destroyed d) e = cc

pub opened-inv : (c : Connection) (l : Life) → opened l ≡ c ∷ [] → l ≡ at open_ c
opened-inv c unborn e = cc
opened-inv c (at accepted d) e = cc
opened-inv c (at open_ d) e = cc
opened-inv c (at closing d) e = cc
opened-inv c (at removed d) e = cc
opened-inv c (at destroyed d) e = cc
